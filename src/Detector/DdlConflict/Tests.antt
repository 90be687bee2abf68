-- ===== src/Detector/DdlConflict/Tests.antt =====
-- Runs on a snapshot in which an ALTER waits, and a SELECT behind it.
use mysqlmonitoring.Prelude.{
  ℕ, ◌≡◌, refl, true, false, none, [], ◌∷◌, Str, codes, str_eq, has_prefix, is_space, trim_left,
  trim_right, trim_space,
}
use mysqlmonitoring.Prelude.Int.{pos}
use mysqlmonitoring.Db.{Process, Snapshot}
use mysqlmonitoring.Detector.DdlConflict.{DdlConflictDetector, waiting_state, is_ddl}

abbrev process : ℕ → Str → Process
process id info = record {
  id = id;
  user = [];
  host = [];
  db = codes "shop";
  command = codes "Query";
  time = pos 12;
  state = waiting_state;
  info = info;
}

abbrev alter : Process
alter = process 4 (codes " alter table t add c int")

abbrev select : Process
select = process 5 (codes "SELECT 1")

abbrev snapshot : Snapshot
snapshot = record {
  time = 100;
  server_info = record {
    version = [];
    version_number = pos 0;
    is_mariadb = false;
    is_aurora = false;
    is_rds = false;
  };
  transactions = [];
  lock_waits = [];
  processes = alter ∷ select ∷ [];
  metadata_locks = [];
  innodb_status = record {
    raw = [];
    latest_deadlock = none;
    transaction_count = pos 0;
    active_trx_count = pos 0;
    lock_wait_count = pos 0;
    history_list_length = 0;
  };
}

abbrev detector : DdlConflictDetector
detector = record { wait_threshold = pos 10000000000 }

is_ddl_test : (is_ddl alter.info ≡ true) × (is_ddl select.info ≡ false)
unfolding is_ddl trim_space trim_left trim_right is_space has_prefix str_eq
is_ddl_test = (refl, refl)
