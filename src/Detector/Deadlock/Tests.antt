-- ===== src/Detector/Deadlock/Tests.antt =====
-- Runs of the deadlock detector over two snapshots.
use mysqlmonitoring.Prelude.{ℕ, ◌≡◌, ◌↔◌, refl, List, [], ◌∷◌, In, codes, some, false, Str, str_eq}
use mysqlmonitoring.Prelude.Int.{pos}
use mysqlmonitoring.Db.{Process, DeadlockTransaction, DeadlockInfo, Snapshot}
use mysqlmonitoring.Detector.Deadlock.{
  new_deadlock_detector, issue_of, detect, participant, display_of, trx_by_pid,
}
use mysqlmonitoring.Detector.Issues.{show, truncate_query}
use mysqlmonitoring.Detector.Deadlock.Reports.{IsAlive, detect-again}

abbrev victim : DeadlockTransaction
victim = record {
  trx_id = codes "t";
  thread_id = 12;
  query = codes "UPDATE t";
  user = codes "app";
  host = codes "h";
  lock_mode = [];
  table_name = codes "shop.t";
  index_name = [];
  waiting_for = [];
}

abbrev deadlock : Str → DeadlockInfo
deadlock t = record { timestamp = t; transactions = victim ∷ [] }

abbrev process : ℕ → Process
process id = record {
  id = id;
  user = [];
  host = [];
  db = [];
  command = [];
  time = pos 0;
  state = [];
  info = [];
}

abbrev snapshot : List Process → Str → Snapshot
snapshot processes t = record {
  time = 100;
  server_info = record {
    version = [];
    version_number = pos 0;
    is_mariadb = false;
    is_aurora = false;
    is_rds = false;
  };
  transactions = [];
  lock_waits = [];
  processes = processes;
  metadata_locks = [];
  innodb_status = record {
    raw = [];
    latest_deadlock = some (deadlock t);
    transaction_count = pos 0;
    active_trx_count = pos 0;
    lock_wait_count = pos 0;
    history_list_length = 0;
  };
}

abbrev first : Snapshot
first = snapshot [] (codes "10:00")

abbrev alive : Snapshot
alive = snapshot (process 12 ∷ []) (codes "10:00")

abbrev later : Snapshot
later = snapshot [] (codes "11:00")

participant_test : participant [] victim ≡ codes "PID:12(app@h) shop.t [UPDATE t]"
unfolding participant display_of trx_by_pid str_eq truncate_query show
participant_test = refl

detect-again_example :
    In
      (issue_of alive (deadlock (codes "10:00")))
      (detect (detect new_deadlock_detector first).1 alive).0
    ↔ IsAlive alive (deadlock (codes "10:00"))
detect-again_example =
    detect-again new_deadlock_detector first alive (deadlock (codes "10:00"))
      (deadlock (codes "10:00")) refl refl refl
