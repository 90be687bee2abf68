-- ===== src/Detector/LongTransaction/Tests.antt =====
-- Runs of the detector of long transactions.
use mysqlmonitoring.Prelude.{ℕ, ◌≡◌, ◌↔◌, refl, [], ◌∷◌, In, codes, none, false}
use mysqlmonitoring.Prelude.Int.{pos}
use mysqlmonitoring.Db.{Transaction, Snapshot}
use mysqlmonitoring.Detector.Issues.{format_duration, show}
use mysqlmonitoring.Detector.LongTransaction.{
  LongTransactionDetector, issue_of, detect, detect_from, age,
}
use mysqlmonitoring.Detector.LongTransaction.Ages.{IsLong, IsGraded, in-detect}

abbrev transaction : ℕ → ℕ → Transaction
transaction id started = record {
  id = id;
  user = codes "app";
  host = codes "h";
  db = codes "shop";
  command = [];
  time = pos 0;
  state = [];
  query = codes "SELECT 1";
  digest_text = [];
  trx_id = codes "t";
  trx_state = [];
  trx_started = started;
}

abbrev snapshot : Snapshot
snapshot = record {
  time = 100000000000;
  server_info = record {
    version = [];
    version_number = pos 0;
    is_mariadb = false;
    is_aurora = false;
    is_rds = false;
  };
  transactions = transaction 1 95000000000 ∷ transaction 2 60000000000 ∷ transaction 3 0 ∷ [];
  lock_waits = [];
  processes = [];
  metadata_locks = [];
  innodb_status = record {
    raw = [];
    latest_deadlock = none;
    transaction_count = pos 0;
    active_trx_count = pos 0;
    lock_wait_count = pos 0;
    history_list_length = 0;
  };
}

abbrev detector : LongTransactionDetector
detector = record { warning_threshold = pos 30000000000; critical_threshold = pos 300000000000 }

duration_test :
    (format_duration (pos 40999999999) ≡ codes "40s")
    × (format_duration (pos 61000000000) ≡ codes "1m1s")
    × (format_duration (pos 7260000000000) ≡ codes "2h1m")
    × (format_duration (pos 16777259999999999) ≡ codes "4660h21m")
unfolding format_duration show mysqlmonitoring.Detector.Issues.whole_seconds
    mysqlmonitoring.Detector.Issues.highest
duration_test = (refl, refl, refl, refl)

detect_test : detect detector snapshot ≡ issue_of detector snapshot (transaction 2 60000000000) ∷ []
unfolding detect detect_from age
detect_test = refl

in-detect_example :
    In (issue_of detector snapshot (transaction 2 60000000000)) (detect detector snapshot) ↔ (
      (trx : Transaction) × In trx snapshot.transactions
      × IsLong detector snapshot trx
      × (issue_of detector snapshot (transaction 2 60000000000) ≡ issue_of detector snapshot trx)
      × IsGraded detector snapshot trx
          (issue_of detector snapshot (transaction 2 60000000000)).severity)
in-detect_example =
    in-detect detector snapshot (issue_of detector snapshot (transaction 2 60000000000))
