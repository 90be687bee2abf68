-- ===== src/Monitor.antt =====
-- internal/monitor/monitor.go: one poll of the database, and what the detectors say of it. The
-- answers of the database are the fields of `Answers`; the timeouts are the driver's. `order` gives
-- the order in which Go meets the keys of the lock graph.
pub mod Polls
mod Tests
use mysqlmonitoring.Prelude.{
  ℕ, ◌*◌, ◌^◌, Bool, Option, none, some, List, [], ◌∷◌, ◌++◌, ltb, if◌then◌else◌, Str, codes,
}
use mysqlmonitoring.Prelude.Int.{ℤ, pos}
use mysqlmonitoring.Db.{
  Answer, answered, failed, Transaction, LockWait, Process, MetadataLock, InnodbStatus, ServerInfo,
  Snapshot,
}
use mysqlmonitoring.Detector.Issues.{Severity, info, severity_rank, Issue}
use mysqlmonitoring.Detector.LongTransaction.{LongTransactionDetector}
use mysqlmonitoring.Detector.LongTransaction
use mysqlmonitoring.Detector.LockGraph.{LockGraph, build_lock_graph}
use mysqlmonitoring.Detector.LockIssues.{LockChainDetector}
use mysqlmonitoring.Detector.LockIssues
use mysqlmonitoring.Detector.DdlConflict.{DdlConflictDetector}
use mysqlmonitoring.Detector.DdlConflict
use mysqlmonitoring.Detector.Deadlock.{DeadlockDetector, new_deadlock_detector}
use mysqlmonitoring.Detector.Deadlock

pub record Config : Type 0 where
  pub interval : ℤ
  pub long_query_threshold : ℤ
  pub lock_wait_threshold : ℤ
  pub critical_trx_threshold : ℤ

pub default_config : Config
default_config = record {
  interval = pos (2 * 10 ^ 9);
  long_query_threshold = pos (30 * 10 ^ 9);
  lock_wait_threshold = pos (10 * 10 ^ 9);
  critical_trx_threshold = pos (300 * 10 ^ 9);
}

-- A failure names the call that failed, with its text.
pub record Result : Type 0 where
  pub snapshot : Snapshot
  pub issues : List Issue
  pub error : Option (Str × Str)

-- MaxSeverity
pub max_from : Severity → List Issue → Severity
max_from max [] = max
max_from max (i ∷ is) =
    max_from (if ltb (severity_rank max) (severity_rank i.severity) then i.severity else max) is

pub max_severity : Result → Severity
max_severity r = max_from info r.issues

-- The four detectors, in their order.
pub record Monitor : Type 0 where
  pub long_transaction : LongTransactionDetector
  pub lock_chain : LockChainDetector
  pub ddl_conflict : DdlConflictDetector
  pub deadlock : DeadlockDetector

-- New
pub new_monitor : Config → Monitor
new_monitor cfg = record {
  long_transaction = record {
    warning_threshold = cfg.long_query_threshold;
    critical_threshold = cfg.critical_trx_threshold;
  };
  lock_chain = record { wait_threshold = cfg.lock_wait_threshold };
  ddl_conflict = record { wait_threshold = cfg.lock_wait_threshold };
  deadlock = new_deadlock_detector;
}

-- `innodb_status` holds what that call returns beside its error, which is not read.
pub record Answers : Type 0 where
  pub server_info : Answer ServerInfo
  pub transactions : Answer (List Transaction)
  pub lock_waits : Answer (List LockWait)
  pub processes : Answer (List Process)
  pub metadata_locks : Answer (List MetadataLock)
  pub innodb_status : InnodbStatus

abbrev pub no_server_info : ServerInfo
no_server_info = record {
  version = [];
  version_number = pos 0;
  is_mariadb = Bool.false;
  is_aurora = Bool.false;
  is_rds = Bool.false;
}

abbrev pub no_innodb_status : InnodbStatus
no_innodb_status = record {
  raw = [];
  latest_deadlock = none;
  transaction_count = pos 0;
  active_trx_count = pos 0;
  lock_wait_count = pos 0;
  history_list_length = 0;
}

-- The snapshot before the first call.
abbrev pub blank_snapshot : ℕ → Snapshot
blank_snapshot now = record {
  time = now;
  server_info = no_server_info;
  transactions = [];
  lock_waits = [];
  processes = [];
  metadata_locks = [];
  innodb_status = no_innodb_status;
}

-- What a call that may fail leaves in the snapshot, which is the zero value on failure.
abbrev pub or_none : {A : Type 0} → Answer (List A) → List A
or_none (answered xs) = xs
or_none (failed e) = []

-- The loop over the detectors; only the one for deadlocks changes.
pub run_detectors : (LockGraph → List ℕ × List ℕ) → Monitor → Snapshot → Option (Monitor × Result)
run_detectors order m snap =
    let keys = order (build_lock_graph snap.lock_waits) in
    let (deadlocks, deadlock) = Deadlock.detect m.deadlock snap in
    elim (LockIssues.detect m.lock_chain keys.0 keys.1 snap) [
      | none ↦ none
      | some locks ↦ some (
        record m { deadlock = deadlock },
        record {
          snapshot = snap;
          issues =
              LongTransaction.detect m.long_transaction snap
              ++ locks
              ++ DdlConflict.detect m.ddl_conflict snap
              ++ deadlocks;
          error = none;
        },
      )
    ]

pub give_up : Monitor → Snapshot → Str → Str → Option (Monitor × Result)
give_up m snap call e = some (m, record { snapshot = snap; issues = []; error = some (call, e) })

-- Snapshot, call by call.
pub with_processes :
    (LockGraph → List ℕ × List ℕ)
    → Monitor
    → Answers
    → Snapshot
    → Answer (List Process)
    → Option (Monitor × Result)
with_processes order m a snap (failed e) = give_up m snap (codes "processes") e
with_processes order m a snap (answered ps) = run_detectors order m (record snap {
  processes = ps;
  metadata_locks = or_none a.metadata_locks;
  innodb_status = a.innodb_status;
})

pub with_lock_waits :
    (LockGraph → List ℕ × List ℕ)
    → Monitor
    → Answers
    → Snapshot
    → Answer (List LockWait)
    → Option (Monitor × Result)
with_lock_waits order m a snap (failed e) = give_up m snap (codes "lock waits") e
with_lock_waits order m a snap (answered ws) =
    with_processes order m a (record snap { lock_waits = ws }) a.processes

pub with_transactions :
    (LockGraph → List ℕ × List ℕ)
    → Monitor
    → Answers
    → Snapshot
    → Answer (List Transaction)
    → Option (Monitor × Result)
with_transactions order m a snap (failed e) = give_up m snap (codes "transactions") e
with_transactions order m a snap (answered ts) =
    with_lock_waits order m a (record snap { transactions = ts }) a.lock_waits

pub with_server_info :
    (LockGraph → List ℕ × List ℕ)
    → Monitor
    → Answers
    → Snapshot
    → Answer ServerInfo
    → Option (Monitor × Result)
with_server_info order m a snap (failed e) = give_up m snap (codes "server info") e
with_server_info order m a snap (answered i) =
    with_transactions order m a (record snap { server_info = i }) a.transactions

-- Snapshot at the time `now`: the monitor afterwards, and the result.
pub take_snapshot :
    (LockGraph → List ℕ × List ℕ) → Monitor → Answers → ℕ → Option (Monitor × Result)
take_snapshot order m a now = with_server_info order m a (blank_snapshot now) a.server_info
