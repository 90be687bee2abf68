-- ===== src/Detector/LockIssues/Tests.antt =====
-- A run on a snapshot in which 2 and 3 wait for each other.
use mysqlmonitoring.Prelude.{ℕ, ◌≡◌, refl, inl, inr, some, none, false, List, [], ◌∷◌, All, codes}
use mysqlmonitoring.Prelude.Int.{pos}
use mysqlmonitoring.Db.{LockWait, Snapshot}
use mysqlmonitoring.Detector.Issues.{Issue, show, join}
use mysqlmonitoring.Detector.LockGraph.{blockers}
use mysqlmonitoring.Detector.LockGraph.Edges.{Edge-build_lock_graph}
use mysqlmonitoring.Detector.LockGraph.Walks.{IsCycle}
use mysqlmonitoring.Detector.LockGraph.Cycles.{IsKeyOrder}
use mysqlmonitoring.Detector.LockIssues.{LockChainDetector, detect, format_pids}
use mysqlmonitoring.Detector.LockIssues.Reports.{
  IsFounded, IsAlarmed, graph_of, detect_sound, detect-cycle,
}

abbrev wait_for : ℕ → ℕ → LockWait
wait_for waiting blocking = record {
  waiting_trx_id = [];
  waiting_pid = waiting;
  waiting_query = [];
  waiting_digest = [];
  waiting_user = [];
  waiting_host = [];
  blocking_trx_id = [];
  blocking_pid = blocking;
  blocking_query = [];
  blocking_digest = [];
  blocking_user = [];
  blocking_host = [];
  lock_table = [];
  lock_index = [];
  lock_type = [];
  wait_started = 0;
  wait_duration_ms = pos 0;
}

abbrev snapshot : Snapshot
snapshot = record {
  time = 100;
  server_info = record {
    version = [];
    version_number = pos 0;
    is_mariadb = false;
    is_aurora = false;
    is_rds = false;
  };
  transactions = [];
  lock_waits = wait_for 2 3 ∷ wait_for 3 2 ∷ [];
  processes = [];
  metadata_locks = [];
  innodb_status = record {
    raw = [];
    latest_deadlock = none;
    transaction_count = pos 0;
    active_trx_count = pos 0;
    lock_wait_count = pos 0;
    history_list_length = 0;
  };
}

abbrev detector : LockChainDetector
detector = record { wait_threshold = pos 10000000000 }

format_pids_test : format_pids (2 ∷ 13 ∷ []) ≡ codes "[2 13]"
unfolding format_pids show join
format_pids_test = refl

abbrev keys : List ℕ
keys = blockers (graph_of snapshot)

keys-IsKeyOrder : IsKeyOrder keys (graph_of snapshot)
keys-IsKeyOrder n = ((λ m. m), λ m. m)

a-Cycle : IsCycle (graph_of snapshot) (2 ∷ 3 ∷ [])
a-Cycle = (
  (Edge-build_lock_graph snapshot.lock_waits 2 3).1 (inr (inl (refl, refl))),
  ((Edge-build_lock_graph snapshot.lock_waits 3 2).1 (inl (refl, refl)), tt),
)

detect_sound_example :
    (is : List Issue) × (detect detector keys keys snapshot ≡ some is)
    × All (IsFounded detector (graph_of snapshot)) is
detect_sound_example = detect_sound detector keys keys snapshot keys-IsKeyOrder

detect-cycle_example :
    (is : List Issue) × (detect detector keys keys snapshot ≡ some is)
    × IsAlarmed (graph_of snapshot) is
detect-cycle_example =
    detect-cycle detector keys keys (2 ∷ 3 ∷ []) snapshot keys-IsKeyOrder keys-IsKeyOrder a-Cycle
