-- ===== src/Detector/Deadlock.antt =====
-- internal/detector/deadlock.go: the last deadlock of the InnoDB status. The detector's state is the timestamp it has reported last.
pub mod Reports
mod Tests
use mysqlmonitoring.Prelude.{
  ℕ, suc, ◌+◌, Bool, true, false, not, ◌&&◌, ◌||◌, Option, none, some, List, [], ◌∷◌, ◌++◌, length,
  any_of, ◌==◌, if◌then◌else◌, Str, codes, str_eq,
}
use mysqlmonitoring.Db.{Transaction, Process, DeadlockTransaction, DeadlockInfo, Snapshot}
use mysqlmonitoring.Detector.Issues.{critical, Issue, show, truncate_query, join}

pub record DeadlockDetector : Type 0 where
  pub last_seen_timestamp : Str

abbrev pub new_deadlock_detector : DeadlockDetector
new_deadlock_detector = record { last_seen_timestamp = [] }

abbrev pub name : Str
name = codes "deadlock"

-- aliveProcs[trx.ThreadID] for one of the participants
pub any_alive : List Process → List DeadlockTransaction → Bool
any_alive processes trxs = any_of (λ trx. any_of (λ p. p.id == trx.thread_id) processes) trxs

-- trxByPID[pid], written by a loop, so the last transaction of the PID.
pub trx_by_pid : ℕ → List Transaction → Option Transaction → Option Transaction
trx_by_pid pid [] found = found
trx_by_pid pid (t ∷ ts) found = trx_by_pid pid ts (if t.id == pid then some t else found)

pub display_of : DeadlockTransaction → Option Transaction → Str
display_of trx none = trx.query
display_of trx (some live) = if str_eq live.digest_text [] then trx.query else live.digest_text

pub participant : List Transaction → DeadlockTransaction → Str
participant txns trx =
    let query = display_of trx (trx_by_pid trx.thread_id txns none) in
    codes "PID:"
    ++ show trx.thread_id
    ++ (if str_eq trx.user [] && str_eq trx.host []
        then []
        else codes "(" ++ trx.user ++ codes "@" ++ trx.host ++ codes ")")
    ++ (if str_eq trx.table_name [] then [] else codes " " ++ trx.table_name)
    ++ (if str_eq query [] then [] else codes " [" ++ truncate_query query 40 ++ codes "]")

pub participants : List Transaction → List DeadlockTransaction → List Str
participants txns [] = []
participants txns (trx ∷ rest) = participant txns trx ∷ participants txns rest

-- The details of the participants, from the one with the index `i`.
pub details_from : ℕ → List DeadlockTransaction → List (Str × Str)
details_from i [] = []
details_from i (trx ∷ rest) =
    let prefix = codes "trx" ++ show (i + 1) ++ codes "_" in
    (prefix ++ codes "id", trx.trx_id)
    ∷ (prefix ++ codes "thread_id", show trx.thread_id)
    ∷ (prefix ++ codes "query", trx.query)
    ∷ (prefix ++ codes "user", trx.user)
    ∷ (prefix ++ codes "host", trx.host)
    ∷ (prefix ++ codes "table", trx.table_name)
    ∷ details_from (i + 1) rest

pub issue_of : Snapshot → DeadlockInfo → Issue
issue_of snapshot dl = record {
  detector = name;
  severity = critical;
  title = codes "Deadlock detected (" ++ show (length dl.transactions) ++ codes " transactions)";
  description =
      codes "Deadlock at "
      ++ dl.timestamp
      ++ codes ": "
      ++ join (codes " <-> ") (participants snapshot.transactions dl.transactions);
  details =
      (codes "timestamp", dl.timestamp)
      ∷ (codes "participants", show (length dl.transactions))
      ∷ details_from 0 dl.transactions;
}

pub report : DeadlockDetector → Snapshot → Option DeadlockInfo → List Issue × DeadlockDetector
report d snapshot none = ([], d)
report d snapshot (some dl) =
    if str_eq dl.timestamp d.last_seen_timestamp
      && not (any_alive snapshot.processes dl.transactions)
    then ([], d)
    else (issue_of snapshot dl ∷ [], record { last_seen_timestamp = dl.timestamp })

-- Detect: the issues, and the detector as it is afterwards.
pub detect : DeadlockDetector → Snapshot → List Issue × DeadlockDetector
detect d snapshot = report d snapshot snapshot.innodb_status.latest_deadlock
