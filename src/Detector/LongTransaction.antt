-- ===== src/Detector/LongTransaction.antt =====
-- internal/detector/long_transaction.go: transactions that have run for longer than a threshold.
pub mod Ages
mod Tests
use mysqlmonitoring.Prelude.{
  Bool, true, false, not, List, [], ◌∷◌, ◌++◌, ◌==◌, if◌then◌else◌, Str, codes, str_eq,
}
use mysqlmonitoring.Prelude.Int.{ℤ, pos, ltb_ℤ, ◌-ℤ◌}
use mysqlmonitoring.Db.{Transaction, Snapshot}
use mysqlmonitoring.Detector.Issues.{
  Severity, warning, critical, Issue, show, format_duration, truncate_query,
}

pub record LongTransactionDetector : Type 0 where
  pub warning_threshold : ℤ
  pub critical_threshold : ℤ

abbrev pub name : Str
name = codes "long_transaction"

-- snapshot.Time.Sub(trx.TrxStarted)
abbrev pub age : Snapshot → Transaction → ℤ
unfolding ◌-ℤ◌
age snapshot trx = pos snapshot.time -ℤ pos trx.trx_started

pub query_display : Transaction → Str
query_display trx = if str_eq trx.digest_text [] then trx.query else trx.digest_text

pub severity_of : LongTransactionDetector → ℤ → Severity
severity_of d duration = if ltb_ℤ duration d.critical_threshold then warning else critical

pub issue_of : LongTransactionDetector → Snapshot → Transaction → Issue
issue_of d snapshot trx =
    let duration = age snapshot trx in
    record {
      detector = name;
      severity = severity_of d duration;
      title = codes "Long-running transaction (" ++ format_duration duration ++ codes ")";
      description =
          codes "Transaction "
          ++ trx.trx_id
          ++ codes " by "
          ++ trx.user
          ++ codes "@"
          ++ trx.host
          ++ codes " has been running for "
          ++ format_duration duration
          ++ codes ". Query: "
          ++ truncate_query (query_display trx) 100;
      details =
          (codes "trx_id", trx.trx_id)
          ∷ (codes "thread_id", show trx.id)
          ∷ (codes "user", trx.user)
          ∷ (codes "host", trx.host)
          ∷ (codes "database", trx.db)
          ∷ (codes "duration", format_duration duration)
          ∷ (codes "state", trx.trx_state)
          ∷ (codes "query", query_display trx)
          ∷ [];
    }

-- The loop of Detect.
pub detect_from : LongTransactionDetector → Snapshot → List Transaction → List Issue
detect_from d snapshot [] = []
detect_from d snapshot (trx ∷ rest) =
    let others = detect_from d snapshot rest in
    if trx.trx_started == 0
    then others
    else if ltb_ℤ (age snapshot trx) d.warning_threshold
    then others
    else issue_of d snapshot trx ∷ others

-- Detect
pub detect : LongTransactionDetector → Snapshot → List Issue
detect d snapshot = detect_from d snapshot snapshot.transactions
