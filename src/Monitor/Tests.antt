-- ===== src/Monitor/Tests.antt =====
-- Runs of a poll.
use mysqlmonitoring.Prelude.{ℕ, ◌≡◌, refl, none, List, [], ◌∷◌, codes}
use mysqlmonitoring.Db.{answered, failed}
use mysqlmonitoring.Detector.Issues.{Severity, warning, critical, Issue}
use mysqlmonitoring.Detector.LockGraph.{LockGraph, blockers}
use mysqlmonitoring.Monitor.{
  Result, Monitor, Answers, default_config, new_monitor, max_severity, max_from, blank_snapshot,
  no_server_info, no_innodb_status, take_snapshot,
}
use mysqlmonitoring.Monitor.Polls.{IsOutcome, take_snapshot-IsOutcome}

abbrev issue : Severity → Issue
issue s = record { detector = []; severity = s; title = []; description = []; details = [] }

abbrev result : Result
result = record {
  snapshot = blank_snapshot 5;
  issues = issue warning ∷ issue critical ∷ issue warning ∷ [];
  error = none;
}

max_severity_test : max_severity result ≡ critical
unfolding max_severity max_from
max_severity_test = refl

abbrev answers : Answers
answers = record {
  server_info = answered no_server_info;
  transactions = answered [];
  lock_waits = answered [];
  processes = answered [];
  metadata_locks = failed (codes "no such table");
  innodb_status = no_innodb_status;
}

abbrev order : LockGraph → List ℕ × List ℕ
order g = (blockers g, blockers g)

abbrev monitor : Monitor
monitor = new_monitor default_config

take_snapshot-IsOutcome_example :
    IsOutcome order monitor answers 7 (take_snapshot order monitor answers 7)
take_snapshot-IsOutcome_example =
    take_snapshot-IsOutcome order monitor answers 7
      (λ g. ((λ n. ((λ m. m), λ m. m)), λ n. ((λ m. m), λ m. m)))
