-- ===== src/Collector/Waits/Tests.antt =====
-- Runs of the wait collector.
use mysqlmonitoring.Prelude.{ℕ, List, [], ◌∷◌, codes}
use mysqlmonitoring.Prelude.Int.{pos}
use mysqlmonitoring.Collector.Waits.{
  WaitRow, WaitCollector, new_wait_collector, new_wait_series, poll,
}

abbrev row : ℕ → WaitRow
row n = record { event_name = codes "wait/io/file/a"; count_star = n; sum_timer_wait = 10 }

abbrev lock_row : ℕ → WaitRow
lock_row n = record { event_name = codes "wait/lock/b"; count_star = n; sum_timer_wait = 10 }

abbrev rows : List WaitRow
rows = row 5 ∷ lock_row 9 ∷ []

abbrev collector : WaitCollector
collector = (poll (new_wait_collector (new_wait_series (pos 2))) 10 (row 3 ∷ lock_row 9 ∷ [])).0
