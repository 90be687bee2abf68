-- ===== src/Insights/Engine/Tests.antt =====
-- Runs of Insights.
use mysqlmonitoring.Prelude.{ℕ, Option, some, true, List, [], ◌∷◌, Str, codes}
use mysqlmonitoring.Prelude.Int.{pos}
use mysqlmonitoring.Series.Registry.{DigestEntry, Registry}
use mysqlmonitoring.Db.{answered, failed}
use mysqlmonitoring.Collector.AppTag.{CurrentStmt}
use mysqlmonitoring.Collector.Waits.{WaitRow}
use mysqlmonitoring.Insights.Engine.{
  Config, Event, wait_tick, cpu_tick, cpu_flush, digest_tick, default_config, new_insights, run,
}
use mysqlmonitoring.Insights.Engine.Runs.{run_alone, BothAgree, run-new_insights}

-- An interval that is negative takes its default.
abbrev config : Config
config = record default_config { poll_interval = pos 0; window = pos 7200000000000 }

abbrev as_is : Str → Option Str
as_is s = some s

abbrev order : Registry → List DigestEntry
order r = r.entries

abbrev running : CurrentStmt
running = record {
  processlist_id = 7;
  schema = [];
  digest = [];
  sql_text = codes "SELECT 1";
  executing = true;
  current_wait = [];
  program_name = [];
  user = [];
  host = [];
}

abbrev row : ℕ → WaitRow
row n = record { event_name = codes "wait/lock/a"; count_star = n; sum_timer_wait = n }

abbrev events : List Event
events =
    wait_tick 10 (answered (row 3 ∷ []))
    ∷ cpu_tick 11 (answered (running ∷ []))
    ∷ digest_tick 12 (failed (codes "timeout"))
    ∷ wait_tick 20 (answered (row 5 ∷ []))
    ∷ cpu_flush 20
    ∷ []

run-new_insights_example :
    BothAgree
      (run order as_is (new_insights config 5) events)
      (run_alone as_is (new_insights config 5).cpu events)
run-new_insights_example = run-new_insights order as_is config 5 events
