-- ===== src/Collector/Cpu/Tests.antt =====
-- Runs of the CPU sampler.
use mysqlmonitoring.Prelude.{
  ◌%◌, ◌^◌, ◌≡◌, refl, true, Option, none, some, List, [], ◌∷◌, ◌==◌, if◌then◌else◌, Str, codes,
  str_eq,
}
use mysqlmonitoring.Prelude.Int.{pos, ◌-ℤ◌}
use mysqlmonitoring.Series.Sample.{cpu_class}
use mysqlmonitoring.Db.{answered, failed}
use mysqlmonitoring.Collector.AppTag.{CurrentStmt}
use mysqlmonitoring.Collector.Waits.{append, new_wait_series}
use mysqlmonitoring.Collector.Cpu.{
  CpuSampler, new_cpu_sampler, is_cpu_wait, record_session, visit, visit_all, sample, flush,
}
use mysqlmonitoring.Collector.Cpu.Ticks.{Tick, observed, answers, sample_all, flush-sample_all}

abbrev as_is : Str → Option Str
as_is s = some s

abbrev running : Str → CurrentStmt
running wait = record {
  processlist_id = 7;
  schema = [];
  digest = [];
  sql_text = codes "SELECT 1";
  executing = true;
  current_wait = wait;
  program_name = [];
  user = [];
  host = [];
}

abbrev sampler : CpuSampler
sampler = new_cpu_sampler (new_wait_series (pos 4)) none 10

abbrev ticks : List Tick
ticks =
    (11, answered (running [] ∷ running (codes "wait/lock/a") ∷ []))
    ∷ (12, failed (codes "timeout"))
    ∷ (13, answered (running (codes "idle") ∷ []))
    ∷ []

abbrev ticked : CpuSampler
ticked = record sampler { pending_obs = 2; pending_ticks = 2 }

flush-sample_all_example :
    ((flush ticked 20).series ≡ (
      if answers ticks % 2 ^ 64 == 0
      then sampler.series
      else append sampler.series (record {
        time = 20;
        interval = pos 20 -ℤ pos 10;
        wait_class = cpu_class;
        count_delta = 0;
        sum_timer_wait_delta = 0;
        cpu_observations = observed ticks % 2 ^ 64;
        cpu_ticks = answers ticks % 2 ^ 64;
      })))
    × ((flush ticked 20).pending_obs ≡ 0)
    × ((flush ticked 20).pending_ticks ≡ 0)
    × ((flush ticked 20).interval_start ≡ 20)
unfolding sample_all sample visit_all visit record_session is_cpu_wait str_eq
flush-sample_all_example = flush-sample_all as_is sampler ticked ticks 20 refl refl refl
