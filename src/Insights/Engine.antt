-- ===== src/Insights/Engine.antt =====
-- internal/insights/insights.go: the collectors that Insights runs, and the state that they share.
-- Each loop of Run is a sequence of steps here, and the goroutines' steps come in any order. The
-- deadline that pollWithTimeout sets shows as a failed answer. The CloudWatch loop is left out.
pub mod Capacity
pub mod Runs
mod Tests
use mysqlmonitoring.Prelude.{
  ℕ, ◌+◌, ◌/◌, ◌*◌, ◌%◌, ◌^◌, Bool, true, false, Option, none, some, List, [], ◌∷◌, ltb,
  if◌then◌else◌, Str,
}
use mysqlmonitoring.Prelude.Int.{ℤ, pos, pos_part, ltb_ℤ}
use mysqlmonitoring.Series.Sink
use mysqlmonitoring.Series.Ring.{RingBuffer}
use mysqlmonitoring.Series.Sample.{SessionSample, session_sample}
use mysqlmonitoring.Series.Registry.{DigestEntry, Registry, new_registry}
use mysqlmonitoring.Db.{Answer, answered, failed, HealthVitals}
use mysqlmonitoring.Collector.Digest
use mysqlmonitoring.Collector.Digest.{DigestCollector, DigestRow, new_digest_collector}
use mysqlmonitoring.Collector.Waits
use mysqlmonitoring.Collector.Waits.{
  WaitCollector, WaitRow, WaitSeries, plus, new_wait_series, new_wait_collector,
}
use mysqlmonitoring.Collector.Cpu
use mysqlmonitoring.Collector.Cpu.{CpuSampler, new_cpu_sampler}
use mysqlmonitoring.Collector.AppTag.{CurrentStmt}
use mysqlmonitoring.Collector.Health
use mysqlmonitoring.Collector.Health.{HealthCollector, HealthSource, new_health_collector}

pub record Config : Type 0 where
  pub poll_interval : ℤ
  pub cpu_sample_interval : ℤ
  pub health_interval : ℤ
  pub window : ℤ
  pub max_digests : ℤ
  pub session_capacity : ℤ
  pub new_digest_protection : ℤ

-- time.Second in nanoseconds.
abbrev pub second : ℕ
second = 1000000000

abbrev pub default_config : Config
default_config = record {
  poll_interval = pos (10 * second);
  cpu_sample_interval = pos second;
  health_interval = pos (5 * second);
  window = pos (3600 * second);
  max_digests = pos 2000;
  session_capacity = pos 8192;
  new_digest_protection = pos (30 * second);
}

-- if x <= 0 { x = y }
abbrev pub or_default : ℤ → ℤ → ℤ
or_default x y = if ltb_ℤ (pos 0) x then x else y

-- The guards at the start of New.
abbrev pub with_defaults : Config → Config
with_defaults cfg = record cfg {
  poll_interval = or_default cfg.poll_interval default_config.poll_interval;
  cpu_sample_interval = or_default cfg.cpu_sample_interval default_config.cpu_sample_interval;
  health_interval = or_default cfg.health_interval default_config.health_interval;
  window = or_default cfg.window default_config.window;
  session_capacity = or_default cfg.session_capacity default_config.session_capacity;
}

-- sampleCap, for a configuration with its defaults: both durations are positive.
pub sample_cap : Config → ℕ
sample_cap cfg =
    let n = pos_part cfg.window / pos_part cfg.poll_interval + 1 in if ltb n 8 then 8 else n

pub record PerfCapabilities : Type 0 where
  pub digest_available : Bool
  pub waits_available : Bool
  pub history_long_available : Bool
  pub connect_attrs_available : Bool
  pub mdl_available : Bool
  pub warnings : List Str

abbrev pub no_capabilities : PerfCapabilities
no_capabilities = record {
  digest_available = false;
  waits_available = false;
  history_long_available = false;
  connect_attrs_available = false;
  mdl_available = false;
  warnings = [];
}

pub record ErrorCounts : Type 0 where
  pub digest : ℕ
  pub wait : ℕ
  pub cpu : ℕ
  pub health : ℕ
  pub cloud_watch : ℕ

-- The registry is that of `digest`, the session sink that of `cpu`. The wait collector and the CPU
-- sampler hold a pointer to one WaitSeries: a step of either sets the field `series` of both.
pub record Insights : Type 0 where
  pub cfg : Config
  pub health : HealthCollector
  pub digest : DigestCollector
  pub waits : WaitCollector
  pub cpu : CpuSampler
  pub caps : PerfCapabilities
  pub probed : Bool
  pub errors : ErrorCounts

abbrev pub no_errors : ErrorCounts
no_errors = record { digest = 0; wait = 0; cpu = 0; health = 0; cloud_watch = 0 }

-- New, at the time `now`.
pub new_insights : Config → ℕ → Insights
new_insights cfg0 now =
    let cfg = with_defaults cfg0 in
    let registry = new_registry (record {
      max_digests = cfg.max_digests;
      sample_capacity = pos (sample_cap cfg);
      new_digest_protection = cfg.new_digest_protection;
    }) in
    let series = new_wait_series (pos (sample_cap cfg)) in
    let sessions = Sink.new_ring_sink cfg.session_capacity in
    record {
      cfg = cfg;
      health = new_health_collector;
      digest = new_digest_collector registry;
      waits = new_wait_collector series;
      cpu = new_cpu_sampler series (some sessions) now;
      caps = no_capabilities;
      probed = false;
      errors = no_errors;
    }

-- Probe: the warnings it writes, or its error.
pub probe : Insights → Answer PerfCapabilities → Insights × Answer (List Str)
probe i (failed e) = if i.probed then (i, answered []) else (i, failed e)
probe i (answered caps) =
    if i.probed
    then (i, answered [])
    else (record i { caps = caps; probed = true }, answered caps.warnings)

-- One turn of a loop of Run: what the database answers at that time. `cpu_flush` makes no call.
pub data Event : Type 0 where
  digest_tick : ℕ → Answer (List DigestRow) → Event
  wait_tick : ℕ → Answer (List WaitRow) → Event
  cpu_tick : ℕ → Answer (List CurrentStmt) → Event
  cpu_flush : ℕ → Event
  health_tick : HealthSource → Event

-- bumpErr on each of the counters.
abbrev pub bump : ℕ → Option Str → ℕ
bump n none = n
bump n (some e) = plus n 1

pub wait_step : Insights → ℕ → Answer (List WaitRow) → Insights
wait_step i now (failed e) = record i { errors = record i.errors { wait = plus i.errors.wait 1 } }
wait_step i now (answered rows) =
    let waits = (Waits.poll i.waits now rows).0 in
    record i { waits = waits; cpu = record i.cpu { series = waits.series } }

pub cpu_step : Insights → CpuSampler × Option Str → Insights
cpu_step i (cpu, error) = record i {
  cpu = cpu;
  errors = record i.errors { cpu = bump i.errors.cpu error };
}

pub flush_step : Insights → ℕ → Insights
flush_step i now =
    let cpu = Cpu.flush i.cpu now in
    record i { cpu = cpu; waits = record i.waits { series = cpu.series } }

pub health_step : Insights → HealthCollector × Answer HealthVitals → Insights
health_step i (health, answered v) = record i { health = health }
health_step i (health, failed e) = record i {
  health = health;
  errors = record i.errors { health = plus i.errors.health 1 };
}

module _ (order : Registry → List DigestEntry) (unescape : Str → Option Str) where
  pub digest_step : Insights → ℕ → Answer (List DigestRow) → Insights
  digest_step i now (failed e) = record i {
    errors = record i.errors { digest = plus i.errors.digest 1 };
  }
  digest_step i now (answered rows) = record i { digest = (Digest.poll order i.digest now rows).0 }

  -- A step of one of the loops; none is the panic of ParseSQLComment, which ends the program.
  pub step : Insights → Event → Option Insights
  step i (digest_tick now answer) = some (digest_step i now answer)
  step i (wait_tick now answer) = some (wait_step i now answer)
  step i (cpu_tick now answer) = elim (Cpu.sample unescape i.cpu now answer) [
    | none ↦ none
    | some r ↦ some (cpu_step i r)
  ]
  step i (cpu_flush now) = some (flush_step i now)
  step i (health_tick source) = some (health_step i (Health.poll i.health source))

  pub run : Insights → List Event → Option Insights
  run i [] = some i
  run i (e ∷ es) = elim (step i e) [ none ↦ none | some i' ↦ run i' es ]
