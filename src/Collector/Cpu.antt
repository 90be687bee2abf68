-- ===== src/Collector/Cpu.antt =====
-- internal/collector/cpu.go: the sampler of the CPU class. The session sink may be missing (nil).
-- The sampler and the wait collector share a WaitSeries; here it is the field `series`. A panic of
-- ParseSQLComment is the result none.
pub mod Ticks
pub mod Series
mod Tests
use mysqlmonitoring.Prelude.{
  ℕ, ◌+◌, ◌%◌, ◌^◌, Bool, true, false, ◌||◌, Option, none, some, List, [], ◌∷◌, ◌==◌, if◌then◌else◌,
  Str, codes, str_eq,
}
use mysqlmonitoring.Prelude.Int.{pos, ◌-ℤ◌}
use mysqlmonitoring.Series.Ring.{RingBuffer}
use mysqlmonitoring.Series.Sink
use mysqlmonitoring.Series.Sample.{cpu_class, WaitSample, SessionSample, session_sample}
use mysqlmonitoring.Db.{Answer, answered, failed}
use mysqlmonitoring.Collector.AppTag.{CurrentStmt, resolve_app_tag}
use mysqlmonitoring.Collector.Waits.{WaitSeries, append, plus}

pub record CpuSampler : Type 0 where
  pub series : WaitSeries
  pub session_sink : Option (RingBuffer SessionSample)
  pub pending_obs : ℕ
  pub pending_ticks : ℕ
  pub interval_start : ℕ

abbrev pub new_cpu_sampler : WaitSeries → Option (RingBuffer SessionSample) → ℕ → CpuSampler
new_cpu_sampler waits session_sink interval_start = record {
  series = waits;
  session_sink = session_sink;
  pending_obs = 0;
  pending_ticks = 0;
  interval_start = interval_start;
}

-- isCPUWait
pub is_cpu_wait : Str → Bool
is_cpu_wait event_name = str_eq event_name [] || str_eq event_name (codes "idle")

abbrev pub session_of : ℕ → Str → CurrentStmt → SessionSample
session_of sample_time tag st = record {
  time = sample_time;
  processlist_id = st.processlist_id;
  digest = st.digest;
  schema = st.schema;
  app_tag = tag;
  user = st.user;
  host = st.host;
  event_name = st.current_wait;
  executing = true;
}

-- The observations and the sink that the loop of Sample writes.
abbrev pub Seen : Type 0
Seen = ℕ × Option (RingBuffer SessionSample)

module _ (unescape : Str → Option Str) where
  -- The append to the sink, where there is one.
  pub record_session :
      ℕ
      → CurrentStmt
      → Option (RingBuffer SessionSample)
      → Option (Option (RingBuffer SessionSample))
  record_session sample_time st none = some none
  record_session sample_time st (some sink) = elim (resolve_app_tag unescape st) [
    | none ↦ none
    | some tag ↦ some (some (Sink.append sink (session_of sample_time tag st)))
  ]

  pub visit : ℕ → CurrentStmt → Seen → Option Seen
  visit sample_time st (obs, sink) =
      let obs' = if is_cpu_wait st.current_wait then obs + 1 else obs in
      if st.executing
      then elim (record_session sample_time st sink) [
        | none ↦ none
        | some sink' ↦ some (obs', sink')
      ]
      else some (obs, sink)

  pub visit_all : ℕ → List CurrentStmt → Seen → Option Seen
  visit_all sample_time [] seen = some seen
  visit_all sample_time (st ∷ stmts) seen = elim (visit sample_time st seen) [
    | none ↦ none
    | some seen' ↦ visit_all sample_time stmts seen'
  ]

  -- Sample: the error of CurrentStatements, if any, beside the sampler.
  pub sample : CpuSampler → ℕ → Answer (List CurrentStmt) → Option (CpuSampler × Option Str)
  sample s sample_time (failed e) = some (s, some e)
  sample s sample_time (answered stmts) = elim (visit_all sample_time stmts (0, s.session_sink)) [
    | none ↦ none
    | some seen ↦ some (
      record s {
        session_sink = seen.1;
        pending_obs = plus s.pending_obs seen.0;
        pending_ticks = plus s.pending_ticks 1;
      },
      none,
    )
  ]

pub flush_sample : CpuSampler → ℕ → WaitSample
flush_sample s now = record {
  time = now;
  interval = pos now -ℤ pos s.interval_start;
  wait_class = cpu_class;
  count_delta = 0;
  sum_timer_wait_delta = 0;
  cpu_observations = s.pending_obs;
  cpu_ticks = s.pending_ticks;
}

pub flush : CpuSampler → ℕ → CpuSampler
flush s now = record s {
  series = if s.pending_ticks == 0 then s.series else append s.series (flush_sample s now);
  pending_obs = 0;
  pending_ticks = 0;
  interval_start = now;
}
