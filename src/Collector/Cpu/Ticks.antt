-- ===== src/Collector/Cpu/Ticks.antt =====
-- cpu.go: what the ticks of an interval add up to.
use mysqlmonitoring.Prelude.{
  ℕ, ◌+◌, ◌%◌, ◌^◌, ◌<◌, ◌≡◌, subst, refl, ◌&&◌, Option, none, some, List, [], ◌∷◌, arith,
  Bool-cases, Option-cases, inl, inr, if◌then◌else◌, length, Str, ◌==◌, ◌||◌, Bool, codes, str_eq,
  filter_by,
}
use mysqlmonitoring.Prelude.Int.{pos, ◌-ℤ◌}
use mysqlmonitoring.Series.Sample.{cpu_class}
use mysqlmonitoring.Db.{Answer, answered, failed}
use mysqlmonitoring.Collector.AppTag.{CurrentStmt}
use mysqlmonitoring.Collector.Waits.{WaitSeries, append, plus}
use mysqlmonitoring.Collector.Cpu.{
  CpuSampler, Seen, is_cpu_wait, record_session, visit, visit_all, sample, flush, flush_sample,
}

-- Whether a statement is on CPU: it is executing, and it waits for nothing or is idle.
abbrev pub is_on_cpu : CurrentStmt → Bool
is_on_cpu st = st.executing && (str_eq st.current_wait [] || str_eq st.current_wait (codes "idle"))

-- The statements that a tick counts as on CPU.
abbrev pub on_cpu : List CurrentStmt → List CurrentStmt
on_cpu stmts = filter_by is_on_cpu stmts

-- What holds of the result of the loop, where it does not panic.
abbrev IsCount : ℕ → Option Seen → Type 0
IsCount n none = Unit {0}
IsCount n (some seen) = seen.0 ≡ n

-- One tick: the time of the sample and what CurrentStatements answers.
abbrev pub Tick : Type 0
Tick = ℕ × Answer (List CurrentStmt)

-- The observations of a tick; a failed call is no tick.
abbrev pub observed : List Tick → ℕ
observed [] = 0
observed ((t, failed e) ∷ ticks) = observed ticks
observed ((t, answered stmts) ∷ ticks) = length (on_cpu stmts) + observed ticks

abbrev pub answers : List Tick → ℕ
answers [] = 0
answers ((t, failed e) ∷ ticks) = answers ticks
answers ((t, answered stmts) ∷ ticks) = 1 + answers ticks

module _ (unescape : Str → Option Str) where
  visit_all-IsCount :
      (sample_time : ℕ) (stmts : List CurrentStmt) (seen : Seen) (n : ℕ)
      → n ≡ seen.0 + length (on_cpu stmts)
      → IsCount n (visit_all unescape sample_time stmts seen)
  unfolding visit_all visit record_session is_cpu_wait
  visit_all-IsCount sample_time [] (obs, sink) n e = omega arith
  visit_all-IsCount sample_time (st ∷ stmts) (obs, sink) n e = elim (Bool-cases st.executing) [
    | inl f ↦ elim (Option-cases (record_session unescape sample_time st sink)) [
      | inl g ↦ rw (visit_all, f, g) tt
      | inr (sink', g) ↦
          let rest =
            visit_all-IsCount sample_time stmts
              ((if is_cpu_wait st.current_wait then obs + 1 else obs), sink') n in
          rw (visit_all, f, g) (rest (ground arith))
    ]
    | inr f ↦ rw (visit_all, f) (visit_all-IsCount sample_time stmts (obs, sink) n (ground arith))
  ]

  -- The samples of an interval, one after the other.
  unfoldable pub sample_all : CpuSampler → List Tick → Option CpuSampler
  sample_all s [] = some s
  sample_all s ((t, answer) ∷ ticks) = elim (sample unescape s t answer) [
    | none ↦ none
    | some r ↦ sample_all r.0 ticks
  ]

  abbrev counted_by : CpuSampler → Seen → CpuSampler
  counted_by s seen = record s {
    session_sink = seen.1;
    pending_obs = plus s.pending_obs seen.0;
    pending_ticks = plus s.pending_ticks 1;
  }

  abbrev IsInterval : ℕ → ℕ → WaitSeries → ℕ → Option CpuSampler → Type 0
  IsInterval obs ticks series begun none = Unit {0}
  IsInterval obs ticks series begun (some s) =
      (s.pending_obs ≡ obs % 2 ^ 64)
      × (s.pending_ticks ≡ ticks % 2 ^ 64)
      × (s.series ≡ series)
      × (s.interval_start ≡ begun)

  sample_all-IsInterval :
      (s : CpuSampler) (ticks : List Tick) (obs n : ℕ)
      → s.pending_obs < 2 ^ 64
      → s.pending_ticks < 2 ^ 64
      → obs % 2 ^ 64 ≡ (s.pending_obs + observed ticks) % 2 ^ 64
      → n % 2 ^ 64 ≡ (s.pending_ticks + answers ticks) % 2 ^ 64
      → IsInterval obs n s.series s.interval_start (sample_all s ticks)
  unfolding sample sample_all
  sample_all-IsInterval s [] obs n h k e f = (omega arith, omega arith, refl, refl)
  sample_all-IsInterval s ((t, failed r) ∷ ticks) obs n h k e f =
      sample_all-IsInterval s ticks obs n h k e f
  sample_all-IsInterval s ((t, answered stmts) ∷ ticks) obs n h k e f =
      let count =
        visit_all-IsCount t stmts (0, s.session_sink) (length (on_cpu stmts)) (omega arith) in
      elim (Option-cases (visit_all unescape t stmts (0, s.session_sink))) [
        | inl g ↦ rw (sample_all, sample, g) tt
        | inr (seen, g) ↦
            let counted : seen.0 ≡ length (on_cpu stmts) =
              subst (IsCount (length (on_cpu stmts))) g count in
            rw (sample_all, sample, g)
              (sample_all-IsInterval (counted_by s seen) ticks obs n (omega arith) (omega arith)
                (omega arith) (omega arith))
      ]

  -- An interval, from a sampler without pending ticks: when no call of Sample panics, Flush appends
  -- one CPU sample, which counts, modulo 2^64, the statements on CPU in all answers,
  -- those that are executing and wait for nothing or are idle, and the answers; it appends none when that number of answers is 0. The interval then
  -- begins at the time of the flush, with no pending ticks.
  pub flush-sample_all :
      (s s' : CpuSampler) (ticks : List Tick) (now : ℕ)
      → s.pending_obs ≡ 0
      → s.pending_ticks ≡ 0
      → sample_all s ticks ≡ some s'
      → ((flush s' now).series ≡ (
          if answers ticks % 2 ^ 64 == 0
          then s.series
          else append s.series (record {
            time = now;
            interval = pos now -ℤ pos s.interval_start;
            wait_class = cpu_class;
            count_delta = 0;
            sum_timer_wait_delta = 0;
            cpu_observations = observed ticks % 2 ^ 64;
            cpu_ticks = answers ticks % 2 ^ 64;
          })))
        × ((flush s' now).pending_obs ≡ 0)
        × ((flush s' now).pending_ticks ≡ 0)
        × ((flush s' now).interval_start ≡ now)
  unfolding flush flush_sample
  flush-sample_all s s' ticks now h k e =
      let held : IsInterval (observed ticks) (answers ticks) s.series s.interval_start (some s') =
        subst (IsInterval (observed ticks) (answers ticks) s.series s.interval_start) e (
          sample_all-IsInterval s ticks (observed ticks) (answers ticks) (omega arith) (omega arith)
            (omega arith) (omega arith)) in
      (rw (flush, held.0, held.1, held.2, held.3) refl, refl, refl, refl)
