-- ===== src/Insights/Engine/Runs.antt =====
-- insights.go: what the loops of Run do to each other's state, whatever the order of their steps.
use mysqlmonitoring.Prelude.{
  ℕ, ◌≡◌, ◌∙◌, ap, sym, subst, refl, Option, none, some, List, [], ◌∷◌, Option-cases, inl, inr,
  if◌then◌else◌, Str, ◌==◌,
}
use mysqlmonitoring.Series.Registry.{DigestEntry, Registry}
use mysqlmonitoring.Series.Sample.{cpu_class, WaitSample}
use mysqlmonitoring.Db.{Answer, answered, failed, HealthVitals}
use mysqlmonitoring.Collector.Waits.{WaitSeries, class_eq}
use mysqlmonitoring.Collector.Waits.Polls.{with_sample, poll-cpu_class}
use mysqlmonitoring.Collector.Cpu.{CpuSampler, sample, flush, flush_sample}
use mysqlmonitoring.Collector.Cpu.Series.{
  put, put_result, sample-put, sample-series, flush-put, flush-sinks,
}
use mysqlmonitoring.Collector.AppTag.{CurrentStmt}
use mysqlmonitoring.Collector.Health
use mysqlmonitoring.Collector.Health.{HealthCollector}
use mysqlmonitoring.Series.Ring.{RingBuffer}
use mysqlmonitoring.Insights.Engine.{
  Config, Insights, Event, new_insights, digest_tick, wait_tick, cpu_tick, cpu_flush, health_tick,
  digest_step, wait_step, cpu_step, flush_step, health_step, step, run,
}

-- The sampler of Insights agrees with one that runs alone, but for the sinks of other classes; the
-- wait collector holds the same series.
abbrev pub Agrees : Insights → CpuSampler → Type 0
Agrees i s =
    (i.cpu ≡ put i.cpu.series s)
    × (i.cpu.series.sinks cpu_class ≡ s.series.sinks cpu_class)
    × (i.waits.series ≡ i.cpu.series)

abbrev pub BothAgree : Option Insights → Option CpuSampler → Type 0
BothAgree none none = Unit {0}
BothAgree none (some s) = ⊥
BothAgree (some i) none = ⊥
BothAgree (some i) (some s) = Agrees i s

module _ (unescape : Str → Option Str) where
  -- The CPU sampler alone: it takes the steps that are its own.
  abbrev pub cpu_alone : CpuSampler → Event → Option CpuSampler
  cpu_alone s (cpu_tick now answer) = elim (sample unescape s now answer) [
    | none ↦ none
    | some r ↦ some r.0
  ]
  cpu_alone s (cpu_flush now) = some (flush s now)
  cpu_alone s _ = some s

  abbrev pub run_alone : CpuSampler → List Event → Option CpuSampler
  run_alone s [] = some s
  run_alone s (e ∷ es) = elim (cpu_alone s e) [ none ↦ none | some s' ↦ run_alone s' es ]

  sample_as :
      (i : Insights) (s : CpuSampler) (now : ℕ) (answer : Answer (List CurrentStmt))
      → Agrees i s
      → sample unescape i.cpu now answer ≡ put_result i.cpu.series (sample unescape s now answer)
  sample_as i s now answer a =
      ap (λ (c : CpuSampler). sample unescape c now answer) a.0
      ∙ sample-put unescape i.cpu.series s now answer

  flush_as :
      (i : Insights) (s : CpuSampler) (now : ℕ)
      → Agrees i s
      → flush i.cpu now ≡ put (flush i.cpu now).series (flush s now)
  flush_as i s now a =
      subst (λ (c : CpuSampler). flush c now ≡ put (flush c now).series (flush s now)) (sym a.0)
        (flush-put i.cpu.series s now)

  flush_cpu :
      (i : Insights) (s : CpuSampler) (now : ℕ)
      → Agrees i s
      → (flush i.cpu now).series.sinks cpu_class ≡ (flush s now).series.sinks cpu_class
  flush_cpu i s now a =
      ap (λ (c : CpuSampler). (flush c now).series.sinks cpu_class) a.0
      ∙ flush-sinks i.cpu.series s now cpu_class
      ∙ ap
          (λ (o : Option (RingBuffer WaitSample)).
            if class_eq cpu_class cpu_class
            then (if s.pending_ticks == 0 then o else with_sample o (flush_sample s now))
            else o)
          a.1
      ∙ sym (flush-sinks s.series s now cpu_class)

  health_step-Agrees :
      (i : Insights) (s : CpuSampler) (r : HealthCollector × Answer HealthVitals)
      → Agrees i s
      → Agrees (health_step i r) s
  unfolding health_step
  health_step-Agrees i s (health, answered v) a = a
  health_step-Agrees i s (health, failed e) a = a

module _ (order : Registry → List DigestEntry) (unescape : Str → Option Str) where
  step-Agrees :
      (i : Insights) (s : CpuSampler) (e : Event)
      → Agrees i s
      → BothAgree (step order unescape i e) (cpu_alone unescape s e)
  unfolding step digest_step wait_step cpu_step flush_step
  step-Agrees i s (digest_tick now (answered rows)) a = a
  step-Agrees i s (digest_tick now (failed e)) a = a
  step-Agrees i s (wait_tick now (answered rows)) a = (
    ap (put _) a.0,
    poll-cpu_class i.waits now rows ∙ ap (λ (w : WaitSeries). w.sinks cpu_class) a.2 ∙ a.1,
    refl,
  )
  step-Agrees i s (wait_tick now (failed e)) a = a
  step-Agrees i s (cpu_tick now answer) a = elim (Option-cases (sample unescape s now answer)) [
    | inl g ↦ rw (step, cpu_alone, sample_as unescape i s now answer a, g) tt
    | inr (r, g) ↦
        rw (step, cpu_alone, sample_as unescape i s now answer a, g)
          (
            refl,
            a.1
                ∙ ap (λ (w : WaitSeries). w.sinks cpu_class)
                    (sym (sample-series unescape s now answer r g)),
            a.2,
          )
  ]
  step-Agrees i s (cpu_flush now) a =
      (flush_as unescape i s now a, flush_cpu unescape i s now a, refl)
  step-Agrees i s (health_tick source) a =
      health_step-Agrees unescape i s (Health.poll i.health source) a

  run-Agrees :
      (i : Insights) (s : CpuSampler) (es : List Event)
      → Agrees i s
      → BothAgree (run order unescape i es) (run_alone unescape s es)
  unfolding run
  run-Agrees i s [] a = a
  run-Agrees i s (e ∷ es) a =
      let one = step-Agrees i s e a in
      elim (Option-cases (step order unescape i e)) [
        | inl g ↦ elim (Option-cases (cpu_alone unescape s e)) [
          | inl h ↦ rw (run, run_alone, g, h) tt
          | inr (s', h) ↦ absurd (rw (g, h) at one)
        ]
        | inr (i', g) ↦ elim (Option-cases (cpu_alone unescape s e)) [
          | inl h ↦ absurd (rw (g, h) at one)
          | inr (s', h) ↦ rw (run, run_alone, g, h) (run-Agrees i' s' es (rw (g, h) at one))
        ]
      ]

  -- In any interleaving of the loops of Run from the state that New makes, the CPU sampler goes
  -- through the states that it would go through alone, and the sink of the CPU class holds what it
  -- would hold; one of the two runs panics exactly if the other does. The wait collector and the
  -- sampler still share their series.
  pub run-new_insights :
      (cfg : Config) (now : ℕ) (es : List Event)
      → BothAgree
          (run order unescape (new_insights cfg now) es)
          (run_alone unescape (new_insights cfg now).cpu es)
  unfolding new_insights
  run-new_insights cfg now es =
      run-Agrees (new_insights cfg now) (new_insights cfg now).cpu es (refl, refl, refl)
