-- ===== src/Collector/Cpu/Series.antt =====
-- cpu.go: the sampler only ever appends to its series; nothing else of it depends on what that holds.
use mysqlmonitoring.Prelude.{
  ℕ, ◌≡◌, sym, subst, refl, Option, none, some, List, Bool-cases, Option-cases, inl, inr,
  if◌then◌else◌, Str, ◌==◌,
}
use mysqlmonitoring.Series.Sample.{WaitClass, cpu_class}
use mysqlmonitoring.Db.{Answer, answered, failed}
use mysqlmonitoring.Collector.AppTag.{CurrentStmt}
use mysqlmonitoring.Collector.Waits.{WaitSeries, class_eq}
use mysqlmonitoring.Collector.Waits.Polls.{with_sample, append-sinks, if_same}
use mysqlmonitoring.Collector.Cpu.{CpuSampler, visit_all, sample, flush, flush_sample}

-- The same sampler over another series.
abbrev pub put : WaitSeries → CpuSampler → CpuSampler
put w s = record s { series = w }

abbrev pub put_result :
    WaitSeries → Option (CpuSampler × Option Str) → Option (CpuSampler × Option Str)
put_result w none = none
put_result w (some r) = some (put w r.0, r.1)

pub sample-put :
    (unescape : Str → Option Str) (w : WaitSeries) (s : CpuSampler) (t : ℕ)
    → (a : Answer (List CurrentStmt))
    → sample unescape (put w s) t a ≡ put_result w (sample unescape s t a)
unfolding sample
sample-put unescape w s t (failed e) = refl
sample-put unescape w s t (answered stmts) =
    elim (Option-cases (visit_all unescape t stmts (0, s.session_sink))) [
      | inl g ↦ rw (sample, g) refl
      | inr (seen, g) ↦ rw (sample, g) refl
    ]

abbrev HasSeries : WaitSeries → Option (CpuSampler × Option Str) → Type 0
HasSeries w none = Unit {0}
HasSeries w (some r) = r.0.series ≡ w

sample-HasSeries :
    (unescape : Str → Option Str) (s : CpuSampler) (t : ℕ) (a : Answer (List CurrentStmt))
    → HasSeries s.series (sample unescape s t a)
unfolding sample
sample-HasSeries unescape s t (failed e) = refl
sample-HasSeries unescape s t (answered stmts) =
    elim (Option-cases (visit_all unescape t stmts (0, s.session_sink))) [
      | inl g ↦ rw (sample, g) tt
      | inr (seen, g) ↦ rw (sample, g) refl
    ]

-- A tick does not write to the series.
pub sample-series :
    (unescape : Str → Option Str) (s : CpuSampler) (t : ℕ) (a : Answer (List CurrentStmt))
    → (r : CpuSampler × Option Str) → sample unescape s t a ≡ some r
    → r.0.series ≡ s.series
sample-series unescape s t a r h = subst (HasSeries s.series) h (sample-HasSeries unescape s t a)

pub flush-put :
    (w : WaitSeries) (s : CpuSampler) (now : ℕ)
    → flush (put w s) now ≡ put (flush (put w s) now).series (flush s now)
unfolding flush flush_sample
flush-put w s now = refl

-- A flush appends to the sink of the CPU class only, and the same whatever the other sinks hold.
pub flush-sinks :
    (w : WaitSeries) (s : CpuSampler) (now : ℕ) (d : WaitClass)
    → (flush (put w s) now).series.sinks d ≡ (
        if class_eq cpu_class d
        then (if s.pending_ticks == 0
            then w.sinks d
            else with_sample (w.sinks d) (flush_sample s now))
        else w.sinks d)
unfolding flush flush_sample
flush-sinks w s now d = elim (Bool-cases (s.pending_ticks == 0)) [
  | inl e ↦ rw (flush, e) (sym (if_same (class_eq cpu_class d) (w.sinks d)))
  | inr e ↦ rw (flush, e) (append-sinks w (flush_sample s now) d)
]
