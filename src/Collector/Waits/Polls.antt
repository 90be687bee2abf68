-- ===== src/Collector/Waits/Polls.antt =====
-- waits.go: what a poll leaves in the sinks of the classes.
use mysqlmonitoring.Prelude.{
  ℕ, ◌+◌, ◌&&◌, ◌==◌, ◌≡◌, ◌∙◌, ap, subst, sym, refl, Bool, true, false, ◌||◌, Option, none, some,
  List, [], ◌∷◌, arith, Bool-cases, Option-cases, ◌↔◌, inl, inr, if◌then◌else◌,
}
use mysqlmonitoring.Prelude.Int.{ℤ, pos, ◌-ℤ◌}
use mysqlmonitoring.Series.Ring.{RingBuffer}
use mysqlmonitoring.Series.Sink
use mysqlmonitoring.Series.Sample.{
  WaitClass, other_class, cpu_class, io_class, lock_class, sync_class, network_class, WaitSample,
  wait_sample, all_wait_classes,
}
use mysqlmonitoring.Collector.Digest.{interval_since, is_first}
use mysqlmonitoring.Collector.Waits.{
  WaitRow, WaitSeries, WaitCollector, Buckets, class_eq, set_sink, make_sinks, new_wait_series,
  append, sample_of, skips, emit_all, sink_of, visit_all, start, poll,
}

pub class_eq_iff : (c d : WaitClass) → (class_eq c d ≡ true) ↔ (c ≡ d)
unfolding class_eq
class_eq_iff c d = ground arith

-- The sinks, with a sample appended to the one of its class.
abbrev pub with_sample :
    Option (RingBuffer WaitSample) → WaitSample → Option (RingBuffer WaitSample)
with_sample none s = none
with_sample (some sink) s = some (Sink.append sink s)

pub append-sinks :
    (w : WaitSeries) (s : WaitSample) (d : WaitClass)
    → (append w s).sinks d
      ≡ (if class_eq s.wait_class d then with_sample (w.sinks d) s else w.sinks d)
unfolding append set_sink
append-sinks w s d = elim (Bool-cases (class_eq s.wait_class d)) [
  | inl e ↦
      let same : s.wait_class ≡ d = (class_eq_iff s.wait_class d).0 e in
      elim (Option-cases (w.sinks s.wait_class)) [
        | inl f ↦
            let f' : w.sinks d ≡ none = subst (λ x. w.sinks x ≡ none) same f in
            rw (append, f, e, f') refl
        | inr (sink, f) ↦
            let f' : w.sinks d ≡ some sink = subst (λ x. w.sinks x ≡ some sink) same f in
            rw (append, f, e, f') refl
      ]
  | inr e ↦ elim (Option-cases (w.sinks s.wait_class)) [
    | inl f ↦ rw (append, f, e) refl
    | inr (sink, f) ↦ rw (append, f, e) refl
  ]
]

-- One class of the last loop, seen at the sink of `d`.
abbrev step :
    ℕ
    → ℤ
    → Buckets
    → WaitClass
    → WaitClass
    → Option (RingBuffer WaitSample)
    → Option (RingBuffer WaitSample)
step now interval buckets d cls o =
    if class_eq cls d
    then (if skips buckets cls then o else with_sample o (sample_of now interval cls (buckets cls)))
    else o

abbrev steps :
    ℕ
    → ℤ
    → Buckets
    → WaitClass
    → List WaitClass
    → Option (RingBuffer WaitSample)
    → Option (RingBuffer WaitSample)
steps now interval buckets d [] o = o
steps now interval buckets d (cls ∷ classes) o =
    steps now interval buckets d classes (step now interval buckets d cls o)

pub if_same : {A : Type 0} (b : Bool) (a : A) → (if b then a else a) ≡ a
if_same true a = refl
if_same false a = refl

if_either : {A : Type 0} (b : Bool) (x y : A) → (if b || true then x else y) ≡ x
if_either true x y = refl
if_either false x y = refl

emit_all-sinks :
    (now : ℕ) (interval : ℤ) (buckets : Buckets) (classes : List WaitClass) (out : WaitSeries × ℕ)
    → (d : WaitClass)
    → (emit_all now interval buckets classes out).0.sinks d
      ≡ steps now interval buckets d classes (out.0.sinks d)
unfolding emit_all sample_of
emit_all-sinks now interval buckets [] out d = refl
emit_all-sinks now interval buckets (cls ∷ classes) out d =
    let here = append-sinks out.0 (sample_of now interval cls (buckets cls)) d in
    let rest = emit_all-sinks now interval buckets classes in
    elim (Bool-cases (skips buckets cls)) [
      | inl e ↦
          rw (emit_all, e)
            (rest out d
              ∙ ap (steps now interval buckets d classes)
                  (sym (if_same (class_eq cls d) (out.0.sinks d))))
      | inr e ↦
          rw (emit_all, e)
            (rest (append out.0 (sample_of now interval cls (buckets cls)), out.1 + 1) d
              ∙ ap (steps now interval buckets d classes) here)
    ]

steps_all :
    (now : ℕ) (interval : ℤ) (buckets : Buckets) (d : WaitClass)
    → (o : Option (RingBuffer WaitSample))
    → steps now interval buckets d all_wait_classes o
      ≡ (if skips buckets d then o else with_sample o (sample_of now interval d (buckets d)))
unfolding class_eq
steps_all now interval buckets other_class o = refl
steps_all now interval buckets cpu_class o = refl
steps_all now interval buckets io_class o = refl
steps_all now interval buckets lock_class o = refl
steps_all now interval buckets sync_class o = refl
steps_all now interval buckets network_class o = refl

-- What a poll leaves in the sink of a class, by the bucket of that class.
poll-bucket :
    (c : WaitCollector) (now : ℕ) (rows : List WaitRow) (d : WaitClass)
    → (poll c now rows).0.series.sinks d ≡ (
        let buckets = (visit_all (is_first c.last_poll) rows (start c.baselines)).buckets in
        if is_first c.last_poll || skips buckets d
        then c.series.sinks d
        else with_sample
            (c.series.sinks d)
            (sample_of now (interval_since now c.last_poll) d (buckets d)))
unfolding poll
poll-bucket c now rows d = elim (Bool-cases (is_first c.last_poll)) [
  | inl e ↦ rw (poll, e) refl
  | inr e ↦
      let buckets = (visit_all false rows (start c.baselines)).buckets in
      let sinks =
        emit_all-sinks now (interval_since now c.last_poll) buckets all_wait_classes (c.series, 0)
          d in
      let all = steps_all now (interval_since now c.last_poll) buckets d (c.series.sinks d) in
      rw (poll, e) (sinks ∙ all)
]

-- A sample with these sums.
abbrev pub sums_sample : ℕ → ℤ → WaitClass → ℕ → ℕ → WaitSample
sums_sample now interval cls count time_wait = record {
  time = now;
  interval = interval;
  wait_class = cls;
  count_delta = count;
  sum_timer_wait_delta = time_wait;
  cpu_observations = 0;
  cpu_ticks = 0;
}

-- What a poll does to the sink of a class whose bucket holds `count` and `time_wait`.
abbrev pub polled :
    ℕ
    → Option ℕ
    → WaitClass
    → ℕ
    → ℕ
    → Option (RingBuffer WaitSample)
    → Option (RingBuffer WaitSample)
polled now none d count time_wait sink = sink
polled now (some last) d count time_wait sink =
    if class_eq d cpu_class || (count == 0 && time_wait == 0)
    then sink
    else with_sample sink (sums_sample now (pos now -ℤ pos last) d count time_wait)

-- Every class has a sink in a new series.
pub new_wait_series-some :
    (capacity : ℤ) (d : WaitClass)
    → (sink : RingBuffer WaitSample) × (sink_of (new_wait_series capacity) d ≡ some sink)
unfolding sink_of new_wait_series make_sinks set_sink class_eq
new_wait_series-some capacity other_class = (Sink.new_ring_sink capacity, refl)
new_wait_series-some capacity cpu_class = (Sink.new_ring_sink capacity, refl)
new_wait_series-some capacity io_class = (Sink.new_ring_sink capacity, refl)
new_wait_series-some capacity lock_class = (Sink.new_ring_sink capacity, refl)
new_wait_series-some capacity sync_class = (Sink.new_ring_sink capacity, refl)
new_wait_series-some capacity network_class = (Sink.new_ring_sink capacity, refl)

-- The sink of the CPU class is left to the sampler.
pub poll-cpu_class :
    (c : WaitCollector) (now : ℕ) (rows : List WaitRow)
    → (poll c now rows).0.series.sinks cpu_class ≡ c.series.sinks cpu_class
unfolding skips class_eq
poll-cpu_class c now rows =
    poll-bucket c now rows cpu_class ∙ if_either (is_first c.last_poll) (c.series.sinks cpu_class) _
