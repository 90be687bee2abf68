-- ===== src/Collector/Waits.antt =====
-- internal/collector/classify.go and waits.go: wait events by class, and the deltas of their
-- counters between two polls, added up per class. A map is a function to Option, or an association
-- list where it is only keyed by name. Counters are uint64, so sums and differences wrap.
pub mod Buckets
pub mod Polls
mod Tests
use mysqlmonitoring.Prelude.{
  ℕ, ◌+◌, ◌%◌, ◌^◌, Bool, true, false, ◌&&◌, ◌||◌, Option, none, some, List, [], ◌∷◌, length, ltb,
  ◌==◌, if◌then◌else◌, Str, codes, str_eq, has_prefix,
}
use mysqlmonitoring.Prelude.Int.{ℤ}
use mysqlmonitoring.Series.Ring.{RingBuffer}
use mysqlmonitoring.Series.Sink
use mysqlmonitoring.Series.Sample.{
  WaitClass, other_class, cpu_class, io_class, lock_class, sync_class, network_class,
  all_wait_classes, WaitSample, wait_sample,
}
use mysqlmonitoring.Collector.Digest.{minus, interval_since, is_first}

-- ClassifyWaitEvent
pub classify_wait_event : Str → WaitClass
classify_wait_event name =
    if has_prefix name (codes "wait/io/socket/")
    then network_class
    else if has_prefix name (codes "wait/io/file/") || has_prefix name (codes "wait/io/table/")
    then io_class
    else if has_prefix name (codes "wait/lock/")
    then lock_class
    else if has_prefix name (codes "wait/synch/mutex/")
        || has_prefix name (codes "wait/synch/rwlock/")
        || has_prefix name (codes "wait/synch/cond/")
        || has_prefix name (codes "wait/synch/sxlock/")
    then sync_class
    else other_class

-- `==` on classes.
pub class_eq : WaitClass → WaitClass → Bool
class_eq other_class other_class = true
class_eq cpu_class cpu_class = true
class_eq io_class io_class = true
class_eq lock_class lock_class = true
class_eq sync_class sync_class = true
class_eq network_class network_class = true
class_eq _ _ = false

pub record WaitRow : Type 0 where
  pub event_name : Str
  pub count_star : ℕ
  pub sum_timer_wait : ℕ

-- The map from classes to sinks.
pub record WaitSeries : Type 0 where
  pub sinks : WaitClass → Option (RingBuffer WaitSample)

pub set_sink :
    WaitClass
    → RingBuffer WaitSample
    → (WaitClass → Option (RingBuffer WaitSample))
    → WaitClass
    → Option (RingBuffer WaitSample)
set_sink c sink sinks = λ d. if class_eq c d then some sink else sinks d

pub make_sinks :
    ℤ
    → List WaitClass
    → (WaitClass → Option (RingBuffer WaitSample))
    → WaitClass
    → Option (RingBuffer WaitSample)
make_sinks capacity [] sinks = sinks
make_sinks capacity (c ∷ cs) sinks =
    make_sinks capacity cs (set_sink c (Sink.new_ring_sink capacity) sinks)

pub new_wait_series : ℤ → WaitSeries
new_wait_series capacity = record { sinks = make_sinks capacity all_wait_classes (λ c. none) }

-- WaitSeries.Sink
pub sink_of : WaitSeries → WaitClass → Option (RingBuffer WaitSample)
sink_of w c = w.sinks c

-- The sinks are shared by pointer: an append to one is an update of the map's value.
pub append : WaitSeries → WaitSample → WaitSeries
append w s = elim (w.sinks s.wait_class) [
  | none ↦ w
  | some sink ↦ record { sinks = set_sink s.wait_class (Sink.append sink s) w.sinks }
]

pub record WaitBaseline : Type 0 where
  pub count : ℕ
  pub time_wait : ℕ

pub record WaitPollResult : Type 0 where
  pub time : ℕ
  pub interval : ℤ
  pub events_seen : ℕ
  pub reset_skips : ℕ
  pub new_baselines : ℕ
  pub emitted : ℕ

abbrev pub Baselines : Type 0
Baselines = List (Str × WaitBaseline)

-- `last_poll` is none for the zero time.
pub record WaitCollector : Type 0 where
  pub series : WaitSeries
  pub baselines : Baselines
  pub last_poll : Option ℕ

abbrev pub new_wait_collector : WaitSeries → WaitCollector
new_wait_collector w = record { series = w; baselines = []; last_poll = none }

pub find : Str → Baselines → Option WaitBaseline
find k [] = none
find k ((j, b) ∷ bs) = if str_eq j k then some b else find k bs

pub store : Str → WaitBaseline → Baselines → Baselines
store k b [] = (k, b) ∷ []
store k b ((j, c) ∷ bs) = if str_eq j k then (j, b) ∷ bs else (j, c) ∷ store k b bs

-- a + b on uint64
abbrev pub plus : ℕ → ℕ → ℕ
plus a b = (a + b) % 2 ^ 64

pub record Bucket : Type 0 where
  pub count : ℕ
  pub time_wait : ℕ

-- The buckets of a poll: one for each class but CPU, all zero at first.
abbrev pub Buckets : Type 0
Buckets = WaitClass → Bucket

abbrev pub no_buckets : Buckets
no_buckets c = record { count = 0; time_wait = 0 }

abbrev pub baseline_of : WaitRow → WaitBaseline
baseline_of r = record { count = r.count_star; time_wait = r.sum_timer_wait }

-- The class of a row's bucket, CPU being replaced.
pub bucket_class : Str → WaitClass
bucket_class name =
    let cls = classify_wait_event name in if class_eq cls cpu_class then other_class else cls

pub add_delta : WaitClass → WaitBaseline → WaitBaseline → Buckets → Buckets
add_delta cls prev next buckets = λ d.
    if class_eq cls d
    then record {
      count = plus (buckets d).count (minus next.count prev.count);
      time_wait = plus (buckets d).time_wait (minus next.time_wait prev.time_wait);
    }
    else buckets d

pub is_reset : WaitBaseline → WaitBaseline → Bool
is_reset prev next = ltb next.count prev.count || ltb next.time_wait prev.time_wait

-- What the loop over the rows writes.
pub record Pass : Type 0 where
  pub baselines : Baselines
  pub buckets : Buckets
  pub reset_skips : ℕ
  pub new_baselines : ℕ

-- The switch of the loop and the buckets behind it, before the write to the baselines that ends
-- each of its cases.
pub switch : Bool → WaitRow → Option WaitBaseline → Pass → Pass
switch first r none p = record p { new_baselines = p.new_baselines + 1 }
switch first r (some prev) p =
    if first
    then record p { new_baselines = p.new_baselines + 1 }
    else if is_reset prev (baseline_of r)
    then record p { reset_skips = p.reset_skips + 1 }
    else record p { buckets = add_delta (bucket_class r.event_name) prev (baseline_of r) p.buckets }

pub visit : Bool → WaitRow → Pass → Pass
visit first r p =
    let p' = switch first r (find r.event_name p.baselines) p in
    record p' { baselines = store r.event_name (baseline_of r) p'.baselines }

pub visit_all : Bool → List WaitRow → Pass → Pass
visit_all first [] p = p
visit_all first (r ∷ rs) p = visit_all first rs (visit first r p)

pub sample_of : ℕ → ℤ → WaitClass → Bucket → WaitSample
sample_of now interval cls b = record {
  time = now;
  interval = interval;
  wait_class = cls;
  count_delta = b.count;
  sum_timer_wait_delta = b.time_wait;
  cpu_observations = 0;
  cpu_ticks = 0;
}

-- Whether the last loop passes over a class.
pub skips : Buckets → WaitClass → Bool
skips buckets cls =
    class_eq cls cpu_class || ((buckets cls).count == 0 && (buckets cls).time_wait == 0)

-- The last loop: the series and the count of samples.
pub emit_all : ℕ → ℤ → Buckets → List WaitClass → WaitSeries × ℕ → WaitSeries × ℕ
emit_all now interval buckets [] out = out
emit_all now interval buckets (cls ∷ classes) out =
    let sample = sample_of now interval cls (buckets cls) in
    let out' = if skips buckets cls then out else (append out.0 sample, out.1 + 1) in
    emit_all now interval buckets classes out'

abbrev pub start : Baselines → Pass
start bs = record { baselines = bs; buckets = no_buckets; reset_skips = 0; new_baselines = 0 }

-- Poll, once WaitStats has returned its rows; when that call fails the collector is as before.
pub poll : WaitCollector → ℕ → List WaitRow → WaitCollector × WaitPollResult
poll c now rows =
    let first = is_first c.last_poll in
    let interval = interval_since now c.last_poll in
    let p = visit_all first rows (start c.baselines) in
    let out =
      if first
      then (c.series, 0)
      else emit_all now interval p.buckets all_wait_classes (c.series, 0) in
    (
      record { series = out.0; baselines = p.baselines; last_poll = some now },
      record {
        time = now;
        interval = interval;
        events_seen = length rows;
        reset_skips = p.reset_skips;
        new_baselines = p.new_baselines;
        emitted = out.1;
      },
    )
