-- ===== src/Collector/Digest.antt =====
-- internal/collector/digest.go: the deltas between two polls of the digest table. Counters are
-- uint64, so a subtraction wraps. The registry iterates over its map when it evicts, in an order
-- that Go does not fix: `order` gives it for each state of the registry.
pub mod Deltas
pub mod Polls
mod Tests
use mysqlmonitoring.Prelude.{
  ℕ, ◌+◌, ◌-◌, ◌%◌, ◌^◌, Bool, true, false, not, ◌||◌, Option, none, some, List, [], ◌∷◌, length,
  filter_by, any_of, ltb, if◌then◌else◌, Str,
}
use mysqlmonitoring.Prelude.Int.{ℤ, pos, ◌-ℤ◌}
use mysqlmonitoring.Series.Sample.{DigestKey, key_eq, DigestSample}
use mysqlmonitoring.Series.Registry.{DigestEntry, Registry}
use mysqlmonitoring.Series.Registry

pub record DigestRow : Type 0 where
  pub schema : Str
  pub digest : Str
  pub digest_text : Str
  pub count_star : ℕ
  pub sum_timer_wait : ℕ
  pub sum_lock_time : ℕ
  pub sum_rows_examined : ℕ
  pub sum_rows_sent : ℕ
  pub sum_no_index_used : ℕ
  pub sum_created_tmp_disk_tables : ℕ
  pub sum_sort_merge_passes : ℕ

pub record DigestBaseline : Type 0 where
  pub count_star : ℕ
  pub sum_timer_wait : ℕ
  pub sum_lock_time : ℕ
  pub sum_rows_examined : ℕ
  pub sum_rows_sent : ℕ
  pub sum_no_index_used : ℕ
  pub sum_created_tmp_disk_tables : ℕ
  pub sum_sort_merge_passes : ℕ
  pub poll_time : ℕ

pub record PollResult : Type 0 where
  pub time : ℕ
  pub interval : ℤ
  pub seen_digests : ℕ
  pub emitted_samples : ℕ
  pub reset_skips : ℕ
  pub baseline_seeded : ℕ

abbrev pub Baselines : Type 0
Baselines = List (DigestKey × DigestBaseline)

-- `last_poll` is none for the zero time of a collector that has not polled.
pub record DigestCollector : Type 0 where
  pub registry : Registry
  pub baselines : Baselines
  pub last_poll : Option ℕ

abbrev pub new_digest_collector : Registry → DigestCollector
new_digest_collector r = record { registry = r; baselines = []; last_poll = none }

abbrev pub row_key : DigestRow → DigestKey
row_key r = record { schema = r.schema; digest = r.digest }

-- c.baselines[key], read and written.
pub find : DigestKey → Baselines → Option DigestBaseline
find k [] = none
find k ((j, b) ∷ bs) = if key_eq j k then some b else find k bs

pub store : DigestKey → DigestBaseline → Baselines → Baselines
store k b [] = (k, b) ∷ []
store k b ((j, c) ∷ bs) = if key_eq j k then (j, b) ∷ bs else (j, c) ∷ store k b bs

pub baseline_of : ℕ → DigestRow → DigestBaseline
baseline_of now r = record {
  count_star = r.count_star;
  sum_timer_wait = r.sum_timer_wait;
  sum_lock_time = r.sum_lock_time;
  sum_rows_examined = r.sum_rows_examined;
  sum_rows_sent = r.sum_rows_sent;
  sum_no_index_used = r.sum_no_index_used;
  sum_created_tmp_disk_tables = r.sum_created_tmp_disk_tables;
  sum_sort_merge_passes = r.sum_sort_merge_passes;
  poll_time = now;
}

-- isCounterReset
pub is_counter_reset : DigestBaseline → DigestBaseline → Bool
is_counter_reset prev next =
    ltb next.count_star prev.count_star
    || ltb next.sum_timer_wait prev.sum_timer_wait
    || ltb next.sum_rows_examined prev.sum_rows_examined
    || ltb next.sum_rows_sent prev.sum_rows_sent
    || ltb next.sum_lock_time prev.sum_lock_time

-- a - b on uint64
pub minus : ℕ → ℕ → ℕ
minus a b = (a + 2 ^ 64 - b) % 2 ^ 64

-- The sample of the default case.
pub sample_of : ℕ → ℤ → DigestBaseline → DigestBaseline → DigestSample
sample_of now interval prev next = record {
  time = now;
  interval = interval;
  exec_count_delta = minus next.count_star prev.count_star;
  sum_timer_wait_delta = minus next.sum_timer_wait prev.sum_timer_wait;
  sum_lock_time_delta = minus next.sum_lock_time prev.sum_lock_time;
  sum_rows_examined_delta = minus next.sum_rows_examined prev.sum_rows_examined;
  sum_rows_sent_delta = minus next.sum_rows_sent prev.sum_rows_sent;
  sum_no_index_used_delta = minus next.sum_no_index_used prev.sum_no_index_used;
  sum_created_tmp_disk_tables_delta =
      minus next.sum_created_tmp_disk_tables prev.sum_created_tmp_disk_tables;
  sum_sort_merge_passes_delta = minus next.sum_sort_merge_passes prev.sum_sort_merge_passes;
}

-- The registry, the baselines and the counts that the loop of Poll writes.
pub record Pass : Type 0 where
  pub registry : Registry
  pub baselines : Baselines
  pub emitted_samples : ℕ
  pub reset_skips : ℕ
  pub baseline_seeded : ℕ

-- The default case: a sample is emitted unless the digest was idle.
pub emit : List DigestEntry → ℕ → ℤ → DigestRow → DigestBaseline → Pass → Pass
emit order now interval r prev p =
    let sample = sample_of now interval prev (baseline_of now r) in
    if ltb 0 sample.exec_count_delta || ltb 0 sample.sum_timer_wait_delta
    then record p {
      registry = Registry.append order p.registry (row_key r) r.digest_text sample;
      emitted_samples = p.emitted_samples + 1;
    }
    else p

pub seed : List DigestEntry → ℕ → DigestRow → Pass → Pass
seed order now r p = record p {
  registry = Registry.touch order p.registry now (row_key r) r.digest_text;
  baseline_seeded = p.baseline_seeded + 1;
}

-- The switch of the loop, before the write to the baselines that ends each of its cases.
pub switch : List DigestEntry → Bool → ℕ → ℤ → DigestRow → Option DigestBaseline → Pass → Pass
switch order first now interval r none p = seed order now r p
switch order first now interval r (some prev) p =
    if first
    then seed order now r p
    else if is_counter_reset prev (baseline_of now r)
    then record p { reset_skips = p.reset_skips + 1 }
    else emit order now interval r prev p

pub visit : (Registry → List DigestEntry) → Bool → ℕ → ℤ → DigestRow → Pass → Pass
visit order first now interval r p =
    let p' = switch (order p.registry) first now interval r (find (row_key r) p.baselines) p in
    record p' { baselines = store (row_key r) (baseline_of now r) p'.baselines }

pub visit_all : (Registry → List DigestEntry) → Bool → ℕ → ℤ → List DigestRow → Pass → Pass
visit_all order first now interval [] p = p
visit_all order first now interval (r ∷ rs) p =
    visit_all order first now interval rs (visit order first now interval r p)

-- The loop that drops the baselines of the digests that are not reported any more.
pub drop_unseen : List DigestRow → Baselines → Baselines
drop_unseen rows bs = filter_by (λ x. any_of (λ r. key_eq (row_key r) x.0) rows) bs

-- now.Sub(prevPoll). From the zero time it is the greatest Duration, which Sub stops at.
abbrev pub interval_since : ℕ → Option ℕ → ℤ
interval_since now none = pos (2 ^ 63 - 1)
interval_since now (some prev) = pos now -ℤ pos prev

abbrev pub is_first : Option ℕ → Bool
is_first none = true
is_first (some prev) = false

abbrev pub start : DigestCollector → Pass
start c = record {
  registry = c.registry;
  baselines = c.baselines;
  emitted_samples = 0;
  reset_skips = 0;
  baseline_seeded = 0;
}

-- Poll, once DigestStats has returned its rows; when that call fails the collector is as before.
pub poll :
    (Registry → List DigestEntry)
    → DigestCollector
    → ℕ
    → List DigestRow
    → DigestCollector × PollResult
poll order c now rows =
    let first = is_first c.last_poll in
    let interval = interval_since now c.last_poll in
    let p = visit_all order first now interval rows (start c) in
    (
      record {
        registry = p.registry;
        baselines = if first then p.baselines else drop_unseen rows p.baselines;
        last_poll = some now;
      },
      record {
        time = now;
        interval = interval;
        seen_digests = length rows;
        emitted_samples = p.emitted_samples;
        reset_skips = p.reset_skips;
        baseline_seeded = p.baseline_seeded;
      },
    )
