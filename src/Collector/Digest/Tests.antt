-- ===== src/Collector/Digest/Tests.antt =====
-- Runs of the digest collector.
use mysqlmonitoring.Prelude.{
  ℕ, ◌-◌, ◌*◌, ◌<◌, ◌^◌, ◌≡◌, refl, inr, false, none, List, [], ◌∷◌, codes, arith,
}
use mysqlmonitoring.Prelude.Int.{pos}
use mysqlmonitoring.Series.Registry.{DigestEntry, Registry, new_registry}
use mysqlmonitoring.Collector.Digest.{
  DigestRow, DigestBaseline, DigestCollector, new_digest_collector, row_key, find, is_counter_reset,
  minus, sample_of, poll,
}
use mysqlmonitoring.Collector.Digest.Deltas.{IsUint64, IsGrowth, sample_of-IsGrowth}
use mysqlmonitoring.Collector.Digest.Polls.{IsFresh, last_of, find-poll}

abbrev baseline : ℕ → ℕ → DigestBaseline
baseline n unindexed = record {
  count_star = n;
  sum_timer_wait = 10 * n;
  sum_lock_time = n;
  sum_rows_examined = n;
  sum_rows_sent = n;
  sum_no_index_used = unindexed;
  sum_created_tmp_disk_tables = 0;
  sum_sort_merge_passes = 0;
  poll_time = 0;
}

baseline-IsUint64 :
    (n unindexed : ℕ) → n < 1000 → unindexed < 1000 → IsUint64 (baseline n unindexed)
baseline-IsUint64 n unindexed h k = record {
  count_star = omega arith;
  sum_timer_wait = omega arith;
  sum_lock_time = omega arith;
  sum_rows_examined = omega arith;
  sum_rows_sent = omega arith;
  sum_no_index_used = omega arith;
  sum_created_tmp_disk_tables = omega arith;
  sum_sort_merge_passes = omega arith;
}

sample_of-IsGrowth_example :
    IsGrowth (baseline 3 2) (baseline 5 2) (sample_of 60 (pos 10) (baseline 3 2) (baseline 5 2))
unfolding is_counter_reset
sample_of-IsGrowth_example =
    sample_of-IsGrowth 60 (pos 10) (baseline 3 2) (baseline 5 2)
      (baseline-IsUint64 3 2 (omega arith) (omega arith))
      (baseline-IsUint64 5 2 (omega arith) (omega arith)) refl

-- One counter that isCounterReset leaves out goes back from 2 to 1: the row passes, and the delta
-- of this counter is 2^64 - 1.
untested_counter :
    (is_counter_reset (baseline 3 2) (baseline 5 1) ≡ false)
    × ((sample_of 60 (pos 10) (baseline 3 2) (baseline 5 1)).sum_no_index_used_delta ≡ 2 ^ 64 - 1)
unfolding is_counter_reset sample_of minus
untested_counter = (refl, refl)

abbrev row : ℕ → DigestRow
row n = record {
  schema = codes "shop";
  digest = codes "d1";
  digest_text = codes "SELECT 1";
  count_star = n;
  sum_timer_wait = 10 * n;
  sum_lock_time = n;
  sum_rows_examined = n;
  sum_rows_sent = n;
  sum_no_index_used = 0;
  sum_created_tmp_disk_tables = 0;
  sum_sort_merge_passes = 0;
}

abbrev registry : Registry
registry =
    new_registry
      (record { max_digests = pos 2; sample_capacity = pos 2; new_digest_protection = pos 5 })

abbrev order : Registry → List DigestEntry
order r = r.entries

abbrev collector : DigestCollector
collector = (poll order (new_digest_collector registry) 10 (row 3 ∷ [])).0

collector-IsFresh : IsFresh collector
collector-IsFresh =
    (find-poll order (new_digest_collector registry) 10 (row 3 ∷ []) (row_key (row 3)) (inr refl)).1

find-poll_example :
    (find (row_key (row 5)) (poll order collector 20 (row 5 ∷ [])).0.baselines
      ≡ last_of 20 (row_key (row 5)) (row 5 ∷ []) none)
    × IsFresh (poll order collector 20 (row 5 ∷ [])).0
find-poll_example = find-poll order collector 20 (row 5 ∷ []) (row_key (row 5)) collector-IsFresh
