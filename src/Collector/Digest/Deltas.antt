-- ===== src/Collector/Digest/Deltas.antt =====
-- digest.go: what the deltas of a sample say of two baselines.
use mysqlmonitoring.Prelude.{ℕ, ◌+◌, ◌%◌, ◌^◌, ◌<◌, ◌≡◌, false, ltb, arith}
use mysqlmonitoring.Prelude.Int.{ℤ}
use mysqlmonitoring.Series.Sample.{DigestSample}
use mysqlmonitoring.Collector.Digest.{DigestBaseline, is_counter_reset, minus, sample_of}

-- Every counter is a uint64.
pub record IsUint64 (b : DigestBaseline) : Type 0 where
  pub count_star : b.count_star < 2 ^ 64
  pub sum_timer_wait : b.sum_timer_wait < 2 ^ 64
  pub sum_lock_time : b.sum_lock_time < 2 ^ 64
  pub sum_rows_examined : b.sum_rows_examined < 2 ^ 64
  pub sum_rows_sent : b.sum_rows_sent < 2 ^ 64
  pub sum_no_index_used : b.sum_no_index_used < 2 ^ 64
  pub sum_created_tmp_disk_tables : b.sum_created_tmp_disk_tables < 2 ^ 64
  pub sum_sort_merge_passes : b.sum_sort_merge_passes < 2 ^ 64

-- What a sample between two baselines says: the five tested counters have grown by their deltas
-- exactly, the three others by theirs modulo 2^64.
pub record IsGrowth (prev next : DigestBaseline) (s : DigestSample) : Type 0 where
  pub count_star : prev.count_star + s.exec_count_delta ≡ next.count_star
  pub sum_timer_wait : prev.sum_timer_wait + s.sum_timer_wait_delta ≡ next.sum_timer_wait
  pub sum_lock_time : prev.sum_lock_time + s.sum_lock_time_delta ≡ next.sum_lock_time
  pub sum_rows_examined :
      prev.sum_rows_examined + s.sum_rows_examined_delta ≡ next.sum_rows_examined
  pub sum_rows_sent : prev.sum_rows_sent + s.sum_rows_sent_delta ≡ next.sum_rows_sent
  pub sum_no_index_used :
      (prev.sum_no_index_used + s.sum_no_index_used_delta) % 2 ^ 64 ≡ next.sum_no_index_used
  pub sum_created_tmp_disk_tables :
      (prev.sum_created_tmp_disk_tables + s.sum_created_tmp_disk_tables_delta) % 2 ^ 64
      ≡ next.sum_created_tmp_disk_tables
  pub sum_sort_merge_passes :
      (prev.sum_sort_merge_passes + s.sum_sort_merge_passes_delta) % 2 ^ 64
      ≡ next.sum_sort_merge_passes

minus-exact : (a b : ℕ) → a < 2 ^ 64 → ltb a b ≡ false → b + minus a b ≡ a
unfolding minus
minus-exact a b h k = ground arith

minus-modulo : (a b : ℕ) → a < 2 ^ 64 → b < 2 ^ 64 → (b + minus a b) % 2 ^ 64 ≡ a
unfolding minus
minus-modulo a b h k = omega arith

-- Between two baselines of uint64 counters that isCounterReset lets pass, the sample's deltas of
-- the five tested counters are exact; those of the other three are so modulo 2^64 only.
pub sample_of-IsGrowth :
    (now : ℕ) (interval : ℤ) (prev next : DigestBaseline)
    → IsUint64 prev
    → IsUint64 next
    → is_counter_reset prev next ≡ false
    → IsGrowth prev next (sample_of now interval prev next)
unfolding sample_of is_counter_reset
sample_of-IsGrowth now interval prev next p n h = record {
  count_star = minus-exact _ _ n.count_star (ground arith);
  sum_timer_wait = minus-exact _ _ n.sum_timer_wait (ground arith);
  sum_lock_time = minus-exact _ _ n.sum_lock_time (ground arith);
  sum_rows_examined = minus-exact _ _ n.sum_rows_examined (ground arith);
  sum_rows_sent = minus-exact _ _ n.sum_rows_sent (ground arith);
  sum_no_index_used = minus-modulo _ _ n.sum_no_index_used p.sum_no_index_used;
  sum_created_tmp_disk_tables =
      minus-modulo _ _ n.sum_created_tmp_disk_tables p.sum_created_tmp_disk_tables;
  sum_sort_merge_passes = minus-modulo _ _ n.sum_sort_merge_passes p.sum_sort_merge_passes;
}
