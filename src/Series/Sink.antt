-- ===== src/Series/Sink.antt =====
-- internal/series/sink.go: RingSink. The mutex makes each method one step, so it has no field.
pub mod Window
mod Tests
use mysqlmonitoring.Prelude.{ℕ, Bool, true, false, not, List, [], filter_by, if◌then◌else◌}
use mysqlmonitoring.Prelude.Int.{ℤ, pos, ◌-ℤ◌, ltb_ℤ}
use mysqlmonitoring.Series.Ring
use mysqlmonitoring.Series.Ring.{RingBuffer}
use mysqlmonitoring.Series.Sample.{Sample}

-- The test of Range: with a positive window a sample before `now - window` is skipped.
pub in_window : ℕ → ℤ → ℕ → Bool
unfolding ◌-ℤ◌
in_window now window t =
    if ltb_ℤ (pos 0) window then not (ltb_ℤ (pos t) (pos now -ℤ window)) else true

module _ {A : Type 0} ⦃s : Sample A⦄ where
  pub new_ring_sink : ℤ → RingBuffer A
  new_ring_sink capacity = Ring.new_ring_buffer s.blank capacity

  unfoldable pub append : RingBuffer A → A → RingBuffer A
  append sink v = Ring.append sink v

  pub len : RingBuffer A → ℕ
  len sink = Ring.len sink

  -- Range: the samples that its iterator yields, in order.
  pub range : RingBuffer A → ℕ → ℤ → List A
  range sink now window =
      filter_by (λ v. in_window now window (s.sample_time v)) (Ring.all s.blank sink)

  pub reset : RingBuffer A → RingBuffer A
  reset sink = Ring.reset sink
