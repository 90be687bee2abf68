-- ===== src/Series/Sink/Window.antt =====
-- sink.go: what a window query returns.
use mysqlmonitoring.Prelude.{
  ℕ, ◌+◌, ◌≤◌, ◌≡◌, ◌↔◌, ◌⊎◌, ◌∙◌, ap, refl, Bool, true, ◌||◌, leb, ◌==◌, [], ◌∷◌, List, filter_by,
  In, In-filter_by, arith,
}
use mysqlmonitoring.Prelude.Int.{ℤ, pos}
use mysqlmonitoring.Series.Ring
use mysqlmonitoring.Series.Ring.{RingBuffer, clamp_capacity}
use mysqlmonitoring.Series.Ring.Spec.{IsValid, keep_last}
use mysqlmonitoring.Series.Ring.Contents
use mysqlmonitoring.Series.Ring.History.{append_all, all-append_all, new-IsValid}
use mysqlmonitoring.Series.Sample.{Sample}
use mysqlmonitoring.Series.Sink.{in_window, new_ring_sink, append, range}

-- A sample is in a positive window unless it is older than `now - window`; it may be newer than
-- `now`. In a window of 0 or less every sample is.
pub in_window_iff :
    (now window t : ℕ)
    → ((in_window now (pos window) t ≡ true) ↔ ((window ≡ 0) ⊎ (now ≤ t + window)))
unfolding in_window
in_window_iff now window t = ground arith

pub new_ring_sink-IsValid :
    {A : Type 0} (s : Sample A) (capacity : ℤ) → IsValid (new_ring_sink ⦃s = s⦄ capacity)
unfolding new_ring_sink
new_ring_sink-IsValid s capacity = new-IsValid s.blank capacity

pub append-IsValid :
    {A : Type 0} (s : Sample A) (sink : RingBuffer A) (v : A)
    → IsValid sink
    → IsValid (append ⦃s = s⦄ sink v)
unfolding append
append-IsValid s sink v h = Contents.append-IsValid sink v h

-- Whether a sample is no older than the window, where a window of 0 or less has no limit.
abbrev pub not_older : ℕ → ℤ → ℕ → Bool
not_older now (pos window) t = window == 0 || leb now (t + window)
not_older now (ℤ.negsuc n) t = true

in_window-not_older :
    (now : ℕ) (window : ℤ) (t : ℕ) → in_window now window t ≡ not_older now window t
unfolding in_window
in_window-not_older now (pos window) t = ground arith
in_window-not_older now (ℤ.negsuc n) t = ground arith

filter_by-same :
    {A : Type 0} (p q : A → Bool) (xs : List A)
    → ((x : A) → p x ≡ q x)
    → filter_by p xs ≡ filter_by q xs
filter_by-same p q [] h = refl
filter_by-same p q (x ∷ xs) h = rw (h x, filter_by-same p q xs h) refl

-- A sink of a new ring after any appends: Range yields, in order of arrival, those of the last
-- `capacity` samples whose time is at least `now - window`, also when it is after `now`; it yields
-- all of them when the window is 0 or less.
pub range-append_all :
    {A : Type 0} (s : Sample A) (capacity : ℤ) (vs : List A) (now : ℕ) (window : ℤ)
    → range ⦃s = s⦄ (append_all (new_ring_sink ⦃s = s⦄ capacity) vs) now window
      ≡ filter_by
          (λ v. not_older now window (s.sample_time v))
          (keep_last (clamp_capacity capacity) vs)
unfolding range new_ring_sink
range-append_all s capacity vs now window =
    filter_by-same _ _ _ (λ v. in_window-not_older now window (s.sample_time v))
    ∙ ap (filter_by (λ v. not_older now window (s.sample_time v)))
        (all-append_all s.blank capacity vs)

-- What Range yields is what All yields, less the samples outside the window.
pub in-range :
    {A : Type 0} (s : Sample A) (sink : RingBuffer A) (now : ℕ) (window : ℤ) (v : A)
    → In v (range ⦃s = s⦄ sink now window)
      ↔ (In v (Ring.all s.blank sink) × (in_window now window (s.sample_time v) ≡ true))
unfolding range
in-range s sink now window v = In-filter_by _ v (Ring.all s.blank sink)
