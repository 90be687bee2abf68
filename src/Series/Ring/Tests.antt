-- ===== src/Series/Ring/Tests.antt =====
-- Runs of a ring of two places.
use mysqlmonitoring.Prelude.{ℕ, ◌≡◌, true, List, [], ◌∷◌, refl, arith}
use mysqlmonitoring.Prelude.Int.{pos}
use mysqlmonitoring.Series.Ring.{
  RingBuffer, clamp_capacity, new_ring_buffer, append, read_from, all,
}
use mysqlmonitoring.Series.Ring.Spec.{keep_last, IsValid}
use mysqlmonitoring.Series.Ring.History.{append_all, all-append_all}

abbrev items : List ℕ
items = 7 ∷ 8 ∷ 9 ∷ []

-- The ring after 7, 8 and 9.
abbrev wrapped : RingBuffer ℕ
wrapped = record { buf = 9 ∷ 8 ∷ []; head = 1; full = true }

wrapped-IsValid : IsValid wrapped
wrapped-IsValid = omega arith

wrapped_test : append_all (new_ring_buffer 0 (pos 2)) items ≡ wrapped
unfolding new_ring_buffer append append_all
wrapped_test = refl

all_test : all 0 wrapped ≡ 8 ∷ 9 ∷ []
unfolding all read_from
all_test = refl

all-append_all_example :
    all 0 (append_all (new_ring_buffer 0 (pos 2)) items) ≡ keep_last (clamp_capacity (pos 2)) items
all-append_all_example = all-append_all 0 (pos 2) items
