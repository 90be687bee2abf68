-- ===== src/Series/Ring/History.antt =====
-- ring.go over a whole history of appends.
use mysqlmonitoring.Prelude.{
  ◌+◌, ◌-◌, ◌≤◌, ◌≡◌, refl, sym, ap, ◌∙◌, true, List, [], ◌∷◌, ◌++◌, append-nil, append_assoc,
  length, set, length-set, length-replicate, get_or-set_at, arith,
}
use mysqlmonitoring.Prelude.Int.{ℤ}
use mysqlmonitoring.Series.Ring.{
  RingBuffer, clamp_capacity, new_ring_buffer, cap, len, append, reset, all, newest,
}
use mysqlmonitoring.Series.Ring.Spec.{IsValid, keep_last, contents}
use mysqlmonitoring.Series.Ring.Reading.{all-contents}
use mysqlmonitoring.Series.Ring.Contents.{
  append-IsValid, append-contents, cap-append, length-contents, keep_last_short, keep_last-append,
}

module _ {ℓ} {A : Type ℓ} where
  -- Appends in order.
  unfoldable pub append_all : RingBuffer A → List A → RingBuffer A
  append_all r [] = r
  append_all r (v ∷ vs) = append_all (append r v) vs

  pub append_all-IsValid : (r : RingBuffer A) (vs : List A) → IsValid r → IsValid (append_all r vs)
  unfolding append_all
  append_all-IsValid r [] h = h
  append_all-IsValid r (v ∷ vs) h = append_all-IsValid (append r v) vs (append-IsValid r v h)

  contents_room : (r : RingBuffer A) → IsValid r → length (contents r) ≤ cap r
  unfolding cap len
  contents_room r h = ground (arith, length-contents r h)

  pub contents-append_all :
      (r : RingBuffer A) (vs : List A)
      → IsValid r
      → contents (append_all r vs) ≡ keep_last (cap r) (contents r ++ vs)
  unfolding append_all cap
  contents-append_all r [] h =
      rw append-nil (sym (keep_last_short (cap r) (contents r) (contents_room r h)))
  contents-append_all r (v ∷ vs) h =
      contents-append_all (append r v) vs (append-IsValid r v h) ∙ step
    where
      step :
          keep_last (cap (append r v)) (contents (append r v) ++ vs)
          ≡ keep_last (cap r) (contents r ++ v ∷ vs)
      step =
          rw (cap-append r v, append-contents r v h)
            (keep_last-append (cap r) (contents r ++ v ∷ []) vs
              ∙ ap (keep_last (cap r)) (append_assoc (contents r) (v ∷ []) vs))

module _ {ℓ} {A : Type ℓ} (blank : A) where
  pub new-IsValid : (capacity : ℤ) → IsValid (new_ring_buffer blank capacity)
  unfolding new_ring_buffer
  new-IsValid capacity = ground (arith, length-replicate (clamp_capacity capacity) blank)

  cap-new : (capacity : ℤ) → cap (new_ring_buffer blank capacity) ≡ clamp_capacity capacity
  unfolding cap new_ring_buffer
  cap-new capacity = length-replicate (clamp_capacity capacity) blank

  contents-new : (capacity : ℤ) → contents (new_ring_buffer blank capacity) ≡ []
  unfolding new_ring_buffer
  contents-new capacity = refl

  -- A new buffer, after any sequence of appends, yields exactly the last of the appended items, as
  -- many as its capacity (at least 1), in the order in which they were appended.
  pub all-append_all :
      (capacity : ℤ) (vs : List A)
      → all blank (append_all (new_ring_buffer blank capacity) vs)
        ≡ keep_last (clamp_capacity capacity) vs
  all-append_all capacity vs =
      all-contents blank _ (append_all-IsValid _ vs (new-IsValid capacity))
      ∙ rw (← cap-new capacity)
          (contents-append_all _ vs (new-IsValid capacity) ∙ rw (contents-new capacity))

  -- From any valid buffer, Reset and then any appends yield what a new buffer of the same capacity
  -- would.
  pub all-append_all-reset :
      (r : RingBuffer A) (vs : List A)
      → IsValid r
      → all blank (append_all (reset r) vs) ≡ keep_last (cap r) vs
  unfolding reset cap
  all-append_all-reset r vs h =
      all-contents blank _ (append_all-IsValid (reset r) vs (omega arith))
      ∙ contents-append_all (reset r) vs (omega arith)

module _ {A : Type 0} (blank : A) where
  -- After an append to a valid buffer Newest is the item appended.
  pub newest-append : (r : RingBuffer A) (v : A) → IsValid r → newest blank (append r v) ≡ (v, true)
  unfolding newest append
  newest-append r v h = ground (
    arith,
    length-set r.buf r.head v,
    get_or-set_at r.buf r.head (length (set r.buf r.head v) - 1) v blank h,
    get_or-set_at r.buf r.head (r.head + 1 - 1) v blank h,
  )
