-- ===== src/Series/Ring/Reading.antt =====
-- ring.go: what the loop of All reads.
use mysqlmonitoring.Prelude.{
  ℕ, zero, suc, ◌+◌, ◌-◌, ◌%◌, ◌≤◌, ◌≡◌, refl, ◌∙◌, List, [], ◌++◌, length, take, drop, length-drop,
  take_all, drop_step, ◌==◌, if◌then◌else◌, Bool-cases, arith, inl, inr,
}
use native.Mathlib.Nat.{mod-eq_of_lt, mod-eq-sub-mod}
use mysqlmonitoring.Series.Ring.{RingBuffer, read_from, all}
use mysqlmonitoring.Series.Ring.Spec.{IsValid, contents}

module _ {ℓ} {A : Type ℓ} (blank : A) where
  read_from_low :
      (buf : List A) (start i n : ℕ)
      → start + i + n ≤ length buf
      → read_from blank buf start i n ≡ take n (drop (start + i) buf)
  unfolding read_from
  read_from_low buf start i zero h = refl
  read_from_low buf start i (suc n) h = rw (
    drop_step buf (start + i) blank (omega arith),
    mod-eq_of_lt {n = start + i} {m = length buf} (omega arith),
    read_from_low buf start (i + 1) n (omega arith),
    one_more,
  )
    where
      one_more : start + (i + 1) ≡ suc (start + i)
      one_more = omega arith

  -- The part of the loop past the end of the storage goes on from its beginning.
  read_from_high :
      (buf : List A) (start i j n : ℕ)
      → start + i ≡ length buf + j
      → j + n ≤ length buf
      → read_from blank buf start i n ≡ take n (drop j buf)
  unfolding read_from
  read_from_high buf start i j zero e h = refl
  read_from_high buf start i j (suc n) e h = rw (
    drop_step buf j blank (omega arith),
    wrap,
    read_from_high buf start (i + 1) (suc j) n (omega arith) (omega arith),
  )
    where
      wrap : (start + i) % length buf ≡ j
      wrap =
          mod-eq-sub-mod {n = start + i} {m = length buf} (omega arith)
          ∙ mod-eq_of_lt {n = start + i - length buf} {m = length buf} (omega arith)
          ∙ omega arith

  read_from-append :
      (buf : List A) (start i m n : ℕ)
      → read_from blank buf start i (m + n)
        ≡ read_from blank buf start i m ++ read_from blank buf start (i + m) n
  unfolding read_from
  read_from-append buf start i zero n =
      let count : zero + n ≡ n = omega arith in
      let here : i + 0 ≡ i = omega arith in rw (count, here)
  read_from-append buf start i (suc m) n =
      let count : suc m + n ≡ suc (m + n) = omega arith in
      let moved : i + suc m ≡ i + 1 + m = omega arith in
      rw (count, moved, read_from-append buf start (i + 1) m n)

  take_rest :
      (buf : List A) (start : ℕ)
      → start ≤ length buf
      → take (length buf - start) (drop (start + 0) buf) ≡ drop start buf
  take_rest buf start h =
      let here : start + 0 ≡ start = omega arith in
      rw here
        (take_all (length buf - start) (drop start buf) (omega (arith, length-drop start buf)))

  read_from_round :
      (buf : List A) (start n : ℕ)
      → start ≤ length buf
      → n ≡ length buf - start + start
      → read_from blank buf start 0 n ≡ drop start buf ++ take start buf
  read_from_round buf start n h e = rw (
    e,
    read_from-append buf start 0 (length buf - start) start,
    read_from_low buf start 0 (length buf - start) (omega arith),
    read_from_high buf start (0 + (length buf - start)) 0 start (omega arith) (omega arith),
    take_rest buf start h,
  )

  skip_empty :
      (buf : List A) (start n : ℕ)
      → (if n == 0 then [] else read_from blank buf start 0 n) ≡ read_from blank buf start 0 n
  unfolding read_from
  skip_empty buf start zero = refl
  skip_empty buf start (suc n) = ground arith

  pub all-contents : (r : RingBuffer A) → IsValid r → all blank r ≡ contents r
  unfolding all
  all-contents r v = elim (Bool-cases r.full) [
    | inl e ↦
        rw (e, skip_empty r.buf r.head (length r.buf))
          (read_from_round r.buf r.head (length r.buf) (omega arith) (omega arith))
    | inr e ↦ rw (e, skip_empty r.buf 0 r.head) (read_from_low r.buf 0 0 r.head (omega arith))
  ]
