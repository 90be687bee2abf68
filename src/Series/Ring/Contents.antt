-- ===== src/Series/Ring/Contents.antt =====
-- ring.go: what Append does to the contents.
use mysqlmonitoring.Prelude.{
  ℕ, zero, suc, ◌+◌, ◌-◌, ◌≤◌, ◌<◌, ◌≡◌, refl, min, sym, ◌∙◌, List, [], ◌∷◌, ◌++◌, append-nil,
  append_assoc, length, set, take, drop, length-append, length-set, length-take, length-drop,
  take_all, drop_all, drop-append, drop-drop, take-set, drop-set, ◌==◌, Bool-cases, arith, inl, inr,
}
use mysqlmonitoring.Series.Ring.{RingBuffer, cap, len, append}
use mysqlmonitoring.Series.Ring.Spec.{IsValid, keep_last, contents}

module _ {ℓ} {A : Type ℓ} where
  pub keep_last_short : (n : ℕ) (xs : List A) → length xs ≤ n → keep_last n xs ≡ xs
  keep_last_short n xs h = let all_kept : length xs - n ≡ 0 = omega arith in rw all_kept

  -- What an append keeps of a full buffer: all but the oldest item.
  drop_oldest :
      (xs ys : List A) (i : ℕ) → i < length xs → drop 1 (drop i xs ++ ys) ≡ drop (suc i) xs ++ ys
  drop_oldest [] ys i h = absurd (omega arith)
  drop_oldest (x ∷ xs) ys zero h = refl
  drop_oldest (x ∷ xs) ys (suc i) h = drop_oldest xs ys i (omega arith)

  keep_last_full :
      (buf : List A) (i : ℕ) (v : A)
      → i < length buf
      → keep_last (length buf) ((drop i buf ++ take i buf) ++ v ∷ [])
        ≡ drop (suc i) buf ++ (take i buf ++ v ∷ [])
  keep_last_full buf i v h =
      let size : length (drop i buf ++ (take i buf ++ v ∷ [])) - length buf ≡ 1 = omega (
        arith,
        length-append (drop i buf) (take i buf ++ v ∷ []),
        length-append (take i buf) (v ∷ []),
        length-drop i buf,
        length-take i buf,
      ) in
      rw (append_assoc, size) (drop_oldest buf (take i buf ++ v ∷ []) i h)

  -- When the write reaches the end of the storage, the storage is the contents.
  set_last :
      (buf : List A) (i : ℕ) (v : A) → i + 1 ≡ length buf → set buf i v ≡ take i buf ++ v ∷ []
  set_last buf i v h =
      sym (take_all (suc i) (set buf i v) (omega (arith, length-set buf i v)))
      ∙ take-set buf i v (omega arith)

  take_written :
      (buf : List A) (i : ℕ) (v : A)
      → i < length buf
      → take (i + 1) (set buf i v) ≡ take i buf ++ v ∷ []
  take_written buf i v h = let next : i + 1 ≡ suc i = omega arith in rw next (take-set buf i v h)

  drop_written : (buf : List A) (i : ℕ) (v : A) → drop (i + 1) (set buf i v) ≡ drop (suc i) buf
  drop_written buf i v = let next : i + 1 ≡ suc i = omega arith in rw next (drop-set buf i v)

  take_room :
      (buf : List A) (i : ℕ) (v : A) → i < length buf → length (take i buf ++ v ∷ []) ≤ length buf
  take_room buf i v h = omega (arith, length-append (take i buf) (v ∷ []), length-take i buf)

  pub append-IsValid : (r : RingBuffer A) (v : A) → IsValid r → IsValid (append r v)
  unfolding append
  append-IsValid r v h = ground (arith, length-set r.buf r.head v)

  pub append-contents :
      (r : RingBuffer A) (v : A)
      → IsValid r
      → contents (append r v) ≡ keep_last (length r.buf) (contents r ++ v ∷ [])
  unfolding append
  append-contents r v h = elim (Bool-cases (r.head + 1 == length r.buf)) [
    | inl wraps ↦
        rw (wraps, set_last r.buf r.head v (ground arith), append-nil)
          (elim (Bool-cases r.full) [
            | inl e ↦
                rw (e, keep_last_full r.buf r.head v h, drop_all (suc r.head) r.buf (ground arith))
            | inr e ↦ rw (
              e,
              keep_last_short (length r.buf) (take r.head r.buf ++ v ∷ [])
                  (take_room r.buf r.head v h),
            )
          ])
    | inr stays ↦ rw stays (elim (Bool-cases r.full) [
      | inl e ↦ rw (
        e,
        keep_last_full r.buf r.head v h,
        drop_written r.buf r.head v,
        take_written r.buf r.head v h,
      )
      | inr e ↦ rw (
        e,
        take_written r.buf r.head v h,
        keep_last_short (length r.buf) (take r.head r.buf ++ v ∷ []) (take_room r.buf r.head v h),
      )
    ])
  ]

  pub cap-append : (r : RingBuffer A) (v : A) → cap (append r v) ≡ cap r
  unfolding cap append
  cap-append r v = ground (arith, length-set r.buf r.head v)

  pub length-contents : (r : RingBuffer A) → IsValid r → length (contents r) ≡ len r
  unfolding len
  length-contents r h = elim (Bool-cases r.full) [
    | inl e ↦ rw e (
        omega (
          arith,
          length-append (drop r.head r.buf) (take r.head r.buf),
          length-drop r.head r.buf,
          length-take r.head r.buf,
        ))
    | inr e ↦ rw e (omega (arith, length-take r.head r.buf))
  ]

  pub length-keep_last : (n : ℕ) (xs : List A) → length (keep_last n xs) ≡ min n (length xs)
  length-keep_last n xs = omega (arith, length-drop (length xs - n) xs)

  -- What was dropped before makes no difference to what is kept at the end.
  pub keep_last-append :
      (n : ℕ) (xs ys : List A) → keep_last n (keep_last n xs ++ ys) ≡ keep_last n (xs ++ ys)
  keep_last-append n xs ys =
      let kept : drop (length xs - n) xs ++ ys ≡ drop (length xs - n) (xs ++ ys) =
        sym (drop-append (length xs - n) xs ys ∙ rw none_left refl) in
      rw (kept, drop-drop, total)
    where
      none_left : length xs - n - length xs ≡ 0
      none_left = omega arith

      total : length xs - n + (length (drop (length xs - n) (xs ++ ys)) - n) ≡ length (xs ++ ys) - n
      total = omega (arith, length-drop (length xs - n) (xs ++ ys), length-append xs ys)
