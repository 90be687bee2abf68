-- ===== src/Series/Registry/Minimum.antt =====
-- The smallest entry that a loop over a map keeps, whatever the order of the loop.
use mysqlmonitoring.Prelude.{
  ℕ, ◌≤◌, ◌≡◌, refl, ◌⊎◌, inl, inr, Bool, true, false, Option, none, some, List, [], ◌∷◌, In, ltb,
  ltb→lt, if◌then◌else◌, Bool-cases, arith,
}

module _ {A : Type 0} (measure : A → ℕ) (skip : A → Bool) where
  abbrev pub keep_smaller : A → Option A → Option A
  keep_smaller e none = some e
  keep_smaller e (some v) = if ltb (measure e) (measure v) then some e else some v

  unfoldable pub smallest : List A → Option A → Option A
  smallest [] o = o
  smallest (e ∷ es) o = smallest es (if skip e then o else keep_smaller e o)

  -- `o` is a smallest of the entries in `P` that are not skipped, or there is none of these.
  abbrev pub IsSmallest : (A → Type 0) → Option A → Type 0
  IsSmallest P o =
      ((o ≡ none) × ((x : A) → P x → skip x ≡ true))
      ⊎ ((v : A) × (o ≡ some v)
          × P v
          × (skip v ≡ false)
          × ((x : A) → P x → skip x ≡ false → measure v ≤ measure x))

  IsSmallest-same :
      (P Q : A → Type 0) (o : Option A)
      → ((x : A) → P x → Q x)
      → ((x : A) → Q x → P x)
      → IsSmallest P o
      → IsSmallest Q o
  IsSmallest-same P Q o to from (inl (e, all)) = inl (e, λ x q. all x (from x q))
  IsSmallest-same P Q o to from (inr (v, e, p, s, low)) =
      inr (v, e, to v p, s, λ x q. low x (from x q))

  IsSmallest-keep :
      (P : A → Type 0) (e : A) (o : Option A)
      → IsSmallest P o
      → IsSmallest (λ x. (x ≡ e) ⊎ P x) (if skip e then o else keep_smaller e o)
  IsSmallest-keep P e o (inl (n, all)) = elim (Bool-cases (skip e)) [
    | inl h ↦ rw (n, h) (inl (refl, λ x q. elim q [ inl i ↦ rw i h | inr p ↦ all x p ]))
    | inr h ↦
        rw (n, h)
          (inr (
            e,
            refl,
            inl refl,
            h,
            λ x q u. elim q [ inl i ↦ rw i (omega arith) | inr p ↦ cc (all x p) ],
          ))
  ]
  IsSmallest-keep P e o (inr (v, h, p, s, low)) = elim (Bool-cases (skip e)) [
    | inl t ↦
        rw (h, t) (inr (v, refl, inr p, s, λ x q u. elim q [ inl i ↦ cc | inr p' ↦ low x p' u ]))
    | inr f ↦ elim (Bool-cases (ltb (measure e) (measure v))) [
      | inl l ↦
          rw (h, f, l)
            (inr (
              e,
              refl,
              inl refl,
              f,
              λ x q u. elim q [
                | inl i ↦ rw i (omega arith)
                | inr p' ↦ omega (arith, low x p' u, ltb→lt (measure e) (measure v) l)
              ],
            ))
      | inr l ↦
          rw (h, f, l)
            (inr (
              v,
              refl,
              inr p,
              s,
              λ x q u. elim q [ inl i ↦ rw i (ground arith) | inr p' ↦ low x p' u ],
            ))
    ]
  ]

  pub smallest-IsSmallest :
      (P : A → Type 0) (es : List A) (o : Option A)
      → IsSmallest P o
      → IsSmallest (λ x. In x es ⊎ P x) (smallest es o)
  unfolding smallest
  smallest-IsSmallest P [] o h =
      IsSmallest-same P _ o (λ x p. inr p) (λ x q. elim q [ inl m ↦ absurd m | inr p ↦ p ]) h
  smallest-IsSmallest P (e ∷ es) o h =
      IsSmallest-same _ _ _
        (λ x p. elim p [
          | inl m ↦ inl (inr m)
          | inr q ↦ elim q [ inl i ↦ inl (inl i) | inr p' ↦ inr p' ]
        ])
        (λ x q. elim q [
          | inl m ↦ elim m [ inl i ↦ inr (inl i) | inr m' ↦ inl m' ]
          | inr p ↦ inr (inr p)
        ])
        (smallest-IsSmallest (λ x. (x ≡ e) ⊎ P x) es _ (IsSmallest-keep P e o h))
