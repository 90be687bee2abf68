-- ===== src/Prelude/Sort.antt =====
-- sort.SliceStable as a stable insertion sort: for an order by a number, falling, there is one stable
-- arrangement, so it does not matter which algorithm finds it.
use mysqlmonitoring.Prelude.{
  ◌≡◌, refl, ◌↔◌, ◌⊎◌, inl, inr, Bool, true, false, List, [], ◌∷◌, In, All, if◌then◌else◌,
  Bool-cases, arith, length, suc,
}

module _ {A : Type 0} (less : A → A → Bool) where
  abbrev pub insert_stable : A → List A → List A
  insert_stable x [] = x ∷ []
  insert_stable x (y ∷ ys) =
      let rest = insert_stable x ys in if less y x then y ∷ rest else x ∷ y ∷ ys

  unfoldable pub sort_stable : List A → List A
  sort_stable [] = []
  sort_stable (x ∷ xs) = insert_stable x (sort_stable xs)

  -- No entry should stand after one that follows it.
  abbrev pub IsSorted : List A → Type 0
  IsSorted [] = Unit {0}
  IsSorted (x ∷ xs) = All (λ y. less y x ≡ false) xs × IsSorted xs

  pub In-insert_stable : (a x : A) (ys : List A) → In a (insert_stable x ys) ↔ ((a ≡ x) ⊎ In a ys)
  In-insert_stable a x [] = ((λ m. m), λ m. m)
  In-insert_stable a x (y ∷ ys) = elim (Bool-cases (less y x)) [
    | inl t ↦
        let both = In-insert_stable a x ys in
        rw t (
          (λ m. elim m [
            | inl e ↦ inr (inl e)
            | inr m' ↦ elim (both.0 m') [ inl e ↦ inl e | inr h ↦ inr (inr h) ]
          ]),
          λ m. elim m [
            | inl e ↦ inr (both.1 (inl e))
            | inr h ↦ elim h [ inl e ↦ inl e | inr h' ↦ inr (both.1 (inr h')) ]
          ],
        )
    | inr f ↦ rw f ((λ m. m), λ m. m)
  ]

  -- Sorting keeps the entries.
  pub In-sort_stable : (a : A) (xs : List A) → In a (sort_stable xs) ↔ In a xs
  unfolding sort_stable
  In-sort_stable a [] = ((λ m. m), λ m. m)
  In-sort_stable a (x ∷ xs) =
      let both = In-insert_stable a x (sort_stable xs) in
      let rest = In-sort_stable a xs in
      (
        (λ m. elim (both.0 m) [ inl e ↦ inl e | inr h ↦ inr (rest.0 h) ]),
        λ m. elim m [ inl e ↦ both.1 (inl e) | inr h ↦ both.1 (inr (rest.1 h)) ],
      )

  pub length-insert_stable : (x : A) (ys : List A) → length (insert_stable x ys) ≡ suc (length ys)
  length-insert_stable x [] = refl
  length-insert_stable x (y ∷ ys) = ground (arith, length-insert_stable x ys)

  pub length-sort_stable : (xs : List A) → length (sort_stable xs) ≡ length xs
  unfolding sort_stable
  length-sort_stable [] = refl
  length-sort_stable (x ∷ xs) =
      omega (arith, length-insert_stable x (sort_stable xs), length-sort_stable xs)

  module _ (asym : (x y : A) → less x y ≡ true → less y x ≡ false)
      (trans : (x y z : A) → less y x ≡ false → less z y ≡ false → less z x ≡ false) where
    All-insert_stable :
        (z x : A) (ys : List A)
        → less x z ≡ false
        → All (λ y. less y z ≡ false) ys
        → All (λ y. less y z ≡ false) (insert_stable x ys)
    All-insert_stable z x [] h a = (h, tt)
    All-insert_stable z x (y ∷ ys) h a = elim (Bool-cases (less y x)) [
      | inl t ↦ rw t (a.0, All-insert_stable z x ys h a.1)
      | inr f ↦ rw f (h, a)
    ]

    All-trans :
        (x y : A) (ys : List A)
        → less y x ≡ false
        → All (λ z. less z y ≡ false) ys
        → All (λ z. less z x ≡ false) ys
    All-trans x y [] h a = tt
    All-trans x y (z ∷ zs) h a = (trans x y z h a.0, All-trans x y zs h a.1)

    insert_stable-IsSorted : (x : A) (ys : List A) → IsSorted ys → IsSorted (insert_stable x ys)
    insert_stable-IsSorted x [] s = (tt, tt)
    insert_stable-IsSorted x (y ∷ ys) s = elim (Bool-cases (less y x)) [
      | inl t ↦ rw t (All-insert_stable y x ys (asym y x t) s.0, insert_stable-IsSorted x ys s.1)
      | inr f ↦ rw f ((f, All-trans x y ys f s.0), s)
    ]

    pub sort_stable-IsSorted : (xs : List A) → IsSorted (sort_stable xs)
    unfolding sort_stable
    sort_stable-IsSorted [] = tt
    sort_stable-IsSorted (x ∷ xs) =
        insert_stable-IsSorted x (sort_stable xs) (sort_stable-IsSorted xs)
