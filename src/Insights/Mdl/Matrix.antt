-- ===== src/Insights/Mdl/Matrix.antt =====
-- mdl.go: the conflict matrix against the unordered pairs of lock types that conflict.
use mysqlmonitoring.Prelude.{
  ◌≡◌, ◌∙◌, refl, sym, ◌↔◌, ◌⊎◌, inl, inr, Bool, true, false, ◌&&◌, ◌||◌, Option, none, some, List,
  [], ◌∷◌, In, Str, codes, str_eq, str_eq_iff, arith, Bool-cases,
}
use mysqlmonitoring.Insights.Mdl.{conflicts, find_row, cell, mdl_compat}
use mysqlmonitoring.Insights.Mdl.Conflicts.{
  lock_types, all_of, all_of_sound, same, conflicts-unknown,
}

-- The pairs of lock types that conflict, whichever of the two waits.
abbrev pub rivals : List (Str × Str)
rivals =
    (codes "EXCLUSIVE", codes "SHARED_READ")
    ∷ (codes "EXCLUSIVE", codes "SHARED_HIGH_PRIO")
    ∷ (codes "EXCLUSIVE", codes "SHARED_WRITE")
    ∷ (codes "EXCLUSIVE", codes "SHARED_WRITE_LOW_PRIO")
    ∷ (codes "EXCLUSIVE", codes "SHARED_UPGRADABLE")
    ∷ (codes "EXCLUSIVE", codes "SHARED_NO_WRITE")
    ∷ (codes "EXCLUSIVE", codes "SHARED_NO_READ_WRITE")
    ∷ (codes "EXCLUSIVE", codes "INTENTION_EXCLUSIVE")
    ∷ (codes "EXCLUSIVE", codes "EXCLUSIVE")
    ∷ (codes "SHARED_NO_READ_WRITE", codes "SHARED_READ")
    ∷ (codes "SHARED_NO_READ_WRITE", codes "SHARED_HIGH_PRIO")
    ∷ (codes "SHARED_NO_READ_WRITE", codes "SHARED_WRITE")
    ∷ (codes "SHARED_NO_READ_WRITE", codes "SHARED_WRITE_LOW_PRIO")
    ∷ (codes "SHARED_NO_READ_WRITE", codes "SHARED_UPGRADABLE")
    ∷ (codes "SHARED_NO_READ_WRITE", codes "SHARED_NO_WRITE")
    ∷ (codes "SHARED_NO_READ_WRITE", codes "SHARED_NO_READ_WRITE")
    ∷ (codes "SHARED_NO_WRITE", codes "SHARED_WRITE")
    ∷ (codes "SHARED_NO_WRITE", codes "SHARED_UPGRADABLE")
    ∷ (codes "SHARED_NO_WRITE", codes "SHARED_NO_WRITE")
    ∷ (codes "SHARED_UPGRADABLE", codes "SHARED_UPGRADABLE")
    ∷ []

abbrev pub is_pair : Str → Str → List (Str × Str) → Bool
is_pair a b [] = false
is_pair a b (p ∷ ps) = (str_eq p.0 a && str_eq p.1 b) || is_pair a b ps

-- A request of type `w` waits for a grant of type `h`: they are rivals, or the pair that conflicts
-- in one direction.
abbrev pub waits_for : Str → Str → Bool
waits_for w h =
    is_pair w h rivals
    || is_pair h w rivals
    || is_pair w h ((codes "SHARED_WRITE_LOW_PRIO", codes "SHARED_NO_WRITE") ∷ [])

abbrev agrees_from : Str → Bool
agrees_from w = all_of (λ h. same (conflicts w h) (waits_for w h)) lock_types

agrees_table : all_of agrees_from lock_types ≡ true
unfolding conflicts find_row cell str_eq
agrees_table = refl

same_eq : (x y : Bool) → same x y ≡ true → x ≡ y
same_eq x y h = ground arith

abbrev has_type : Str → List Str → Bool
has_type h [] = false
has_type h (t ∷ ts) = str_eq t h || has_type h ts

has_type_iff : (h : Str) (ts : List Str) → (has_type h ts ≡ true) ↔ In h ts
has_type_iff h [] = ((λ e. ground (arith, e)), λ m. absurd m)
has_type_iff h (t ∷ ts) =
    let here = str_eq_iff t h in
    let rest = has_type_iff h ts in
    (
      (λ e. elim (Bool-cases (str_eq t h)) [
        | inl b ↦ inl (sym (here.0 b))
        | inr b ↦ inr (rest.0 (ground arith))
      ]),
      λ m. elim m [
        | inl e ↦ let b = here.1 (sym e) in ground arith
        | inr k ↦ let b = rest.1 k in ground arith
      ],
    )

-- The types of holder that a row lists.
abbrev keys_of : List (Str × Bool) → List Str
keys_of [] = []
keys_of (p ∷ row) = p.0 ∷ keys_of row

cell-key : (h : Str) (row : List (Str × Bool)) → cell h row ≡ true → In h (keys_of row)
unfolding cell
cell-key h [] e = ground (arith, e)
cell-key h ((j, b) ∷ row) e = elim (Bool-cases (str_eq j h)) [
  | inl f ↦ inl (sym ((str_eq_iff j h).0 f))
  | inr f ↦ inr (cell-key h row (rw f at e))
]

abbrev is_closed : Option (List (Str × Bool)) → Bool
is_closed none = false
is_closed (some row) = all_of (λ k. has_type k lock_types) (keys_of row)

closed_table : all_of (λ w. is_closed (find_row w mdl_compat)) lock_types ≡ true
unfolding find_row str_eq
closed_table = refl

closed-key :
    (h : Str) (o : Option (List (Str × Bool)))
    → is_closed o ≡ true
    → (elim o [ some row ↦ cell h row | none ↦ true ]) ≡ true
    → In h lock_types
closed-key h none c e = absurd (ground (arith, c))
closed-key h (some row) c e =
    (has_type_iff h lock_types).0
      (all_of_sound (λ k. has_type k lock_types) (keys_of row) h c (cell-key h row e))

-- A request of a listed type waits only for a listed type.
conflicts-known : (w h : Str) → In w lock_types → conflicts w h ≡ true → In h lock_types
unfolding conflicts
conflicts-known w h m e =
    closed-key h (find_row w mdl_compat)
      (all_of_sound (λ w. is_closed (find_row w mdl_compat)) lock_types w closed_table m) e

-- A request of type `w` has to wait for a grant of type `h`: the type of the request is unknown, or
-- both are listed and it waits for the other.
abbrev pub IsConflict : Str → Str → Type 0
IsConflict w h =
    (In w lock_types → ⊥) ⊎ (In w lock_types × In h lock_types × (waits_for w h ≡ true))

known_agrees : (w h : Str) → In w lock_types → In h lock_types → conflicts w h ≡ waits_for w h
known_agrees w h mw mh = same_eq (conflicts w h) (waits_for w h) (
    all_of_sound (λ h. same (conflicts w h) (waits_for w h)) lock_types h
      (all_of_sound agrees_from lock_types w agrees_table mw) mh)

-- The matrix says that a request has to wait for a grant exactly if the type of the request is
-- unknown to it, or both types are known and they are one of the pairs that conflict.
pub conflicts_iff : (w h : Str) → (conflicts w h ≡ true) ↔ IsConflict w h
conflicts_iff w h = elim (Bool-cases (has_type w lock_types)) [
  | inl k ↦
      let mw = (has_type_iff w lock_types).0 k in
      (
        (λ e. let mh = conflicts-known w h mw e in inr (mw, mh, sym (known_agrees w h mw mh) ∙ e)),
        λ c. elim c [ inl out ↦ absurd (out mw) | inr both ↦ known_agrees w h mw both.1 ∙ both.2 ],
      )
  | inr k ↦
      let out : In w lock_types → ⊥ =
        λ m. absurd (let t = (has_type_iff w lock_types).1 m in ground arith) in
      ((λ e. inl out), λ c. conflicts-unknown w h out)
]
