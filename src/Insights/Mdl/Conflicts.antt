-- ===== src/Insights/Mdl/Conflicts.antt =====
-- mdl.go: the conflict matrix.
use mysqlmonitoring.Prelude.{
  ◌≡◌, refl, sym, ◌↔◌, inl, inr, Bool, true, false, not, ◌&&◌, none, List, [], ◌∷◌, In, map, Str,
  codes, str_eq, str_eq_iff, arith, Bool-cases,
}
use mysqlmonitoring.Insights.Mdl.{conflicts, find_row, cell, mdl_compat}

-- The lock types for which the matrix has a row.
abbrev pub lock_types : List Str
lock_types =
    codes "SHARED_READ"
    ∷ codes "SHARED_HIGH_PRIO"
    ∷ codes "SHARED_WRITE"
    ∷ codes "SHARED_WRITE_LOW_PRIO"
    ∷ codes "SHARED_UPGRADABLE"
    ∷ codes "SHARED_NO_WRITE"
    ∷ codes "SHARED_NO_READ_WRITE"
    ∷ codes "INTENTION_EXCLUSIVE"
    ∷ codes "EXCLUSIVE"
    ∷ []

-- A test of every entry of a list, and what it shows.
abbrev pub all_of : (Str → Bool) → List Str → Bool
all_of p [] = true
all_of p (x ∷ xs) = p x && all_of p xs

pub all_of_sound :
    (p : Str → Bool) (xs : List Str) (x : Str) → all_of p xs ≡ true → In x xs → p x ≡ true
all_of_sound p [] x h m = absurd m
all_of_sound p (y ∷ ys) x h (inl e) = ground (arith, e)
all_of_sound p (y ∷ ys) x h (inr m) = all_of_sound p ys x (ground arith) m

abbrev pub same : Bool → Bool → Bool
same true b = b
same false b = not b

abbrev pub odd_pair : Str → Str → Bool
odd_pair a b = str_eq a (codes "SHARED_NO_WRITE") && str_eq b (codes "SHARED_WRITE_LOW_PRIO")

-- The conflict is listed for `b` and not for `a`.
abbrev one_way : Str → Str → Bool
one_way a b = not (conflicts a b) && conflicts b a

abbrev one_way_from : Str → Bool
one_way_from a = all_of (λ b. same (one_way a b) (odd_pair a b)) lock_types

one_way_table : all_of one_way_from lock_types ≡ true
unfolding conflicts find_row cell str_eq
one_way_table = refl

odd_way :
    (x y s t : Bool)
    → same (not x && y) (s && t) ≡ true
    → ((x ≡ false) × (y ≡ true)) ↔ ((s ≡ true) × (t ≡ true))
odd_way x y s t h = ground arith

-- The matrix is symmetric on its own lock types, but for one pair: one of two types waits for the
-- other without the reverse exactly when a SHARED_WRITE_LOW_PRIO request meets a SHARED_NO_WRITE
-- grant, where the reverse is missing.
pub conflicts-symmetric :
    (a b : Str)
    → In a lock_types
    → In b lock_types
    → ((conflicts a b ≡ false) × (conflicts b a ≡ true))
      ↔ ((a ≡ codes "SHARED_NO_WRITE") × (b ≡ codes "SHARED_WRITE_LOW_PRIO"))
conflicts-symmetric a b ma mb =
    let row = all_of_sound one_way_from lock_types a one_way_table ma in
    let here = all_of_sound (λ b. same (one_way a b) (odd_pair a b)) lock_types b row mb in
    let way =
      odd_way (conflicts a b) (conflicts b a) (str_eq a (codes "SHARED_NO_WRITE"))
        (str_eq b (codes "SHARED_WRITE_LOW_PRIO")) here in
    let left = str_eq_iff a (codes "SHARED_NO_WRITE") in
    let right = str_eq_iff b (codes "SHARED_WRITE_LOW_PRIO") in
    ((λ c. let o = way.0 c in (left.0 o.0, right.0 o.1)), λ e. way.1 (left.1 e.0, right.1 e.1))

abbrev true_row : List Str → List (Str × Bool)
true_row [] = []
true_row (t ∷ ts) = (t, true) ∷ true_row ts

cell-true_row : (h : Str) (ts : List Str) → cell h (true_row ts) ≡ true ↔ In h ts
unfolding cell
cell-true_row h [] = ((λ e. cc), λ m. absurd m)
cell-true_row h (t ∷ ts) = elim (Bool-cases (str_eq t h)) [
  | inl e ↦ rw e ((λ _. inl (sym ((str_eq_iff t h).0 e))), λ _. refl)
  | inr f ↦
      let rest = cell-true_row h ts in
      rw f (
        (λ e. inr (rest.0 e)),
        λ m. elim m [ inl e ↦ absurd (cc (f, (str_eq_iff t h).1 (sym e))) | inr m' ↦ rest.1 m' ],
      )
]

exclusive_row : (h : Str) → conflicts (codes "EXCLUSIVE") h ≡ cell h (true_row lock_types)
unfolding conflicts find_row str_eq
exclusive_row h = refl

-- An EXCLUSIVE request conflicts with a granted lock exactly if its type is one of the nine for which
-- the matrix has a row, and with no other.
pub conflicts-exclusive : (h : Str) → conflicts (codes "EXCLUSIVE") h ≡ true ↔ In h lock_types
conflicts-exclusive h = rw (exclusive_row h) (cell-true_row h lock_types)

find_row-none :
    (w : Str) (rows : List (Str × List (Str × Bool)))
    → (In w (map (λ r. r.0) rows) → ⊥)
    → find_row w rows ≡ none
unfolding find_row
find_row-none w [] h = refl
find_row-none w ((j, row) ∷ rows) h =
    ground
      (arith, str_eq_iff j w, find_row-none w rows (λ m. h (inr m)), (λ (e : w ≡ j). h (inl e)))

-- A request of any other type is taken to conflict with everything.
pub conflicts-unknown : (w h : Str) → (In w lock_types → ⊥) → conflicts w h ≡ true
unfolding conflicts
conflicts-unknown w h out = rw (find_row-none w mdl_compat out, conflicts)
