-- ===== src/Series/Registry/Entries.antt =====
-- registry.go: the invariant of the map, and its entries under the writes of Touch and Append.
use mysqlmonitoring.Prelude.{
  ◌≤◌, ◌<◌, ◌≡◌, refl, ap, inl, inr, Bool, false, not, none, List, [], ◌∷◌, In, All, if◌then◌else◌,
  Bool-cases, arith, length, length-filter_by-le, filter_by,
}
use mathlib.Core.Option
use mysqlmonitoring.Prelude.Int.{pos_part}
use mysqlmonitoring.Series.Ring.Spec
use mysqlmonitoring.Series.Sample.{DigestKey, key_eq, key_eq_iff}
use mysqlmonitoring.Series.Registry.{Registry, DigestEntry, find, update, delete}

-- No entry of the list is under the key.
abbrev pub Absent : DigestKey → List DigestEntry → Type 0
Absent k [] = Unit {0}
Absent k (e ∷ es) = (key_eq e.key k ≡ false) × Absent k es

abbrev pub Distinct : List DigestEntry → Type 0
Distinct [] = Unit {0}
Distinct (e ∷ es) = Absent e.key es × Distinct es

pub record IsValid (r : Registry) : Type 0 where
  pub cap_pos : 0 < pos_part r.cfg.max_digests
  pub bounded : length r.entries ≤ pos_part r.cfg.max_digests
  pub distinct : Distinct r.entries
  pub rings : All (λ e. Spec.IsValid e.sink) r.entries

pub find-none : (k : DigestKey) (es : List DigestEntry) → find k es ≡ none → Absent k es
unfolding find
find-none k [] h = tt
find-none k (e ∷ es) h = ground (arith, find-none k es)

pub find-Absent : (k : DigestKey) (es : List DigestEntry) → Absent k es → find k es ≡ none
unfolding find
find-Absent k [] h = refl
find-Absent k (e ∷ es) h = ground (arith, find-Absent k es h.1)

pub Absent-update :
    (j k : DigestKey) (f : DigestEntry → DigestEntry) (es : List DigestEntry)
    → ((e : DigestEntry) → (f e).key ≡ e.key)
    → Absent j es
    → Absent j (update k f es)
unfolding update
Absent-update j k f [] same h = tt
Absent-update j k f (e ∷ es) same h = ground (arith, same e, Absent-update j k f es same h.1)

pub Distinct-update :
    (k : DigestKey) (f : DigestEntry → DigestEntry) (es : List DigestEntry)
    → ((e : DigestEntry) → (f e).key ≡ e.key)
    → Distinct es
    → Distinct (update k f es)
unfolding update
Distinct-update k f [] same h = tt
Distinct-update k f (e ∷ es) same h =
    ground (arith, same e, Distinct-update k f es same h.1, Absent-update e.key k f es same h.0)

pub length-update :
    (k : DigestKey) (f : DigestEntry → DigestEntry) (es : List DigestEntry)
    → length (update k f es) ≡ length es
unfolding update
length-update k f [] = refl
length-update k f (e ∷ es) = ground (arith, length-update k f es)

pub All-update :
    (P : DigestEntry → Type 0) (k : DigestKey) (f : DigestEntry → DigestEntry)
    (es : List DigestEntry)
    → ((e : DigestEntry) → P e → P (f e))
    → All P es
    → All P (update k f es)
unfolding update
All-update P k f [] keep h = tt
All-update P k f (e ∷ es) keep h = elim (Bool-cases (key_eq e.key k)) [
  | inl t ↦ rw t (keep e h.0, h.1)
  | inr t ↦ rw t (h.0, All-update P k f es keep h.1)
]

-- Of a filtered list, as of the list.
pub All-filter_by :
    (P : DigestEntry → Type 0) (p : DigestEntry → Bool) (es : List DigestEntry)
    → All P es
    → All P (filter_by p es)
All-filter_by P p [] h = tt
All-filter_by P p (e ∷ es) h = elim (Bool-cases (p e)) [
  | inl t ↦ rw t (h.0, All-filter_by P p es h.1)
  | inr t ↦ rw t (All-filter_by P p es h.1)
]

pub Absent-filter_by :
    (k : DigestKey) (p : DigestEntry → Bool) (es : List DigestEntry)
    → Absent k es
    → Absent k (filter_by p es)
Absent-filter_by k p [] h = tt
Absent-filter_by k p (e ∷ es) h = ground (arith, Absent-filter_by k p es h.1)

pub Distinct-filter_by :
    (p : DigestEntry → Bool) (es : List DigestEntry) → Distinct es → Distinct (filter_by p es)
Distinct-filter_by p [] h = tt
Distinct-filter_by p (e ∷ es) h =
    ground (arith, Distinct-filter_by p es h.1, Absent-filter_by e.key p es h.0)

-- Deleting the key of an entry makes the list shorter.
pub length-delete-lt :
    (v : DigestEntry) (es : List DigestEntry) → In v es → length (delete v.key es) < length es
unfolding delete
length-delete-lt v [] m = absurd m
length-delete-lt v (e ∷ es) (inl i) = ground (
  arith,
  (key_eq_iff e.key v.key).1,
  length-filter_by-le (λ x. not (key_eq x.key v.key)) es,
  ap (λ (x : DigestEntry). x.key) i,
)
length-delete-lt v (e ∷ es) (inr m) = ground (arith, length-delete-lt v es m)

pub Absent-delete : (k : DigestKey) (es : List DigestEntry) → Absent k (delete k es)
unfolding delete
Absent-delete k [] = tt
Absent-delete k (e ∷ es) = ground (arith, Absent-delete k es)

pub find-update :
    (j k : DigestKey) (f : DigestEntry → DigestEntry) (es : List DigestEntry)
    → ((e : DigestEntry) → (f e).key ≡ e.key)
    → find j (update k f es) ≡ (if key_eq k j then Option.map f (find j es) else find j es)
unfolding find update
find-update j k f [] same = ground arith
find-update j k f (e ∷ es) same = ground (
  arith,
  same e,
  find-update j k f es same,
  key_eq_iff e.key k,
  key_eq_iff e.key j,
  key_eq_iff k j,
)

pub find-delete :
    (j k : DigestKey) (es : List DigestEntry)
    → find j (delete k es) ≡ (if key_eq k j then none else find j es)
unfolding find delete
find-delete j k [] = ground arith
find-delete j k (e ∷ es) =
    ground (arith, find-delete j k es, key_eq_iff e.key k, key_eq_iff e.key j, key_eq_iff k j)
