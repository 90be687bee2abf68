-- ===== src/Series/Registry/Evict.antt =====
-- registry.go: whom the eviction removes, for every order in which the loop may meet the entries.
use mysqlmonitoring.Prelude.{
  ℕ, ◌+◌, ◌%◌, ◌^◌, ◌≤◌, ◌≡◌, ◌∙◌, refl, ◌↔◌, ◌⊎◌, inl, inr, Bool, true, false, Option, none, some,
  List, [], ◌∷◌, In,
}
use mysqlmonitoring.Series.Registry.{
  Registry, DigestEntry, Candidates, older, lighter, is_protected, scan, choose, evict, delete,
}
use mysqlmonitoring.Series.Registry.Minimum.{
  keep_smaller, smallest, IsSmallest, smallest-IsSmallest,
}

-- `order` lists the entries of the map, in any order.
abbrev pub IsOrder : List DigestEntry → List DigestEntry → Type 0
IsOrder order entries = (e : DigestEntry) → In e order ↔ In e entries

module _ (r : Registry) (now : ℕ) where
  lighter-keep :
      (e : DigestEntry) (o : Option DigestEntry)
      → lighter e o ≡ keep_smaller (λ x. x.load_picos) (is_protected r now) e o
  unfolding lighter
  lighter-keep e none = refl
  lighter-keep e (some v) = refl

  older-keep :
      (e : DigestEntry) (o : Option DigestEntry)
      → older e o ≡ keep_smaller (λ x. x.first_seen) (λ _. false) e o
  unfolding older
  older-keep e none = refl
  older-keep e (some v) = refl

  scan-victim :
      (es : List DigestEntry) (c : Candidates)
      → (scan r now es c).victim ≡ smallest (λ x. x.load_picos) (is_protected r now) es c.victim
  unfolding scan smallest
  scan-victim [] c = refl
  scan-victim (e ∷ es) c = scan-victim es _ ∙ rw lighter-keep

  scan-fallback :
      (es : List DigestEntry) (c : Candidates)
      → (scan r now es c).fallback ≡ smallest (λ x. x.first_seen) (λ _. false) es c.fallback
  unfolding scan smallest
  scan-fallback [] c = refl
  scan-fallback (e ∷ es) c = scan-fallback es _ ∙ rw older-keep

  -- The entry that the loop settles on.
  abbrev pub IsVictim : List DigestEntry → DigestEntry → Type 0
  IsVictim entries v =
      ((is_protected r now v ≡ false)
        × ((e : DigestEntry)
            → In e entries
            → is_protected r now e ≡ false
            → v.load_picos ≤ e.load_picos))
      ⊎ (((e : DigestEntry) → In e entries → is_protected r now e ≡ true)
          × ((e : DigestEntry) → In e entries → v.first_seen ≤ e.first_seen))

  abbrev pub nothing_yet : Candidates
  nothing_yet = record { victim = none; fallback = none }

  -- What the whole loop keeps by one of its two tests.
  abbrev Kept :
      (DigestEntry → ℕ) → (DigestEntry → Bool) → List DigestEntry → Option DigestEntry → Type 0
  Kept measure skip order o = IsSmallest measure skip (λ x. In x order ⊎ ⊥) o

  victim-Kept :
      (order : List DigestEntry)
      → Kept (λ x. x.load_picos) (is_protected r now) order (scan r now order nothing_yet).victim
  victim-Kept order =
      rw (scan-victim order nothing_yet)
        (smallest-IsSmallest _ _ (λ _. ⊥) order none (inl (refl, λ x f. absurd f)))

  fallback-Kept :
      (order : List DigestEntry)
      → Kept (λ x. x.first_seen) (λ _. false) order (scan r now order nothing_yet).fallback
  fallback-Kept order =
      rw (scan-fallback order nothing_yet)
        (smallest-IsSmallest _ _ (λ _. ⊥) order none (inl (refl, λ x f. absurd f)))

  in_order : (e : DigestEntry) (order : List DigestEntry) → In e order ⊎ ⊥ → In e order
  in_order e order (inl m) = m
  in_order e order (inr f) = absurd f

  abbrev Chosen : List DigestEntry → Option DigestEntry → Type 0
  Chosen order o = (v : DigestEntry) × (o ≡ some v) × In v order × IsVictim order v

  choose-Chosen :
      (order : List DigestEntry) (c : Candidates) (e₀ : DigestEntry)
      → In e₀ order
      → Kept (λ x. x.load_picos) (is_protected r now) order c.victim
      → Kept (λ x. x.first_seen) (λ _. false) order c.fallback
      → Chosen order (choose c)
  unfolding choose
  choose-Chosen order c e₀ m (inr (v, e, p, s, low)) kf =
      (v, rw (e, choose), in_order v order p, inl (s, λ x q u. low x (inl q) u))
  choose-Chosen order c e₀ m (inl (n, all)) (inl (n', none_left)) =
      absurd (cc (none_left e₀ (inl m)))
  choose-Chosen order c e₀ m (inl (n, all)) (inr (v, e, p, s, low)) = (
    v,
    rw (n, choose) e,
    in_order v order p,
    inr ((λ x q. all x (inl q)), λ x q. low x (inl q) refl),
  )

IsVictim-same :
    (r : Registry) (now : ℕ) (xs ys : List DigestEntry) (v : DigestEntry)
    → ((e : DigestEntry) → In e ys → In e xs)
    → IsVictim r now xs v
    → IsVictim r now ys v
IsVictim-same r now xs ys v from (inl (s, low)) = inl (s, λ e m. low e (from e m))
IsVictim-same r now xs ys v from (inr (all, low)) =
    inr ((λ e m. all e (from e m)), λ e m. low e (from e m))

-- An eviction from a map with an entry removes the entries of one key and counts one, in whatever
-- order the loop meets the entries: an entry past its protection that has the least load of these,
-- or, when every entry is protected, one that was seen first.
pub evict-IsVictim :
    (order : List DigestEntry) (r : Registry) (now : ℕ) (e₀ : DigestEntry)
    → IsOrder order r.entries
    → In e₀ r.entries
    → (v : DigestEntry) × In v r.entries
      × IsVictim r now r.entries v
      × (evict order r now
          ≡ record r { entries = delete v.key r.entries; evicted = (r.evicted + 1) % 2 ^ 64 })
unfolding evict
evict-IsVictim order r now e₀ same m =
    let (v, chosen, inside, best) =
      choose-Chosen r now order (scan r now order (nothing_yet r now)) e₀ ((same e₀).1 m)
        (victim-Kept r now order) (fallback-Kept r now order) in
    (
      v,
      (same v).0 inside,
      IsVictim-same r now order r.entries v (λ e. (same e).1) best,
      rw (chosen, evict),
    )
