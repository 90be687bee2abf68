-- ===== src/Collector/Digest/Polls.antt =====
-- digest.go: the baselines and the counts after a poll.
use mysqlmonitoring.Prelude.{
  ℕ, ◌+◌, ◌≤◌, ◌≡◌, ◌∙◌, ◌⊎◌, refl, inl, inr, Bool, true, false, Option, none, some, List, [], ◌∷◌,
  length, any_of, if◌then◌else◌, arith, Bool-cases,
}
use mysqlmonitoring.Prelude.Int.{ℤ}
use mysqlmonitoring.Series.Sample.{DigestKey, key_eq, key_eq_iff}
use mysqlmonitoring.Series.Registry.{DigestEntry, Registry}
use mysqlmonitoring.Collector.Digest.{
  DigestRow, DigestBaseline, Baselines, DigestCollector, Pass, row_key, find, store, baseline_of,
  switch, emit, seed, visit, visit_all, drop_unseen, is_first, start, poll, interval_since,
}

-- The baseline that the last of the rows with the key gives, or `o` if there is none.
abbrev pub last_of : ℕ → DigestKey → List DigestRow → Option DigestBaseline → Option DigestBaseline
last_of now k [] o = o
last_of now k (r ∷ rs) o =
    last_of now k rs (if key_eq (row_key r) k then some (baseline_of now r) else o)

find-store :
    (k j : DigestKey) (b : DigestBaseline) (bs : Baselines)
    → find k (store j b bs) ≡ (if key_eq j k then some b else find k bs)
unfolding find store
find-store k j b [] = refl
find-store k j b ((i, c) ∷ bs) =
    ground (arith, key_eq_iff i j, key_eq_iff i k, key_eq_iff j k, find-store k j b bs)

switch-baselines :
    (order : List DigestEntry) (first : Bool) (now : ℕ) (interval : ℤ) (r : DigestRow)
    → (o : Option DigestBaseline) (p : Pass)
    → (switch order first now interval r o p).baselines ≡ p.baselines
unfolding switch emit seed
switch-baselines order first now interval r none p = refl
switch-baselines order first now interval r (some b) p = ground arith

find-visit_all :
    (order : Registry → List DigestEntry) (first : Bool) (now : ℕ) (interval : ℤ)
    → (rs : List DigestRow) (p : Pass) (k : DigestKey)
    → find k (visit_all order first now interval rs p).baselines
      ≡ last_of now k rs (find k p.baselines)
unfolding visit_all visit
find-visit_all order first now interval [] p k = refl
find-visit_all order first now interval (r ∷ rs) p k =
    find-visit_all order first now interval rs (visit order first now interval r p) k
    ∙ rw
        (
          switch-baselines (order p.registry) first now interval r (find (row_key r) p.baselines) p,
          find-store k (row_key r) (baseline_of now r) p.baselines,
        )
        refl

find-drop_unseen :
    (k : DigestKey) (rows : List DigestRow) (bs : Baselines)
    → find k (drop_unseen rows bs)
      ≡ (if any_of (λ r. key_eq (row_key r) k) rows then find k bs else none)
unfolding find drop_unseen
find-drop_unseen k rows [] = ground arith
find-drop_unseen k rows ((j, b) ∷ bs) = elim (Bool-cases (key_eq j k)) [
  | inl e ↦ let same : j ≡ k = (key_eq_iff j k).0 e in ground (arith, find-drop_unseen k rows bs)
  | inr e ↦ ground (arith, find-drop_unseen k rows bs)
]

last_of-any :
    (now : ℕ) (k : DigestKey) (rs : List DigestRow) (o : Option DigestBaseline)
    → (if any_of (λ r. key_eq (row_key r) k) rs then last_of now k rs o else none)
      ≡ last_of now k rs none
last_of-any now k [] o = refl
last_of-any now k (r ∷ rs) o = elim (Bool-cases (key_eq (row_key r) k)) [
  | inl e ↦ rw e refl
  | inr e ↦ rw e (last_of-any now k rs o)
]

-- A collector that has not polled has no baseline.
abbrev pub IsFresh : DigestCollector → Type 0
IsFresh c = (is_first c.last_poll ≡ false) ⊎ (c.baselines ≡ [])

-- After a poll of a collector that has no baseline before its first poll, the baseline of a key is
-- the one of the last row with this key, and a key without a row has none; the collector has then
-- polled.
pub find-poll :
    (order : Registry → List DigestEntry) (c : DigestCollector) (now : ℕ) (rows : List DigestRow)
    → (k : DigestKey) → IsFresh c
    → (find k (poll order c now rows).0.baselines ≡ last_of now k rows none)
      × IsFresh (poll order c now rows).0
unfolding poll find
find-poll order c now rows k fresh = (
  elim (Bool-cases (is_first c.last_poll)) [
    | inl e ↦
        let none_yet : find k c.baselines ≡ none = elim fresh [
          | inl f ↦ ground arith
          | inr f ↦ rw f refl
        ] in
        rw e (find-visit_all order true now _ rows (start c) k ∙ rw none_yet refl)
    | inr e ↦ rw e (
        find-drop_unseen k rows _
        ∙ rw (find-visit_all order false now (interval_since now c.last_poll) rows (start c) k)
            (last_of-any now k rows (find k c.baselines)))
  ],
  inl refl,
)

-- The rows that the counts of a pass account for.
abbrev pub counted : Pass → ℕ
counted p = p.emitted_samples + p.reset_skips + p.baseline_seeded

switch-counted :
    (order : List DigestEntry) (first : Bool) (now : ℕ) (interval : ℤ) (r : DigestRow)
    → (o : Option DigestBaseline) (p : Pass)
    → counted (switch order first now interval r o p) ≤ counted p + 1
unfolding switch emit seed
switch-counted order first now interval r none p = omega arith
switch-counted order first now interval r (some b) p = ground arith

visit_all-counted :
    (order : Registry → List DigestEntry) (first : Bool) (now : ℕ) (interval : ℤ)
    → (rs : List DigestRow) (p : Pass)
    → counted (visit_all order first now interval rs p) ≤ counted p + length rs
unfolding visit_all visit
visit_all-counted order first now interval [] p = omega arith
visit_all-counted order first now interval (r ∷ rs) p =
    let one =
      switch-counted (order p.registry) first now interval r (find (row_key r) p.baselines) p in
    let rest = visit_all-counted order first now interval rs (visit order first now interval r p) in
    omega arith

switch-seeded :
    (order : List DigestEntry) (now : ℕ) (interval : ℤ) (r : DigestRow)
    → (o : Option DigestBaseline) (p : Pass)
    → switch order true now interval r o p ≡ seed order now r p
unfolding switch
switch-seeded order now interval r none p = refl
switch-seeded order now interval r (some b) p = refl

visit_all-seeded :
    (order : Registry → List DigestEntry) (now : ℕ) (interval : ℤ) (rs : List DigestRow) (p : Pass)
    → (visit_all order true now interval rs p).baseline_seeded ≡ p.baseline_seeded + length rs
unfolding visit_all visit seed
visit_all-seeded order now interval [] p = omega arith
visit_all-seeded order now interval (r ∷ rs) p =
    visit_all-seeded order now interval rs (visit order true now interval r p)
    ∙ rw (switch-seeded (order p.registry) now interval r (find (row_key r) p.baselines) p)
        (omega arith)

-- The samples emitted, the resets skipped and the baselines seeded by a poll are together at most
-- as many as its rows, so that no row is counted twice.
pub poll-counts :
    (order : Registry → List DigestEntry) (c : DigestCollector) (now : ℕ) (rows : List DigestRow)
    → (poll order c now rows).1.emitted_samples
        + (poll order c now rows).1.reset_skips
        + (poll order c now rows).1.baseline_seeded
      ≤ (poll order c now rows).1.seen_digests
unfolding poll
poll-counts order c now rows =
    let bound =
      visit_all-counted order (is_first c.last_poll) now (interval_since now c.last_poll) rows
        (start c) in
    omega arith

-- The first poll seeds a baseline for every row, emits no sample and skips no reset.
pub poll_first :
    (order : Registry → List DigestEntry) (c : DigestCollector) (now : ℕ) (rows : List DigestRow)
    → is_first c.last_poll ≡ true
    → ((poll order c now rows).1.baseline_seeded ≡ length rows)
      × ((poll order c now rows).1.emitted_samples ≡ 0)
      × ((poll order c now rows).1.reset_skips ≡ 0)
unfolding poll
poll_first order c now rows e =
    let seeded = visit_all-seeded order now (interval_since now c.last_poll) rows (start c) in
    let bound = visit_all-counted order true now (interval_since now c.last_poll) rows (start c) in
    rw e (omega arith, omega arith, omega arith)
