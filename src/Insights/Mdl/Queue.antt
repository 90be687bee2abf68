-- ===== src/Insights/Mdl/Queue.antt =====
-- mdl.go: positions and blockers within one table's queue.
use mysqlmonitoring.Prelude.{
  ℕ, ◌+◌, ◌≡◌, ◌≢◌, refl, ap, ◌⊎◌, inl, inr, ◌==◌, true, false, none, some, List, [], ◌∷◌, ◌++◌,
  length, All, arith, Bool-cases, Option-cases, subst,
}
use mysqlmonitoring.Prelude.Int.{◌≤ℤ◌}
use mysqlmonitoring.Prelude.Sort.{IsSorted}
use mysqlmonitoring.Insights.Mdl.{MdlEntry, MdlQueue, waits_longer, rank_from, position_of}

-- Oldest waiter first.
abbrev pub IsQueued : MdlQueue → Type 0
IsQueued q = IsSorted waits_longer q.pending

-- `front` is the part of the queue before the first entry with the PID, which is `e`.
pub record Position (pid : ℕ) (es : List MdlEntry) (rank : ℕ) : Type 0 where
  pub front : List MdlEntry
  pub entry : MdlEntry
  pub back : List MdlEntry
  pub parts : es ≡ front ++ entry ∷ back
  pub found : entry.pid ≡ pid
  pub first : All (λ x. x.pid ≢ pid) front
  pub counted : rank ≡ length front + 1

rank_from-Position :
    (i pid : ℕ) (es : List MdlEntry) (rank : ℕ)
    → rank_from i pid es ≡ some rank
    → (k : ℕ) × (rank ≡ i + k) × Position pid es k
unfolding rank_from
rank_from-Position i pid [] rank h = cc
rank_from-Position i pid (e ∷ es) rank h = elim (Bool-cases (e.pid == pid)) [
  | inl t ↦ (
    1,
    ground arith,
    record {
      front = [];
      entry = e;
      back = es;
      parts = refl;
      found = ground arith;
      first = tt;
      counted = omega arith;
    },
  )
  | inr f ↦
      let (k, sum, p) = rank_from-Position (i + 1) pid es rank (rw f at h) in
      (
        k + 1,
        omega arith,
        record {
          front = e ∷ p.front;
          entry = p.entry;
          back = p.back;
          parts = ap (λ t. e ∷ t) p.parts;
          found = p.found;
          first = ((λ q. ground arith), p.first);
          counted = omega (arith, p.counted);
        },
      )
]

rank_from-none :
    (i pid : ℕ) (es : List MdlEntry) → rank_from i pid es ≡ none → All (λ x. x.pid ≢ pid) es
unfolding rank_from
rank_from-none i pid [] h = tt
rank_from-none i pid (e ∷ es) h = elim (Bool-cases (e.pid == pid)) [
  | inl t ↦ absurd (ground (arith, h))
  | inr f ↦ ((λ q. ground arith), rank_from-none (i + 1) pid es (rw f at h))
]

sorted_front :
    (front : List MdlEntry) (e : MdlEntry) (back : List MdlEntry)
    → IsSorted waits_longer (front ++ e ∷ back)
    → All (λ x. e.wait_seconds ≤ℤ x.wait_seconds) front
sorted_front [] e back s = tt
sorted_front (x ∷ front) e back s = (oldest x front s.0, sorted_front front e back s.1)
  where
    oldest :
        (x : MdlEntry) (front : List MdlEntry)
        → All (λ y. waits_longer y x ≡ false) (front ++ e ∷ back)
        → e.wait_seconds ≤ℤ x.wait_seconds
    oldest x [] a = ground (arith, a.0)
    oldest x (y ∷ front) a = oldest x front a.1

-- PositionOf, when the queue is sorted as BuildMDL leaves it. If it says that the PID is pending,
-- then its rank counts the entries before the first with this PID, and itself; none of those has
-- the PID, and each of them has waited at least as long. If it says that the PID is not pending,
-- then no pending entry has it, and the rank is 0. The total is the length of the queue.
pub position_of-IsQueued :
    (q : MdlQueue) (pid : ℕ)
    → IsQueued q
    → ((position_of q pid).1 ≡ length q.pending)
      × (((position_of q pid).2 ≡ true)
            × ((p : Position pid q.pending (position_of q pid).0) × All
                  (λ x. p.entry.wait_seconds ≤ℤ x.wait_seconds)
                  p.front)
          ⊎ ((position_of q pid).2 ≡ false)
            × ((position_of q pid).0 ≡ 0)
            × All (λ x. x.pid ≢ pid) q.pending)
unfolding position_of
position_of-IsQueued q pid s = elim (Option-cases (rank_from 0 pid q.pending)) [
  | inl e ↦ rw (e, position_of) (refl, inr (refl, refl, rank_from-none 0 pid q.pending e))
  | inr (rank, e) ↦
      let (k, sum, p) = rank_from-Position 0 pid q.pending rank e in
      rw (e, position_of)
        (
          refl,
          inl (
            refl,
            (
              record {
                front = p.front;
                entry = p.entry;
                back = p.back;
                parts = p.parts;
                found = p.found;
                first = p.first;
                counted = omega (arith, p.counted, sum);
              },
              sorted_front p.front p.entry p.back (subst (IsSorted waits_longer) p.parts s),
            ),
          ),
        )
]
