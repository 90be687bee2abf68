-- ===== src/Detector/LockChains/Chains.antt =====
-- lock_chain.go: FindChains and the walks from the root blockers.
use mysqlmonitoring.Prelude.{
  ℕ, ◌+◌, ◌≤◌, ◌<◌, ◌≡◌, refl, sym, ◌↔◌, inl, inr, false, not, some, List, [], ◌∷◌, ◌++◌, map,
  length, In, In-filter_by, All, arith, subst,
}
use mysqlmonitoring.Detector.LockGraph.{LockGraph, blockers}
use mysqlmonitoring.Detector.LockGraph.Walks.{Walk}
use mysqlmonitoring.Detector.LockGraph.Cycles.{IsKeyOrder}
use mysqlmonitoring.Detector.LockChains.{is_marked, is_waiter, roots, chains_from, find_chains}
use mysqlmonitoring.Detector.LockChains.Marks.{
  free_count, IsChain, AllNew, Covered, Covered_left, Covered_right,
}
use mysqlmonitoring.Detector.LockChains.Visit.{dfs_chains-Visits}

module _ (g : LockGraph) where
  -- A root blocker: it blocks some process, and waits for none.
  abbrev pub IsRoot : ℕ → Type 0
  IsRoot n = In n (blockers g) × (is_waiter g.wait_info n ≡ false)

  free_count-le-length :
      (es : List (ℕ × List ℕ)) (v : List ℕ) → free_count (map (λ e. e.0) es) v ≤ length es
  unfolding free_count
  free_count-le-length [] v = omega arith
  free_count-le-length (e ∷ es) v = ground (arith, free_count-le-length es v)

  -- What FindChains returns for the roots `rs`.
  record Listed (rs : List ℕ) (cs : List (List ℕ)) : Type 0 where
    sound : All (λ c. (root : ℕ) × In root rs × IsChain g (root ∷ []) c) cs
    complete :
        (root : ℕ) (q : List ℕ)
        → In root rs
        → Walk g (root ∷ q)
        → AllNew g [] (root ∷ q)
        → Covered g (root ∷ q) cs

  All-map :
      (P Q : List ℕ → Type 0)
      → ((c : List ℕ) → P c → Q c)
      → (cs : List (List ℕ)) → All P cs
      → All Q cs
  All-map P Q f [] h = tt
  All-map P Q f (c ∷ cs) h = (f c h.0, All-map P Q f cs h.1)

  All-append :
      (P : List ℕ → Type 0) (cs ds : List (List ℕ)) → All P cs → All P ds → All P (cs ++ ds)
  All-append P [] ds hc hd = hd
  All-append P (c ∷ cs) ds hc hd = (hc.0, All-append P cs ds hc.1 hd)

  chains_from-Listed :
      (fuel : ℕ) (rs : List ℕ)
      → free_count (blockers g) [] < fuel
      → (cs : List (List ℕ)) × (chains_from fuel g rs ≡ some cs) × Listed rs cs
  unfolding chains_from is_marked
  chains_from-Listed fuel [] room =
      ([], refl, record { sound = tt; complete = λ root q m. absurd m })
  chains_from-Listed fuel (root ∷ rest) room =
      let (f, first, a) = dfs_chains-Visits g fuel [] root [] refl tt (λ m h. cc) room in
      let (cs, others, b) = chains_from-Listed fuel rest room in
      (
        f.0 ++ cs,
        rw (first, others),
        record {
          sound =
              All-append _ f.0 cs (All-map _ _ (λ c h. (root, inl refl, h)) f.0 a.chains)
                (All-map _ _ (λ c h. (h.0, inr h.1, h.2)) cs b.sound);
          complete = λ r q m. elim m [
            | inl e ↦ λ walk fresh. Covered_left g (r ∷ q) f.0 cs (
                subst (λ k. Walk g (k ∷ q) → AllNew g [] (k ∷ q) → Covered g (k ∷ q) f.0) (sym e)
                  (a.covers q) walk fresh)
            | inr m' ↦ λ walk fresh. Covered_right g (r ∷ q) f.0 cs (b.complete r q m' walk fresh)
          ];
        },
      )

  IsRoot-iff : (order : List ℕ) → IsKeyOrder order g → (n : ℕ) → In n (roots order g) ↔ IsRoot n
  unfolding roots
  IsRoot-iff order keys n =
      let both = In-filter_by (λ b. not (is_waiter g.wait_info b)) n order in
      (
        (λ m. ((keys n).0 (both.0 m).0, ground (arith, (both.0 m).1))),
        λ r. both.1 ((keys n).1 r.0, ground (arith, r.1)),
      )

  listed :
      (order : List ℕ)
      → (cs : List (List ℕ)) × (find_chains order g ≡ some cs) × Listed (roots order g) cs
  unfolding find_chains
  listed order =
      chains_from-Listed (length g.edges + 1) (roots order g)
        (omega (arith, free_count-le-length g.edges []))

  -- FindChains ends, in whatever order it meets the keys of the graph, and each chain that it
  -- returns begins at a root blocker (a process that blocks another and waits for none), follows
  -- the waits, and ends at a process for which nobody waits or that stands in the chain already.
  pub find_chains_sound :
      (order : List ℕ)
      → IsKeyOrder order g
      → (cs : List (List ℕ)) × (find_chains order g ≡ some cs)
        × All (λ c. (root : ℕ) × IsRoot root × IsChain g (root ∷ []) c) cs
  find_chains_sound order keys =
      let (cs, found, l) = listed order in
      (cs, found, All-map _ _ (λ c h. (h.0, (IsRoot-iff order keys h.0).0 h.1, h.2)) cs l.sound)

  -- No wait is lost: each walk from a root blocker that meets no process twice is the beginning of
  -- some chain that FindChains returns.
  pub find_chains_complete :
      (order : List ℕ) (root : ℕ) (q : List ℕ) {cs : List (List ℕ)}
      → IsKeyOrder order g
      → find_chains order g ≡ some cs
      → IsRoot root
      → Walk g (root ∷ q)
      → AllNew g [] (root ∷ q)
      → Covered g (root ∷ q) cs
  find_chains_complete order root q {cs} keys e r walk fresh =
      let (ds, found, l) = listed order in
      subst (Covered g (root ∷ q)) {x = ds} (cc (found, e))
        (l.complete root q ((IsRoot-iff order keys root).1 r) walk fresh)
