-- ===== src/Detector/LockGraph/Cycles.antt =====
-- lock_chain.go: FindCycles and the circular waits of the graph.
use mysqlmonitoring.Prelude.{
  ℕ, ◌+◌, ◌≤◌, ◌<◌, ◌≡◌, ◌≢◌, refl, ◌↔◌, inl, inr, some, List, [], ◌∷◌, map, length, In, All,
  In-All, arith, subst,
}
use mysqlmonitoring.Detector.LockGraph.{
  LockGraph, in_stack, Colors, color, Search, visit_root, cycles_from, find_cycles, blockers,
}
use mysqlmonitoring.Detector.LockGraph.Edges.{Edge, waiters-key}
use mysqlmonitoring.Detector.LockGraph.Walks.{IsCycle, not-IsCycle}
use mysqlmonitoring.Detector.LockGraph.Dfs.{
  fresh_count, fresh_count-le, Color-cases, Grows-refl, Grows-trans, Grows-none, Visited, Looped,
}
use mysqlmonitoring.Detector.LockGraph.Visit.{dfs_cycles-Visits}

-- `order` lists the keys of Edges, in any order.
abbrev pub IsKeyOrder : List ℕ → LockGraph → Type 0
IsKeyOrder order g = (n : ℕ) → In n order ↔ In n (blockers g)

module _ (g : LockGraph) where
  -- Between two calls from FindCycles nothing is in the stack.
  abbrev Idle : Search → Type 0
  Idle s = (m : ℕ) → color s.visited m ≢ in_stack

  visit_root-Visited :
      (fuel node : ℕ) (s : Search)
      → Idle s
      → fresh_count (blockers g) s.visited < fuel
      → Visited g node s (visit_root fuel g node s)
  unfolding visit_root
  visit_root-Visited fuel node s idle room = elim (Color-cases (color s.visited node)) [
    | inl e ↦
        rw (e, visit_root) (dfs_cycles-Visits g fuel node [] s e tt (λ m h. absurd (idle m h)) room)
    | inr r ↦ elim r [
      | inl e ↦ absurd (idle node e)
      | inr e ↦ rw (e, visit_root) (s, refl, Grows-refl g s, λ _ safe. (safe, e))
    ]
  ]

  cycles_from-Looped :
      (fuel : ℕ) (order : List ℕ) (s : Search)
      → Idle s
      → fresh_count (blockers g) s.visited < fuel
      → Looped g order s (cycles_from fuel g order s)
  unfolding cycles_from
  cycles_from-Looped fuel [] s idle room = (s, refl, Grows-refl g s, λ _ safe. (safe, tt))
  cycles_from-Looped fuel (node ∷ rest) s idle room =
      let (t, first, grows, clean) = visit_root-Visited fuel node s idle room in
      let (u, others, grows', clean') =
        cycles_from-Looped fuel rest t (λ m e. idle m (grows.stack m e))
          (omega (arith, fresh_count-le (blockers g) s.visited t.visited grows.fresh)) in
      (
        u,
        rw first others,
        Grows-trans g s t u grows grows',
        λ e safe.
            let here = clean (Grows-none g t u grows' e) safe in
            let there = clean' e here.0 in (there.0, (grows'.kept node here.1, there.1)),
      )

  fresh_count-le-length :
      (es : List (ℕ × List ℕ)) (v : Colors) → fresh_count (map (λ e. e.0) es) v ≤ length es
  unfolding fresh_count
  fresh_count-le-length [] v = omega arith
  fresh_count-le-length (e ∷ es) v = ground (arith, fresh_count-le-length es v)

  abbrev start : Search
  start = record { visited = []; cycles = [] }

  start-Looped :
      (order : List ℕ) → Looped g order start (cycles_from (length g.edges + 1) g order start)
  unfolding color
  start-Looped order =
      cycles_from-Looped (length g.edges + 1) order start (λ m e. cc)
        (omega (arith, fresh_count-le-length g.edges []))

  -- FindCycles ends, whatever the graph and the order in which it meets the keys, and each list
  -- that it returns is a cycle: every process in it waits for the one before it, and the first for
  -- the last.
  pub find_cycles_sound :
      (order : List ℕ) → (cs : List (List ℕ)) × (find_cycles order g ≡ some cs) × All (IsCycle g) cs
  unfolding find_cycles
  find_cycles_sound order =
      let (t, found, grows, clean) = start-Looped order in
      (t.cycles, rw found, rw grows.found grows.cycles)

  edge-key : (x m : ℕ) → Edge g x m → In x (blockers g)
  edge-key x m edge = elim (waiters-key g x) [
    | inl e ↦ absurd (let h : In m [] = subst (In m) e edge in h)
    | inr key ↦ key
  ]

  cycle-key : (c : List ℕ) → IsCycle g c → (x : ℕ) × (r : List ℕ) × (c ≡ x ∷ r) × In x (blockers g)
  cycle-key [] c = absurd c
  cycle-key (x ∷ []) w = (x, [], refl, edge-key x x w.0)
  cycle-key (x ∷ y ∷ r) w = (x, y ∷ r, refl, edge-key x y w.0)

  -- If there is a circular wait, then FindCycles returns at least one cycle, in whatever order it
  -- meets the keys of the graph.
  pub find_cycles_complete :
      (order : List ℕ) (c : List ℕ) {cs : List (List ℕ)}
      → IsKeyOrder order g
      → IsCycle g c
      → find_cycles order g ≡ some cs
      → cs ≢ []
  unfolding find_cycles color
  find_cycles_complete order c keys cycle e none_found =
      let (t, found, grows, clean) = start-Looped order in
      let (x, r, is, key) = cycle-key c cycle in
      let result : t.cycles ≡ [] = cc (found, e, none_found) in
      let (safe, finished) = clean result (λ m h. cc) in
      not-IsCycle g x r (safe x (In-All _ order finished ((keys x).1 key)))
        (subst (IsCycle g) is cycle)
