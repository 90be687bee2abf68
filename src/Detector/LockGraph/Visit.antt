-- ===== src/Detector/LockGraph/Visit.antt =====
-- lock_chain.go: dfsCycles, its fuel and its colours.
use mysqlmonitoring.Prelude.{
  ℕ, zero, suc, ◌<◌, ◌≡◌, refl, ◌⊎◌, inl, inr, ◌==◌, Option, some, List, [], ◌∷◌, ◌++◌, drop, In,
  In-append_left, In-append_right, All, All-In, In-All, arith, Bool-cases, subst,
}
use mysqlmonitoring.Detector.LockGraph.{
  LockGraph, unvisited, in_stack, done, color, Search, paint, index_of, add_cycle, visit_next,
  cycles_loop, dfs_cycles, waiters, blockers,
}
use mysqlmonitoring.Detector.LockGraph.Edges.{Edge, waiters-key}
use mysqlmonitoring.Detector.LockGraph.Walks.{Walk, IsSafe, safe, Walk-snoc, IsCycle-drop}
use mysqlmonitoring.Detector.LockGraph.Dfs.{
  fresh_count, fresh_count-le, fresh_count-lt, Color-cases, Grows, Grows-refl, Grows-trans,
  Grows-none, AllSafe, StackOn, Visited, Looped, Visits,
}

In-index_of : (n : ℕ) (path : List ℕ) → In n path → (i : ℕ) × (index_of n path ≡ some i)
unfolding index_of
In-index_of n [] m = absurd m
In-index_of n (k ∷ path) (inl e) = (0, ground arith)
In-index_of n (k ∷ path) (inr m) =
    let (i, found) = In-index_of n path m in
    elim (Bool-cases (k == n)) [ inl t ↦ (0, rw t) | inr f ↦ (suc i, rw (f, found)) ]

not-append-nil : (xs : List (List ℕ)) (c : List ℕ) → xs ++ c ∷ [] ≡ [] → ⊥
not-append-nil [] c e = cc
not-append-nil (x ∷ xs) c e = cc

module _ (g : LockGraph) where
  add_cycle-Visited :
      (path : List ℕ) (next : ℕ) (s : Search)
      → Walk g (path ++ next ∷ [])
      → In next path
      → Visited g next s (some (add_cycle next path s))
  unfolding add_cycle
  add_cycle-Visited path next s walk m =
      let (i, found) = In-index_of next path m in
      (
        record s { cycles = s.cycles ++ drop i path ∷ [] },
        rw (found, add_cycle),
        record {
          stack = λ m e. e;
          kept = λ m e. e;
          fresh = λ m e. e;
          added = drop i path ∷ [];
          found = refl;
          cycles = (IsCycle-drop g next i path found walk, tt);
        },
        λ none_found _. absurd (not-append-nil s.cycles (drop i path) none_found),
      )

  visit_next-Visited :
      (fuel : ℕ) (visit : ℕ → List ℕ → Search → Option Search)
      → Visits g fuel visit
      → (path : List ℕ) (next : ℕ) (s : Search) → Walk g (path ++ next ∷ [])
      → StackOn g s path
      → fresh_count (blockers g) s.visited < fuel
      → Visited g next s (visit_next visit path next s)
  unfolding visit_next
  visit_next-Visited fuel visit ok path next s walk on room =
      elim (Color-cases (color s.visited next)) [
        | inl e ↦ rw (e, visit_next) (ok next path s e walk on room)
        | inr r ↦ elim r [
          | inl e ↦ rw (e, visit_next) (add_cycle-Visited path next s walk (on next e))
          | inr e ↦ rw (e, visit_next) (s, refl, Grows-refl g s, λ _ safe. (safe, e))
        ]
      ]

  cycles_loop-Looped :
      (fuel : ℕ) (visit : ℕ → List ℕ → Search → Option Search)
      → Visits g fuel visit
      → (path : List ℕ) (cur : ℕ) (ws : List ℕ) (s : Search) → Walk g (path ++ cur ∷ [])
      → All (Edge g cur) ws
      → StackOn g s (path ++ cur ∷ [])
      → (ws ≡ []) ⊎ (fresh_count (blockers g) s.visited < fuel)
      → Looped g ws s (cycles_loop visit (path ++ cur ∷ []) ws s)
  unfolding cycles_loop
  cycles_loop-Looped fuel visit ok path cur [] s walk es on room =
      (s, refl, Grows-refl g s, λ _ safe. (safe, tt))
  cycles_loop-Looped fuel visit ok path cur (w ∷ ws) s walk es on room =
      let enough : fresh_count (blockers g) s.visited < fuel = elim room [
        | inl e ↦ cc
        | inr h ↦ h
      ] in
      let (t, first, grows, clean) =
        visit_next-Visited fuel visit ok (path ++ cur ∷ []) w s (Walk-snoc g path cur w walk es.0)
          on enough in
      let (u, rest, grows', clean') =
        cycles_loop-Looped fuel visit ok path cur ws t walk es.1 (λ m e. on m (grows.stack m e))
          (inr (omega (arith, fresh_count-le (blockers g) s.visited t.visited grows.fresh))) in
      (
        u,
        rw first rest,
        Grows-trans g s t u grows grows',
        λ e safe.
            let here = clean (Grows-none g t u grows' e) safe in
            let there = clean' e here.0 in (there.0, (grows'.kept w here.1, there.1)),
      )

  -- Entering a node puts it in the stack and leaves fewer nodes unvisited.
  enter-StackOn :
      (path : List ℕ) (node : ℕ) (s : Search)
      → StackOn g s path
      → StackOn g (paint node in_stack s) (path ++ node ∷ [])
  unfolding color
  enter-StackOn path node s on m e = elim (Bool-cases (node == m)) [
    | inl t ↦ In-append_right m path (node ∷ []) (inl (ground (arith, t)))
    | inr f ↦ In-append_left m path (node ∷ []) (on m (rw f at e))
  ]

  enter_room :
      (fuel node : ℕ) (s : Search)
      → color s.visited node ≡ unvisited
      → fresh_count (blockers g) s.visited < suc fuel
      → (waiters g node ≡ []) ⊎ (fresh_count (blockers g) (paint node in_stack s).visited < fuel)
  unfolding color
  enter_room fuel node s e room = elim (waiters-key g node) [
    | inl none_wait ↦ inl none_wait
    | inr key ↦ inr (
        omega (
          arith,
          fresh_count-lt (blockers g) s.visited (paint node in_stack s).visited node
              (λ m h. ground (arith, h)) key e (ground arith),
        ))
  ]

  -- Leaving a node, after a loop that left the state `t`.
  leave-Grows :
      (node : ℕ) (s t : Search)
      → color s.visited node ≡ unvisited
      → Grows g (paint node in_stack s) t
      → Grows g s (paint node done t)
  unfolding color
  leave-Grows node s t e a = record {
    stack = λ m h. ground (arith, a.stack m);
    kept = λ m h. ground (arith, a.kept m);
    fresh = λ m h. ground (arith, a.fresh m);
    added = a.added;
    found = a.found;
    cycles = a.cycles;
  }

  enter-AllSafe : (node : ℕ) (s : Search) → AllSafe g s → AllSafe g (paint node in_stack s)
  unfolding color
  enter-AllSafe node s all m e = all m (ground arith)

  leave-AllSafe :
      (node : ℕ) (t : Search) → AllSafe g t → IsSafe g node → AllSafe g (paint node done t)
  unfolding color
  leave-AllSafe node t all ok m e = elim (Bool-cases (node == m)) [
    | inl h ↦ subst (IsSafe g) {x = node} (ground arith) ok
    | inr h ↦ all m (rw h at e)
  ]

  left_done : (node : ℕ) (t : Search) → color (paint node done t).visited node ≡ done
  unfolding color
  left_done node t = ground arith

  IsSafe-of_waiters :
      (node : ℕ) (t : Search)
      → AllSafe g t
      → All (λ w. color t.visited w ≡ done) (waiters g node)
      → IsSafe g node
  IsSafe-of_waiters node t all ws = safe node (λ m edge. all m (In-All _ (waiters g node) ws edge))

  all_edges : (node : ℕ) → All (Edge g node) (waiters g node)
  all_edges node = All-In _ (waiters g node) (λ w m. m)

  pub dfs_cycles-Visits : (fuel : ℕ) → Visits g fuel (dfs_cycles fuel g)
  unfolding dfs_cycles
  dfs_cycles-Visits zero node path s e walk on room = absurd (omega arith)
  dfs_cycles-Visits (suc fuel) node path s e walk on room =
      let (t, looped, grows, clean) =
        cycles_loop-Looped fuel (dfs_cycles fuel g) (dfs_cycles-Visits fuel) path node
          (waiters g node) (paint node in_stack s) walk (all_edges node)
          (enter-StackOn path node s on) (enter_room fuel node s e room) in
      (
        paint node done t,
        rw looped,
        leave-Grows node s t e grows,
        λ none_found all.
            let after = clean none_found (enter-AllSafe node s all) in
            (
              leave-AllSafe node t after.0 (IsSafe-of_waiters node t after.0 after.1),
              left_done node t,
            ),
      )
