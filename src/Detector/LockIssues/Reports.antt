-- ===== src/Detector/LockIssues/Reports.antt =====
-- lock_chain.go: what Detect reports of the lock waits.
use mysqlmonitoring.Prelude.{
  ℕ, ◌≡◌, ◌≢◌, refl, ◌⊎◌, inl, inr, some, List, [], ◌∷◌, ◌++◌, map, In, In-append_right, All,
}
use mysqlmonitoring.Db.{LockWait, Snapshot}
use mysqlmonitoring.Detector.Issues.{critical, Issue}
use mysqlmonitoring.Detector.LockGraph.{LockGraph, build_lock_graph, find_cycles}
use mysqlmonitoring.Detector.LockGraph.Walks.{IsCycle}
use mysqlmonitoring.Detector.LockGraph.Edges.{Edge-build_lock_graph}
use mysqlmonitoring.Detector.LockGraph.Cycles.{IsKeyOrder, find_cycles_sound, find_cycles_complete}
use mysqlmonitoring.Detector.LockChains.Marks.{IsChain}
use mysqlmonitoring.Detector.LockChains.Chains.{IsRoot, find_chains_sound}
use mysqlmonitoring.Detector.LockIssues.{
  LockChainDetector, chain_issue, chain_issues, cycle_issue, issues_of, issues_in, detect,
}

-- The issue is that of a chain of at least two processes from a root blocker, or of a cycle.
abbrev pub IsFounded : LockChainDetector → LockGraph → Issue → Type 0
IsFounded d g i =
    ((r : ℕ) × (first : ℕ) × (rest : List ℕ) × (root : ℕ) × IsRoot g root
      × IsChain g (root ∷ []) (r ∷ first ∷ rest)
      × (i ≡ chain_issue d g r first rest))
    ⊎ ((c : List ℕ) × IsCycle g c × (i ≡ cycle_issue c))

chain_issues-IsFounded :
    (d : LockChainDetector) (g : LockGraph) (chains : List (List ℕ))
    → All (λ c. (root : ℕ) × IsRoot g root × IsChain g (root ∷ []) c) chains
    → All (IsFounded d g) (chain_issues d g chains)
unfolding chain_issues
chain_issues-IsFounded d g [] a = tt
chain_issues-IsFounded d g ([] ∷ chains) a = chain_issues-IsFounded d g chains a.1
chain_issues-IsFounded d g ((r ∷ []) ∷ chains) a = chain_issues-IsFounded d g chains a.1
chain_issues-IsFounded d g ((r ∷ first ∷ rest) ∷ chains) a =
    let (root, is, chain) = a.0 in
    (inl (r, first, rest, root, is, chain, refl), chain_issues-IsFounded d g chains a.1)

append_cycles-IsFounded :
    (d : LockChainDetector) (g : LockGraph) (xs : List Issue) (cycles : List (List ℕ))
    → All (IsFounded d g) xs
    → All (IsCycle g) cycles
    → All (IsFounded d g) (xs ++ map cycle_issue cycles)
append_cycles-IsFounded d g [] [] a b = tt
append_cycles-IsFounded d g [] (c ∷ cs) a b =
    (inr (c, b.0, refl), append_cycles-IsFounded d g [] cs a b.1)
append_cycles-IsFounded d g (x ∷ xs) cs a b = (a.0, append_cycles-IsFounded d g xs cs a.1 b)

-- What the two searches give, and the issues that are made of it.
abbrev Parts : LockChainDetector → List ℕ → List ℕ → LockGraph → Type 0
Parts d roots keys g =
    (chains : List (List ℕ)) × (cycles : List (List ℕ)) × (issues_of d roots keys g
      ≡ some (chain_issues d g chains ++ map cycle_issue cycles))
    × All (λ c. (root : ℕ) × IsRoot g root × IsChain g (root ∷ []) c) chains
    × (find_cycles keys g ≡ some cycles)
    × All (IsCycle g) cycles

parts :
    (d : LockChainDetector) (roots keys : List ℕ) (g : LockGraph)
    → IsKeyOrder roots g
    → Parts d roots keys g
unfolding issues_of
parts d roots keys g order =
    let (chains, e, a) = find_chains_sound g roots order in
    let (cycles, f, b) = find_cycles_sound g keys in (chains, cycles, rw (e, f) refl, a, f, b)

issues_in_sound :
    (d : LockChainDetector) (roots keys : List ℕ) (ws : List LockWait)
    → IsKeyOrder roots (build_lock_graph ws)
    → (is : List Issue) × (issues_in d roots keys ws ≡ some is)
      × All (IsFounded d (build_lock_graph ws)) is
unfolding issues_in
issues_in_sound d roots keys [] order = ([], refl, tt)
issues_in_sound d roots keys (w ∷ ws) order =
    let g = build_lock_graph (w ∷ ws) in
    let (chains, cycles, e, a, f, b) = parts d roots keys g order in
    (
      chain_issues d g chains ++ map cycle_issue cycles,
      e,
      append_cycles-IsFounded d g (chain_issues d g chains) cycles
          (chain_issues-IsFounded d g chains a) b,
    )

-- The graph of a snapshot.
abbrev pub graph_of : Snapshot → LockGraph
graph_of s = build_lock_graph s.lock_waits

-- Detect ends, and each issue that it reports is that of a chain of at least two processes from a
-- root blocker, or that of a circular wait, in whatever order it meets the keys of the graph.
pub detect_sound :
    (d : LockChainDetector) (roots keys : List ℕ) (s : Snapshot)
    → IsKeyOrder roots (graph_of s)
    → (is : List Issue) × (detect d roots keys s ≡ some is) × All (IsFounded d (graph_of s)) is
unfolding detect
detect_sound d roots keys s order = issues_in_sound d roots keys s.lock_waits order

-- Among the issues is that of a circular wait, and it is critical.
abbrev pub IsAlarmed : LockGraph → List Issue → Type 0
IsAlarmed g is =
    (i : Issue) × (found : List ℕ) × In i is
    × IsCycle g found
    × (i ≡ cycle_issue found)
    × (i.severity ≡ critical)

alarm :
    (g : LockGraph) (xs : List Issue) (cycles : List (List ℕ))
    → cycles ≢ []
    → All (IsCycle g) cycles
    → IsAlarmed g (xs ++ map cycle_issue cycles)
unfolding cycle_issue
alarm g xs [] some_found b = absurd (some_found refl)
alarm g xs (c ∷ cs) some_found b = (
  cycle_issue c,
  c,
  In-append_right (cycle_issue c) xs (map cycle_issue (c ∷ cs)) (inl refl),
  b.0,
  refl,
  refl,
)

no_cycle : (c : List ℕ) → IsCycle (build_lock_graph []) c → ⊥
no_cycle [] w = w
no_cycle (x ∷ []) w = (Edge-build_lock_graph [] x x).0 (w.0)
no_cycle (x ∷ y ∷ r) w = (Edge-build_lock_graph [] x y).0 (w.0)

issues_in_cycle :
    (d : LockChainDetector) (roots keys c : List ℕ) (ws : List LockWait)
    → IsKeyOrder roots (build_lock_graph ws)
    → IsKeyOrder keys (build_lock_graph ws)
    → IsCycle (build_lock_graph ws) c
    → (is : List Issue) × (issues_in d roots keys ws ≡ some is) × IsAlarmed (build_lock_graph ws) is
unfolding issues_in
issues_in_cycle d roots keys c [] order order' cycle = absurd (no_cycle c cycle)
issues_in_cycle d roots keys c (w ∷ ws) order order' cycle =
    let g = build_lock_graph (w ∷ ws) in
    let (chains, cycles, e, a, f, b) = parts d roots keys g order in
    (
      chain_issues d g chains ++ map cycle_issue cycles,
      e,
      alarm g (chain_issues d g chains) cycles (find_cycles_complete g keys c order' cycle f) b,
    )

-- If the lock waits of the snapshot form a circle, then Detect reports the issue of a circular wait,
-- and it is critical, in whatever order it meets the keys of the graph.
pub detect-cycle :
    (d : LockChainDetector) (roots keys c : List ℕ) (s : Snapshot)
    → IsKeyOrder roots (graph_of s)
    → IsKeyOrder keys (graph_of s)
    → IsCycle (graph_of s) c
    → (is : List Issue) × (detect d roots keys s ≡ some is) × IsAlarmed (graph_of s) is
unfolding detect
detect-cycle d roots keys c s order order' cycle =
    issues_in_cycle d roots keys c s.lock_waits order order' cycle
