-- ===== src/Detector/LockGraph/Walks.antt =====
-- Walks and cycles of a lock graph: the specification of FindChains and FindCycles.
use mysqlmonitoring.Prelude.{ℕ, zero, suc, ◌≡◌, some, List, [], ◌∷◌, ◌++◌, drop, arith, subst}
use mysqlmonitoring.Detector.LockGraph.{LockGraph, index_of}
use mysqlmonitoring.Detector.LockGraph.Edges.{Edge}

module _ (g : LockGraph) where
  -- Each node of the list waits for the one before it.
  abbrev pub Walk : List ℕ → Type 0
  Walk [] = Unit {0}
  Walk (x ∷ []) = Unit {0}
  Walk (x ∷ y ∷ r) = Edge g x y × Walk (y ∷ r)

  -- A circular wait: each node waits for the one before it, and the first for the last.
  abbrev pub IsCycle : List ℕ → Type 0
  IsCycle [] = ⊥
  IsCycle (x ∷ r) = Walk ((x ∷ r) ++ x ∷ [])

  -- No infinite wait starts at the node.
  pub data IsSafe : ℕ → Type 0 where
    safe : (n : ℕ) → ((m : ℕ) → Edge g n m → IsSafe m) → IsSafe n

  pub Walk-snoc :
      (xs : List ℕ) (n m : ℕ) → Walk (xs ++ n ∷ []) → Edge g n m → Walk ((xs ++ n ∷ []) ++ m ∷ [])
  Walk-snoc [] n m w e = (e, tt)
  Walk-snoc (x ∷ []) n m w e = (w.0, (e, tt))
  Walk-snoc (x ∷ y ∷ xs) n m w e = (w.0, Walk-snoc (y ∷ xs) n m w.1 e)

  Walk-tail : (x : ℕ) (xs : List ℕ) → Walk (x ∷ xs) → Walk xs
  Walk-tail x [] w = tt
  Walk-tail x (y ∷ xs) w = w.1

  -- The part of the path that dfsCycles cuts out is a cycle.
  pub IsCycle-drop :
      (next i : ℕ) (path : List ℕ)
      → index_of next path ≡ some i
      → Walk (path ++ next ∷ [])
      → IsCycle (drop i path)
  unfolding index_of
  IsCycle-drop next i [] e w = cc
  IsCycle-drop next zero (n ∷ path) e w =
      subst (λ t. Walk ((n ∷ path) ++ t ∷ [])) {x = next} (ground arith) w
  IsCycle-drop next (suc i) (n ∷ path) e w =
      IsCycle-drop next i path (ground arith) (Walk-tail n (path ++ next ∷ []) w)

  -- No cycle begins at a safe node: it could be followed for ever.
  pub not-IsCycle : (x : ℕ) (r : List ℕ) → IsSafe x → IsCycle (x ∷ r) → ⊥
  not-IsCycle x [] (safe _ next) w = not-IsCycle x [] (next x w.0) w
  not-IsCycle x (y ∷ r) (safe _ next) w =
      not-IsCycle y (r ++ x ∷ []) (next y w.0) (Walk-snoc (y ∷ r) x y w.1 w.0)
