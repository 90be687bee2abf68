-- ===== src/Detector/LockGraph/Dfs.antt =====
-- lock_chain.go: what one search of dfsCycles does to the colours and to the cycles found.
use mysqlmonitoring.Prelude.{
  ℕ, suc, ◌≤◌, ◌<◌, ◌≡◌, ◌≢◌, ◌∙◌, refl, sym, ap, ◌⊎◌, inl, inr, Option, some, List, [], ◌∷◌, ◌++◌,
  In, All, arith, append_assoc, append-nil,
}
use mysqlmonitoring.Detector.LockGraph.{
  LockGraph, Color, unvisited, in_stack, done, Colors, color, Search, blockers,
}
use mysqlmonitoring.Detector.LockGraph.Walks.{Walk, IsCycle, IsSafe}

-- How many of the nodes are unvisited.
unfoldable pub fresh_count : List ℕ → Colors → ℕ
fresh_count [] v = 0
fresh_count (n ∷ ns) v = elim (color v n) [
  | unvisited ↦ suc (fresh_count ns v)
  | _ ↦ fresh_count ns v
]

pub Color-cases : (c : Color) → (c ≡ unvisited) ⊎ (c ≡ in_stack) ⊎ (c ≡ done)
Color-cases unvisited = inl refl
Color-cases in_stack = inr (inl refl)
Color-cases done = inr (inr refl)

pub fresh_count-le :
    (ns : List ℕ) (v w : Colors)
    → ((m : ℕ) → color w m ≡ unvisited → color v m ≡ unvisited)
    → fresh_count ns w ≤ fresh_count ns v
unfolding fresh_count
fresh_count-le [] v w h = omega arith
fresh_count-le (n ∷ ns) v w h = ground (arith, h n, fresh_count-le ns v w h)

pub fresh_count-lt :
    (ns : List ℕ) (v w : Colors) (n : ℕ)
    → ((m : ℕ) → color w m ≡ unvisited → color v m ≡ unvisited)
    → In n ns
    → color v n ≡ unvisited
    → color w n ≢ unvisited
    → fresh_count ns w < fresh_count ns v
unfolding fresh_count
fresh_count-lt [] v w n h m e ne = absurd m
fresh_count-lt (k ∷ ns) v w n h (inl i) e ne =
    ground (arith, fresh_count-le ns v w h, i, ap (color v) i, ap (color w) i)
fresh_count-lt (k ∷ ns) v w n h (inr m) e ne = ground (arith, h k, fresh_count-lt ns v w n h m e ne)

module _ (g : LockGraph) where
  -- How a search leaves its state: nothing new is in the stack, nothing done is undone, nothing is
  -- made unvisited, and what it adds to the cycles are cycles.
  pub record Grows (s t : Search) : Type 0 where
    pub stack : (m : ℕ) → color t.visited m ≡ in_stack → color s.visited m ≡ in_stack
    pub kept : (m : ℕ) → color s.visited m ≡ done → color t.visited m ≡ done
    pub fresh : (m : ℕ) → color t.visited m ≡ unvisited → color s.visited m ≡ unvisited
    pub added : List (List ℕ)
    pub found : t.cycles ≡ s.cycles ++ added
    pub cycles : All (IsCycle g) added

  pub Grows-refl : (s : Search) → Grows s s
  Grows-refl s = record {
    stack = λ m e. e;
    kept = λ m e. e;
    fresh = λ m e. e;
    added = [];
    found = sym (append-nil s.cycles);
    cycles = tt;
  }

  All-append :
      (P : List ℕ → Type 0) (xs ys : List (List ℕ)) → All P xs → All P ys → All P (xs ++ ys)
  All-append P [] ys hx hy = hy
  All-append P (x ∷ xs) ys hx hy = (hx.0, All-append P xs ys hx.1 hy)

  pub Grows-trans : (s t u : Search) → Grows s t → Grows t u → Grows s u
  Grows-trans s t u a b = record {
    stack = λ m e. a.stack m (b.stack m e);
    kept = λ m e. b.kept m (a.kept m e);
    fresh = λ m e. a.fresh m (b.fresh m e);
    added = a.added ++ b.added;
    found = b.found ∙ rw a.found (append_assoc s.cycles a.added b.added);
    cycles = All-append (IsCycle g) a.added b.added a.cycles b.cycles;
  }

  pub Grows-none : (s t : Search) → Grows s t → t.cycles ≡ [] → s.cycles ≡ []
  Grows-none s t a e = nothing s.cycles a.added (sym a.found ∙ e)
    where
      nothing : (xs ys : List (List ℕ)) → xs ++ ys ≡ [] → xs ≡ []
      nothing [] ys h = refl
      nothing (x ∷ xs) ys h = cc

  -- Every node that is done is safe.
  abbrev pub AllSafe : Search → Type 0
  AllSafe s = (m : ℕ) → color s.visited m ≡ done → IsSafe g m

  -- The nodes in the stack are on the path.
  abbrev pub StackOn : Search → List ℕ → Type 0
  StackOn s path = (m : ℕ) → color s.visited m ≡ in_stack → In m path

  -- A search of `node` ends, and finishes the node; if it has found no cycle, what it finished is
  -- safe.
  abbrev pub Visited : ℕ → Search → Option Search → Type 0
  Visited node s o =
      (t : Search) × (o ≡ some t)
      × Grows s t
      × (t.cycles ≡ [] → AllSafe s → AllSafe t × (color t.visited node ≡ done))

  abbrev pub Looped : List ℕ → Search → Option Search → Type 0
  Looped ws s o =
      (t : Search) × (o ≡ some t)
      × Grows s t
      × (t.cycles ≡ [] → AllSafe s → AllSafe t × All (λ w. color t.visited w ≡ done) ws)

  -- The recursive call, with fuel for what is unvisited.
  abbrev pub Visits : ℕ → (ℕ → List ℕ → Search → Option Search) → Type 0
  Visits fuel visit =
      (node : ℕ) (path : List ℕ) (s : Search)
      → color s.visited node ≡ unvisited
      → Walk g (path ++ node ∷ [])
      → StackOn s path
      → fresh_count (blockers g) s.visited < fuel
      → Visited node s (visit node (path ++ node ∷ []) s)
