-- ===== src/Detector/LockChains/Visit.antt =====
-- lock_chain.go: dfsChains, its fuel and the chains along its path.
use mysqlmonitoring.Prelude.{
  ℕ, zero, suc, ◌<◌, ◌≡◌, ◌∙◌, refl, sym, ap, ◌⊎◌, inl, inr, ◌==◌, false, Option, some, List, [],
  ◌∷◌, ◌++◌, In, In-append, In-append_left, In-append_right, All, All-In, arith, Bool-cases,
  append_assoc, append-nil, subst,
}
use mysqlmonitoring.Detector.LockGraph.{LockGraph, waiters, blockers}
use mysqlmonitoring.Detector.LockGraph.Edges.{Edge, waiters-key}
use mysqlmonitoring.Detector.LockGraph.Walks.{Walk, Walk-snoc}
use mysqlmonitoring.Detector.LockChains.{
  is_marked, unmark, Found, chain_next, chains_loop, leave, dfs_chains,
}
use mysqlmonitoring.Detector.LockChains.Marks.{
  is_marked-mark, is_marked-unmark, free_count, MoreMarks, free_count-le, free_count-lt,
  Begins-trans, IsChain, MarksOn, AllNew, Covered, Searched, SearchedAll, Walk-Edge, Covered_left,
  Covered_right,
}

module _ (g : LockGraph) where
  abbrev pub Visited : List ℕ → ℕ → List ℕ → Option Found → Type 0
  Visited path next v o = (f : Found) × (o ≡ some f) × Searched g path next v f.0 f.1

  abbrev pub Visits : ℕ → (ℕ → List ℕ → List ℕ → Option Found) → Type 0
  Visits fuel visit =
      (path : List ℕ) (next : ℕ) (v : List ℕ)
      → is_marked v next ≡ false
      → Walk g (path ++ next ∷ [])
      → MarksOn g v path
      → free_count (blockers g) v < fuel
      → Visited path next v (visit next (path ++ next ∷ []) v)

  no_waiters : (n m : ℕ) → waiters g n ≡ [] → Edge g n m → ⊥
  no_waiters n m e edge = subst (In m) e edge

  -- A path that ends at a node with no waiters, or at one of its own nodes, is a chain.
  path-IsChain :
      (path : List ℕ) (next : ℕ)
      → Walk g (path ++ next ∷ [])
      → (waiters g next ≡ []) ⊎ In next path
      → IsChain g (path ++ next ∷ []) (path ++ next ∷ [])
  path-IsChain path next walk ends = record {
    begins = ([], sym (append-nil _));
    walk = walk;
    front = path;
    final = next;
    parts = refl;
    ends = ends;
  }

  path-covers :
      (path : List ℕ) (next : ℕ)
      → (waiters g next ≡ []) ⊎ In next path
      → (q : List ℕ) → Walk g (path ++ next ∷ q)
      → AllNew g path (next ∷ q)
      → Covered g (path ++ next ∷ q) ((path ++ next ∷ []) ∷ [])
  path-covers path next ends [] walk fresh = (path ++ next ∷ [], inl refl, ([], sym (append-nil _)))
  path-covers path next (inl leaf) (n ∷ q) walk fresh =
      absurd (no_waiters next n leaf (Walk-Edge g path next n q walk))
  path-covers path next (inr m) (n ∷ q) walk fresh = absurd (fresh.0 m)

  path-Searched :
      (path : List ℕ) (next : ℕ) (v w : List ℕ)
      → Walk g (path ++ next ∷ [])
      → (waiters g next ≡ []) ⊎ In next path
      → MarksOn g w path
      → MoreMarks v w
      → Searched g path next v ((path ++ next ∷ []) ∷ []) w
  path-Searched path next v w walk ends marks more = record {
    chains = (path-IsChain path next walk ends, tt);
    marks = marks;
    more = more;
    one = (path ++ next ∷ [], inl refl, ([], sym (append-nil _)));
    covers = path-covers path next ends;
  }

  swap : {A B : Type 0} → A ⊎ B → B ⊎ A
  swap (inl a) = inr a
  swap (inr b) = inl b

  chain_next-Visited :
      (fuel : ℕ) (visit : ℕ → List ℕ → List ℕ → Option Found)
      → Visits fuel visit
      → (path : List ℕ) (next : ℕ) (v : List ℕ) → Walk g (path ++ next ∷ [])
      → MarksOn g v path
      → free_count (blockers g) v < fuel
      → Visited path next v (chain_next visit path next v)
  unfolding chain_next
  chain_next-Visited fuel visit ok path next v walk on room = elim (Bool-cases (is_marked v next)) [
    | inl e ↦ rw e (
      ((path ++ next ∷ []) ∷ [], v),
      refl,
      path-Searched path next v v walk (swap (on next e)) on (λ m h. h),
    )
    | inr e ↦ rw e (ok path next v e walk on room)
  ]

  abbrev LoopedAll : List ℕ → List ℕ → List ℕ → Option Found → Type 0
  LoopedAll path ws v o = (f : Found) × (o ≡ some f) × SearchedAll g path ws v f.0 f.1

  All-shorter :
      (path : List ℕ) (next : ℕ) (cs : List (List ℕ))
      → All (IsChain g (path ++ next ∷ [])) cs
      → All (IsChain g path) cs
  All-shorter path next [] h = tt
  All-shorter path next (c ∷ cs) h = (
    record {
      begins = Begins-trans path next c h.0.begins;
      walk = h.0.walk;
      front = h.0.front;
      final = h.0.final;
      parts = h.0.parts;
      ends = h.0.ends;
    },
    All-shorter path next cs h.1,
  )

  All-append :
      (P : List ℕ → Type 0) (cs ds : List (List ℕ)) → All P cs → All P ds → All P (cs ++ ds)
  All-append P [] ds hc hd = hd
  All-append P (c ∷ cs) ds hc hd = (hc.0, All-append P cs ds hc.1 hd)

  -- The first waiter's search and the others' make up the loop.
  join :
      (path : List ℕ) (n : ℕ) (ws v : List ℕ) (cs : List (List ℕ)) (v' : List ℕ)
      (ds : List (List ℕ)) (w : List ℕ)
      → Searched g path n v cs v'
      → SearchedAll g path ws v' ds w
      → SearchedAll g path (n ∷ ws) v (cs ++ ds) w
  join path n ws v cs v' ds w a b = record {
    chains = All-append _ cs ds (All-shorter path n cs a.chains) b.chains;
    marks = b.marks;
    more = λ m h. b.more m (a.more m h);
    each = λ m i. elim i [
      | inl e ↦ Covered_left g (path ++ m ∷ []) cs ds (rw e a.one)
      | inr i' ↦ Covered_right g (path ++ m ∷ []) cs ds (b.each m i')
    ];
    covers = λ m q i. elim i [
      | inl e ↦ λ walk fresh. Covered_left g (path ++ m ∷ q) cs ds (
          subst (λ k. Walk g (path ++ k ∷ q) → AllNew g path (k ∷ q) → Covered g (path ++ k ∷ q) cs)
            (sym e) (a.covers q) walk fresh)
      | inr i' ↦ λ walk fresh. Covered_right g (path ++ m ∷ q) cs ds (b.covers m q i' walk fresh)
    ];
  }

  chains_loop-SearchedAll :
      (fuel : ℕ) (visit : ℕ → List ℕ → List ℕ → Option Found)
      → Visits fuel visit
      → (path : List ℕ) (cur : ℕ) (ws v : List ℕ) → Walk g (path ++ cur ∷ [])
      → All (Edge g cur) ws
      → MarksOn g v (path ++ cur ∷ [])
      → (ws ≡ []) ⊎ (free_count (blockers g) v < fuel)
      → LoopedAll (path ++ cur ∷ []) ws v (chains_loop visit (path ++ cur ∷ []) ws v)
  unfolding chains_loop
  chains_loop-SearchedAll fuel visit ok path cur [] v walk es on room = (
    ([], v),
    refl,
    record {
      chains = tt;
      marks = on;
      more = λ m h. h;
      each = λ n m. absurd m;
      covers = λ n q m. absurd m;
    },
  )
  chains_loop-SearchedAll fuel visit ok path cur (n ∷ ws) v walk es on room =
      let enough : free_count (blockers g) v < fuel = elim room [ inl e ↦ cc | inr h ↦ h ] in
      let (f, first, a) =
        chain_next-Visited fuel visit ok (path ++ cur ∷ []) n v (Walk-snoc g path cur n walk es.0)
          on enough in
      let (h, rest, b) =
        chains_loop-SearchedAll fuel visit ok path cur ws f.1 walk es.1 a.marks
          (inr (omega (arith, free_count-le (blockers g) v f.1 a.more))) in
      ((f.0 ++ h.0, h.1), rw (first, rest), join (path ++ cur ∷ []) n ws v f.0 f.1 h.0 h.1 a b)

  mark-MarksOn :
      (path : List ℕ) (node : ℕ) (v : List ℕ)
      → MarksOn g v path
      → MarksOn g (node ∷ v) (path ++ node ∷ [])
  mark-MarksOn path node v on m h = elim (Bool-cases (node == m)) [
    | inl t ↦ inl (In-append_right m path (node ∷ []) (inl (ground (arith, t))))
    | inr f ↦ elim (on m (rw (is_marked-mark v node m, f) at h)) [
      | inl i ↦ inl (In-append_left m path (node ∷ []) i)
      | inr e ↦ inr e
    ]
  ]

  mark-MoreMarks : (v : List ℕ) (node : ℕ) → MoreMarks v (node ∷ v)
  mark-MoreMarks v node m h = ground (arith, is_marked-mark v node m)

  mark_room :
      (fuel node : ℕ) (v : List ℕ)
      → is_marked v node ≡ false
      → free_count (blockers g) v < suc fuel
      → (waiters g node ≡ []) ⊎ (free_count (blockers g) (node ∷ v) < fuel)
  mark_room fuel node v e room = elim (waiters-key g node) [
    | inl none_wait ↦ inl none_wait
    | inr key ↦ inr (
        omega (
          arith,
          free_count-lt (blockers g) v (node ∷ v) node (mark-MoreMarks v node) key e
              (ground (arith, is_marked-mark v node node)),
        ))
  ]

  leave-covers :
      (path : List ℕ) (node first : ℕ) (v : List ℕ) (cs : List (List ℕ)) (w : List ℕ)
      → In first (waiters g node)
      → SearchedAll g (path ++ node ∷ []) (waiters g node) (node ∷ v) cs w
      → (q : List ℕ) → Walk g (path ++ node ∷ q)
      → AllNew g path (node ∷ q)
      → Covered g (path ++ node ∷ q) cs
  leave-covers path node first v cs w m a [] walk fresh =
      let (c, inside, begins) = a.each first m in
      (c, inside, Begins-trans (path ++ node ∷ []) first c begins)
  leave-covers path node first v cs w m a (n ∷ q) walk fresh =
      let same = append_assoc path (node ∷ []) (n ∷ q) in
      subst (λ p. Covered g p cs) same
        (a.covers n q (Walk-Edge g path node n q walk) (subst (Walk g) (sym same) walk) fresh.1)

  -- The search of a node that has waiters, out of the loop over them.
  leave-Searched :
      (path : List ℕ) (node first : ℕ) (v : List ℕ) (cs : List (List ℕ)) (w : List ℕ)
      → is_marked v node ≡ false
      → In first (waiters g node)
      → SearchedAll g (path ++ node ∷ []) (waiters g node) (node ∷ v) cs w
      → Searched g path node v cs (unmark node w)
  leave-Searched path node first v cs w e m a = record {
    chains = a.chains;
    marks = λ k h. elim (Bool-cases (node == k)) [
      | inl t ↦ absurd (ground (arith, is_marked-unmark w node k))
      | inr f ↦ elim (a.marks k (ground (arith, is_marked-unmark w node k))) [
        | inl i ↦ elim (In-append k path (node ∷ []) i) [
          | inl i' ↦ inl i'
          | inr q ↦ elim q [ inl q' ↦ absurd (ground (arith, q')) | inr z ↦ absurd z ]
        ]
        | inr leaf ↦ inr leaf
      ]
    ];
    more = λ k h. ground (
      arith,
      a.more k,
      is_marked-mark v node k,
      is_marked-unmark w node k,
      ap (is_marked v) {x = node} {y = k},
    );
    one =
        let (c, inside, begins) = a.each first m in
        (c, inside, Begins-trans (path ++ node ∷ []) first c begins);
    covers = leave-covers path node first v cs w m a;
  }

  leaf-MarksOn :
      (path : List ℕ) (node : ℕ) (v : List ℕ)
      → waiters g node ≡ []
      → MarksOn g v path
      → MarksOn g (node ∷ v) path
  leaf-MarksOn path node v leaf on m h = elim (Bool-cases (node == m)) [
    | inl t ↦ inr (subst (λ k. waiters g k ≡ []) {x = node} (ground arith) leaf)
    | inr f ↦ on m (rw (is_marked-mark v node m, f) at h)
  ]

  leave_leaf :
      (path : List ℕ) (node : ℕ) (v ws : List ℕ)
      → ws ≡ []
      → (o : Option Found)
      → leave (path ++ node ∷ []) node v ws o ≡ some ((path ++ node ∷ []) ∷ [], node ∷ v)
  unfolding leave
  leave_leaf path node v [] e o = refl
  leave_leaf path node v (_ ∷ _) e o = cc

  leave_found :
      (path : List ℕ) (node : ℕ) (v ws : List ℕ) (n : ℕ) (rest : List ℕ)
      → ws ≡ n ∷ rest
      → (f : Found) → leave (path ++ node ∷ []) node v ws (some f) ≡ some (f.0, unmark node f.1)
  unfolding leave
  leave_found path node v [] n rest e f = cc
  leave_found path node v (_ ∷ _) n rest e f = refl

  -- The two ends of dfsChains, by the waiters of the node.
  finish :
      (fuel : ℕ) (path : List ℕ) (node : ℕ) (v ws : List ℕ)
      → waiters g node ≡ ws
      → is_marked v node ≡ false
      → Walk g (path ++ node ∷ [])
      → MarksOn g v path
      → LoopedAll
          (path ++ node ∷ [])
          (waiters g node)
          (node ∷ v)
          (chains_loop (dfs_chains fuel g) (path ++ node ∷ []) (waiters g node) (node ∷ v))
      → Visited path node v (dfs_chains (suc fuel) g node (path ++ node ∷ []) v)
  unfolding dfs_chains
  finish fuel path node v [] ws e walk on looped = (
    ((path ++ node ∷ []) ∷ [], node ∷ v),
    leave_leaf path node v (waiters g node) ws _,
    path-Searched path node v (node ∷ v) walk (inl ws) (leaf-MarksOn path node v ws on)
        (mark-MoreMarks v node),
  )
  finish fuel path node v (n ∷ rest) ws e walk on (f, found, a) = (
    (f.0, unmark node f.1),
    (ap (leave (path ++ node ∷ []) node v (waiters g node)) found
        ∙ leave_found path node v (waiters g node) n rest ws f),
    leave-Searched path node n v f.0 f.1 e (subst (In n) (sym ws) (inl refl)) a,
  )

  pub dfs_chains-Visits : (fuel : ℕ) → Visits fuel (dfs_chains fuel g)
  unfolding dfs_chains
  dfs_chains-Visits zero path node v e walk on room = absurd (omega arith)
  dfs_chains-Visits (suc fuel) path node v e walk on room =
      let looped =
        chains_loop-SearchedAll fuel (dfs_chains fuel g) (dfs_chains-Visits fuel) path node
          (waiters g node) (node ∷ v) walk (All-In _ (waiters g node) (λ w m. m))
          (mark-MarksOn path node v on) (mark_room fuel node v e room) in
      finish fuel path node v (waiters g node) refl e walk on looped
