-- ===== src/Detector/LockGraph/Edges.antt =====
-- lock_chain.go: the edges and the wait records that BuildLockGraph stores.
use mysqlmonitoring.Prelude.{
  ℕ, ◌≡◌, ◌∙◌, refl, sym, ap, ◌↔◌, ◌⊎◌, inl, inr, ◌==◌, ==_iff, Option, none, some, List, [], ◌∷◌,
  ◌++◌, map, if◌then◌else◌, In, In-append, In-append_left, In-append_right, arith, Bool-cases,
}
use mysqlmonitoring.Db.{LockWait}
use mysqlmonitoring.Detector.LockGraph.{
  LockGraph, waiters_in, add_edge, set_info, find_info, add_waits, build_lock_graph, waiters,
  blockers,
}

-- `b` waits for `a`.
abbrev pub Edge : LockGraph → ℕ → ℕ → Type 0
Edge g a b = In b (waiters g a)

waiters_in-add_edge :
    (x y a : ℕ) (es : List (ℕ × List ℕ))
    → waiters_in (add_edge x y es) a
      ≡ (if x == a then waiters_in es a ++ y ∷ [] else waiters_in es a)
unfolding waiters_in add_edge
waiters_in-add_edge x y a [] = ground arith
waiters_in-add_edge x y a ((k, ws) ∷ es) = ground (arith, waiters_in-add_edge x y a es)

abbrev with_wait : LockGraph → LockWait → LockGraph
with_wait g w = record {
  edges = add_edge w.blocking_pid w.waiting_pid g.edges;
  wait_info = set_info w.waiting_pid w g.wait_info;
}

Edge-with_wait :
    (g : LockGraph) (w : LockWait) (a b : ℕ)
    → Edge (with_wait g w) a b ↔ (Edge g a b ⊎ ((w.blocking_pid ≡ a) × (w.waiting_pid ≡ b)))
Edge-with_wait g w a b = elim (Bool-cases (w.blocking_pid == a)) [
  | inl t ↦
      rw (waiters_in-add_edge w.blocking_pid w.waiting_pid a g.edges, t)
        (
          (λ e. elim (In-append b (waiters g a) (w.waiting_pid ∷ []) e) [
            | inl m ↦ inl m
            | inr m ↦
                inr ((==_iff w.blocking_pid a).0 t, elim m [ inl q ↦ sym q | inr f ↦ absurd f ])
          ]),
          λ h. elim h [
            | inl m ↦ In-append_left b (waiters g a) (w.waiting_pid ∷ []) m
            | inr q ↦ In-append_right b (waiters g a) (w.waiting_pid ∷ []) (inl (sym q.1))
          ],
        )
  | inr f ↦
      rw (waiters_in-add_edge w.blocking_pid w.waiting_pid a g.edges, f)
        (inl, λ h. elim h [ inl m ↦ m | inr q ↦ absurd (ground (arith, q.0)) ])
]

-- One of the lock waits says that `b` waits for `a`.
abbrev pub Reported : List LockWait → ℕ → ℕ → Type 0
Reported [] a b = ⊥
Reported (w ∷ ws) a b = ((w.blocking_pid ≡ a) × (w.waiting_pid ≡ b)) ⊎ Reported ws a b

Edge-add_waits :
    (ws : List LockWait) (g : LockGraph) (a b : ℕ)
    → Edge (add_waits g ws) a b ↔ (Edge g a b ⊎ Reported ws a b)
unfolding add_waits
Edge-add_waits [] g a b = (inl, λ h. elim h [ inl e ↦ e | inr r ↦ absurd r ])
Edge-add_waits (w ∷ ws) g a b =
    let rest = Edge-add_waits ws (with_wait g w) a b in
    let first = Edge-with_wait g w a b in
    (
      (λ e. elim (rest.0 e) [
        | inl e' ↦ elim (first.0 e') [ inl m ↦ inl m | inr q ↦ inr (inl q) ]
        | inr r ↦ inr (inr r)
      ]),
      λ h. elim h [
        | inl m ↦ rest.1 (inl (first.1 (inl m)))
        | inr r ↦ elim r [ inl q ↦ rest.1 (inl (first.1 (inr q))) | inr r' ↦ rest.1 (inr r') ]
      ],
    )

-- The graph has an edge from `a` to `b` exactly if one of the lock waits that it was built from
-- says that `b` waits for `a`.
pub Edge-build_lock_graph :
    (ws : List LockWait) (a b : ℕ) → Edge (build_lock_graph ws) a b ↔ Reported ws a b
unfolding build_lock_graph waiters_in
Edge-build_lock_graph ws a b =
    let both = Edge-add_waits ws (record { edges = []; wait_info = [] }) a b in
    ((λ e. elim (both.0 e) [ inl m ↦ absurd m | inr r ↦ r ]), λ r. both.1 (inr r))

find_info-set_info :
    (p q : ℕ) (w : LockWait) (m : List (ℕ × LockWait))
    → find_info q (set_info p w m) ≡ (if p == q then some w else find_info q m)
unfolding find_info set_info
find_info-set_info p q w [] = refl
find_info-set_info p q w ((k, v) ∷ m) = ground (arith, find_info-set_info p q w m)

-- The last of the lock waits in which `pid` is the waiter.
abbrev pub last_wait : ℕ → List LockWait → Option LockWait → Option LockWait
last_wait pid [] o = o
last_wait pid (w ∷ ws) o = last_wait pid ws (if w.waiting_pid == pid then some w else o)

find_info-add_waits :
    (ws : List LockWait) (g : LockGraph) (pid : ℕ)
    → find_info pid (add_waits g ws).wait_info ≡ last_wait pid ws (find_info pid g.wait_info)
unfolding add_waits
find_info-add_waits [] g pid = refl
find_info-add_waits (w ∷ ws) g pid =
    find_info-add_waits ws (with_wait g w) pid
    ∙ ap (last_wait pid ws) (find_info-set_info w.waiting_pid pid w g.wait_info)

-- WaitInfo holds, for each waiter, the last of its lock waits, and nothing for any other process.
pub find_info-build_lock_graph :
    (ws : List LockWait) (pid : ℕ)
    → find_info pid (build_lock_graph ws).wait_info ≡ last_wait pid ws none
unfolding build_lock_graph find_info
find_info-build_lock_graph ws pid =
    find_info-add_waits ws (record { edges = []; wait_info = [] }) pid

waiters_in-key : (es : List (ℕ × List ℕ)) (n : ℕ) → waiters_in es n ≡ [] ⊎ In n (map (λ e. e.0) es)
unfolding waiters_in
waiters_in-key [] n = inl refl
waiters_in-key ((k, ws) ∷ es) n = ground (arith, waiters_in-key es n)

-- A node has no waiters unless it is a key of Edges.
pub waiters-key : (g : LockGraph) (n : ℕ) → waiters g n ≡ [] ⊎ In n (blockers g)
waiters-key g n = waiters_in-key g.edges n
