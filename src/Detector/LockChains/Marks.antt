-- ===== src/Detector/LockChains/Marks.antt =====
-- lock_chain.go: the marks of dfsChains, and what its chains are to be.
use mysqlmonitoring.Prelude.{
  ℕ, suc, ◌≤◌, ◌<◌, ◌≡◌, ◌∙◌, refl, ap, ◌⊎◌, inl, inr, ◌==◌, true, false, List, [], ◌∷◌, ◌++◌,
  if◌then◌else◌, In, In-append_left, In-append_right, All, arith, append_assoc,
}
use mysqlmonitoring.Detector.LockGraph.{LockGraph, waiters}
use mysqlmonitoring.Detector.LockGraph.Edges.{Edge}
use mysqlmonitoring.Detector.LockGraph.Walks.{Walk}
use mysqlmonitoring.Detector.LockChains.{is_marked, unmark}

pub is_marked-mark :
    (v : List ℕ) (n m : ℕ) → is_marked (n ∷ v) m ≡ (if n == m then true else is_marked v m)
unfolding is_marked
is_marked-mark v n m = refl

pub is_marked-unmark :
    (v : List ℕ) (n m : ℕ) → is_marked (unmark n v) m ≡ (if n == m then false else is_marked v m)
unfolding is_marked unmark
is_marked-unmark [] n m = ground arith
is_marked-unmark (k ∷ v) n m = ground (arith, is_marked-unmark v n m)

-- How many of the nodes are not marked.
unfoldable pub free_count : List ℕ → List ℕ → ℕ
free_count [] v = 0
free_count (n ∷ ns) v = if is_marked v n then free_count ns v else suc (free_count ns v)

abbrev pub MoreMarks : List ℕ → List ℕ → Type 0
MoreMarks v w = (m : ℕ) → is_marked v m ≡ true → is_marked w m ≡ true

pub free_count-le : (ns v w : List ℕ) → MoreMarks v w → free_count ns w ≤ free_count ns v
unfolding free_count
free_count-le [] v w h = omega arith
free_count-le (n ∷ ns) v w h = ground (arith, h n, free_count-le ns v w h)

pub free_count-lt :
    (ns v w : List ℕ) (n : ℕ)
    → MoreMarks v w
    → In n ns
    → is_marked v n ≡ false
    → is_marked w n ≡ true
    → free_count ns w < free_count ns v
unfolding free_count
free_count-lt [] v w n h m e f = absurd m
free_count-lt (k ∷ ns) v w n h (inl i) e f =
    ground (arith, free_count-le ns v w h, i, ap (is_marked v) i, ap (is_marked w) i)
free_count-lt (k ∷ ns) v w n h (inr m) e f = ground (arith, h k, free_count-lt ns v w n h m e f)

-- `c` begins with `p`.
abbrev pub Begins : List ℕ → List ℕ → Type 0
Begins p c = (r : List ℕ) × (c ≡ p ++ r)

pub Begins-trans : (p : List ℕ) (n : ℕ) (c : List ℕ) → Begins (p ++ n ∷ []) c → Begins p c
Begins-trans p n c (r, e) = (n ∷ r, e ∙ append_assoc p (n ∷ []) r)

module _ (g : LockGraph) where
  -- A chain that begins with `p`: a walk that ends at a process for which nobody waits, or comes
  -- back to one of its own.
  pub record IsChain (p c : List ℕ) : Type 0 where
    pub begins : Begins p c
    pub walk : Walk g c
    pub front : List ℕ
    pub final : ℕ
    pub parts : c ≡ front ++ final ∷ []
    pub ends : (waiters g final ≡ []) ⊎ In final front

  -- The marked nodes are on the path, but for some with no waiters.
  abbrev pub MarksOn : List ℕ → List ℕ → Type 0
  MarksOn v path = (m : ℕ) → is_marked v m ≡ true → In m path ⊎ (waiters g m ≡ [])

  -- Each node of `q` is new: neither on the path nor before it in `q`.
  abbrev pub AllNew : List ℕ → List ℕ → Type 0
  AllNew path [] = Unit {0}
  AllNew path (n ∷ q) = (In n path → ⊥) × AllNew (path ++ n ∷ []) q

  -- Some chain goes along `q`.
  abbrev pub Covered : List ℕ → List (List ℕ) → Type 0
  Covered q cs = (c : List ℕ) × In c cs × Begins q c

  -- What the search of `next` returns, with the path to it: chains that begin with the path, one
  -- for each way on through new nodes; and more marks than before, still on the path.
  pub record Searched (path : List ℕ) (next : ℕ) (v : List ℕ) (cs : List (List ℕ)) (w : List ℕ)
      : Type 0 where
    pub chains : All (IsChain (path ++ next ∷ [])) cs
    pub marks : MarksOn w path
    pub more : MoreMarks v w
    pub one : Covered (path ++ next ∷ []) cs
    pub covers :
        (q : List ℕ)
        → Walk g (path ++ next ∷ q)
        → AllNew path (next ∷ q)
        → Covered (path ++ next ∷ q) cs

  -- The same of the loop over waiters of the last node of the path.
  pub record SearchedAll (path ws v : List ℕ) (cs : List (List ℕ)) (w : List ℕ) : Type 0 where
    pub chains : All (IsChain path) cs
    pub marks : MarksOn w path
    pub more : MoreMarks v w
    pub each : (n : ℕ) → In n ws → Covered (path ++ n ∷ []) cs
    pub covers :
        (n : ℕ) (q : List ℕ)
        → In n ws
        → Walk g (path ++ n ∷ q)
        → AllNew path (n ∷ q)
        → Covered (path ++ n ∷ q) cs

  pub Walk-Edge : (xs : List ℕ) (n m : ℕ) (r : List ℕ) → Walk g (xs ++ n ∷ m ∷ r) → Edge g n m
  Walk-Edge [] n m r w = w.0
  Walk-Edge (x ∷ []) n m r w = w.1.0
  Walk-Edge (x ∷ y ∷ xs) n m r w = Walk-Edge (y ∷ xs) n m r w.1

  pub Covered_left : (q : List ℕ) (cs ds : List (List ℕ)) → Covered q cs → Covered q (cs ++ ds)
  Covered_left q cs ds (c, m, b) = (c, In-append_left c cs ds m, b)

  pub Covered_right : (q : List ℕ) (cs ds : List (List ℕ)) → Covered q ds → Covered q (cs ++ ds)
  Covered_right q cs ds (c, m, b) = (c, In-append_right c cs ds m, b)
