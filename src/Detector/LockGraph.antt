-- ===== src/Detector/LockGraph.antt =====
-- internal/detector/lock_chain.go: the graph of who blocks whom, its chains and its cycles. The maps
-- are association lists. Go iterates over a map in no fixed order, so a loop over the keys takes
-- their order as an argument. The recursion takes fuel, one more than there are keys, and `none`
-- means that it ran out.
pub mod Edges
pub mod Walks
pub mod Dfs
pub mod Visit
pub mod Cycles
mod Tests
use mathlib.Core.Option
use mysqlmonitoring.Prelude.{
  ℕ, zero, suc, ◌+◌, ◌==◌, Bool, true, false, not, Option, none, some, List, [], ◌∷◌, ◌++◌, length,
  map, drop, filter_by, any_of, if◌then◌else◌,
}
use mysqlmonitoring.Db.{LockWait}

-- Edges: blocker to waiters. WaitInfo: waiter to its last lock wait.
pub record LockGraph : Type 0 where
  pub edges : List (ℕ × List ℕ)
  pub wait_info : List (ℕ × LockWait)

-- g.Edges[node], which is nil for a missing key
unfoldable pub waiters_in : List (ℕ × List ℕ) → ℕ → List ℕ
waiters_in [] node = []
waiters_in ((k, ws) ∷ es) node = if k == node then ws else waiters_in es node

-- g.Edges[blocker] = append(g.Edges[blocker], waiter)
pub add_edge : ℕ → ℕ → List (ℕ × List ℕ) → List (ℕ × List ℕ)
add_edge blocker waiter [] = (blocker, waiter ∷ []) ∷ []
add_edge blocker waiter ((k, ws) ∷ es) =
    if k == blocker then (k, ws ++ waiter ∷ []) ∷ es else (k, ws) ∷ add_edge blocker waiter es

-- g.WaitInfo[pid] = w
pub set_info : ℕ → LockWait → List (ℕ × LockWait) → List (ℕ × LockWait)
set_info pid w [] = (pid, w) ∷ []
set_info pid w ((k, v) ∷ m) = if k == pid then (k, w) ∷ m else (k, v) ∷ set_info pid w m

pub find_info : ℕ → List (ℕ × LockWait) → Option LockWait
find_info pid [] = none
find_info pid ((k, v) ∷ m) = if k == pid then some v else find_info pid m

pub add_waits : LockGraph → List LockWait → LockGraph
add_waits g [] = g
add_waits g (w ∷ ws) =
    add_waits
      (record {
        edges = add_edge w.blocking_pid w.waiting_pid g.edges;
        wait_info = set_info w.waiting_pid w g.wait_info;
      })
      ws

-- BuildLockGraph
pub build_lock_graph : List LockWait → LockGraph
build_lock_graph waits = add_waits (record { edges = []; wait_info = [] }) waits

abbrev pub waiters : LockGraph → ℕ → List ℕ
waiters g node = waiters_in g.edges node

abbrev pub blockers : LockGraph → List ℕ
blockers g = map (λ e. e.0) g.edges

-- The colours of dfsCycles: 0, 1 and 2.
pub data Color : Type 0 where
  unvisited in_stack done : Color

abbrev pub color_eq : Color → Color → Bool
color_eq unvisited unvisited = true
color_eq in_stack in_stack = true
color_eq done done = true
color_eq _ _ = false

abbrev pub Colors : Type 0
Colors = List (ℕ × Color)

-- visited[node], which is 0 for a missing key; a later write stands in front of an earlier one.
pub color : Colors → ℕ → Color
color [] node = unvisited
color ((k, c) ∷ m) node = if k == node then c else color m node

-- What dfsCycles changes through its map and its pointer.
pub record Search : Type 0 where
  pub visited : Colors
  pub cycles : List (List ℕ)

abbrev pub paint : ℕ → Color → Search → Search
paint node c s = record s { visited = (node, c) ∷ s.visited }

-- The loop `for i, n := range path { if n == next … }`
pub index_of : ℕ → List ℕ → Option ℕ
index_of next [] = none
index_of next (n ∷ path) = if n == next then some 0 else Option.map suc (index_of next path)

-- A cycle is added if `next` stands on the path.
pub add_cycle : ℕ → List ℕ → Search → Search
add_cycle next path s = elim (index_of next path) [
  | some i ↦ record s { cycles = s.cycles ++ drop i path ∷ [] }
  | none ↦ s
]

infixl 5 ◌>>=◌
abbrev pub ◌>>=◌ : {A B : Type 0} → Option A → (A → Option B) → Option B
none >>= f = none
some a >>= f = f a

-- The body of the loop of dfsCycles; `visit` is the recursive call.
pub visit_next : (ℕ → List ℕ → Search → Option Search) → List ℕ → ℕ → Search → Option Search
visit_next visit path next s = elim (color s.visited next) [
  | in_stack ↦ some (add_cycle next path s)
  | unvisited ↦ visit next (path ++ next ∷ []) s
  | done ↦ some s
]

-- The loop of dfsCycles over the waiters of a node.
pub cycles_loop : (ℕ → List ℕ → Search → Option Search) → List ℕ → List ℕ → Search → Option Search
cycles_loop visit path [] s = some s
cycles_loop visit path (next ∷ rest) s =
    visit_next visit path next s >>= cycles_loop visit path rest

-- dfsCycles
pub dfs_cycles : ℕ → LockGraph → ℕ → List ℕ → Search → Option Search
dfs_cycles zero g node path s = none
dfs_cycles (suc fuel) g node path s = do
  s' ← cycles_loop (dfs_cycles fuel g) path (waiters g node) (paint node in_stack s)
  some (paint node done s')

-- The body of the loop of FindCycles.
pub visit_root : ℕ → LockGraph → ℕ → Search → Option Search
visit_root fuel g node s = elim (color s.visited node) [
  | unvisited ↦ dfs_cycles fuel g node (node ∷ []) s
  | _ ↦ some s
]

pub cycles_from : ℕ → LockGraph → List ℕ → Search → Option Search
cycles_from fuel g [] s = some s
cycles_from fuel g (node ∷ rest) s = visit_root fuel g node s >>= cycles_from fuel g rest

-- FindCycles, with the keys of Edges met in the order `order`.
pub find_cycles : List ℕ → LockGraph → Option (List (List ℕ))
find_cycles order g =
    Option.map (λ s. s.cycles)
      (cycles_from (length g.edges + 1) g order (record { visited = []; cycles = [] }))
