-- ===== src/Detector/LockChains.antt =====
-- internal/detector/lock_chain.go: FindChains and dfsChains. The map of visited nodes, which the
-- calls share, is the list of its keys. The recursion takes fuel, one more than there are keys of
-- Edges, and `none` means that it ran out.
pub mod Marks
pub mod Visit
pub mod Chains
mod Tests
use mathlib.Core.Option
use mysqlmonitoring.Prelude.{
  ℕ, zero, suc, ◌+◌, ◌==◌, Bool, true, false, not, Option, none, some, List, [], ◌∷◌, ◌++◌, length,
  filter_by, any_of, if◌then◌else◌,
}
use mysqlmonitoring.Db.{LockWait}
use mysqlmonitoring.Detector.LockGraph.{LockGraph, waiters, ◌>>=◌}

-- visited[node]
pub is_marked : List ℕ → ℕ → Bool
is_marked visited node = any_of (λ k. k == node) visited

-- delete(visited, node)
pub unmark : ℕ → List ℕ → List ℕ
unmark node visited = filter_by (λ k. not (k == node)) visited

-- What dfsChains returns, and the map as it leaves it.
abbrev pub Found : Type 0
Found = List (List ℕ) × List ℕ

-- The body of the loop of dfsChains; `visit` is the recursive call.
pub chain_next : (ℕ → List ℕ → List ℕ → Option Found) → List ℕ → ℕ → List ℕ → Option Found
chain_next visit path waiter visited =
    if is_marked visited waiter
    then some ((path ++ waiter ∷ []) ∷ [], visited)
    else visit waiter (path ++ waiter ∷ []) visited

pub chains_loop : (ℕ → List ℕ → List ℕ → Option Found) → List ℕ → List ℕ → List ℕ → Option Found
chains_loop visit path [] visited = some ([], visited)
chains_loop visit path (waiter ∷ rest) visited = chain_next visit path waiter visited >>= λ first.
    chains_loop visit path rest first.1 >>= λ others. some (first.0 ++ others.0, others.1)

-- What dfsChains returns for a node with the waiters `ws`, over which it has looped. A node with no
-- waiters ends a chain, and stays marked.
pub leave : List ℕ → ℕ → List ℕ → List ℕ → Option Found → Option Found
leave path node visited [] looped = some (path ∷ [], node ∷ visited)
leave path node visited (_ ∷ _) looped = looped >>= λ found. some (found.0, unmark node found.1)

-- dfsChains
pub dfs_chains : ℕ → LockGraph → ℕ → List ℕ → List ℕ → Option Found
dfs_chains zero g node path visited = none
dfs_chains (suc fuel) g node path visited =
    leave path node visited (waiters g node)
      (chains_loop (dfs_chains fuel g) path (waiters g node) (node ∷ visited))

-- The process waits for a lock, as WaitInfo has it.
pub is_waiter : List (ℕ × LockWait) → ℕ → Bool
is_waiter [] pid = false
is_waiter ((k, w) ∷ m) pid = if w.waiting_pid == pid then true else is_waiter m pid

pub roots : List ℕ → LockGraph → List ℕ
roots order g = filter_by (λ blocker. not (is_waiter g.wait_info blocker)) order

pub chains_from : ℕ → LockGraph → List ℕ → Option (List (List ℕ))
chains_from fuel g [] = some []
chains_from fuel g (root ∷ rest) = dfs_chains fuel g root (root ∷ []) [] >>= λ found.
    chains_from fuel g rest >>= λ others. some (found.0 ++ others)

-- FindChains, with the keys of Edges met in the order `order`.
pub find_chains : List ℕ → LockGraph → Option (List (List ℕ))
find_chains order g = chains_from (length g.edges + 1) g (roots order g)
