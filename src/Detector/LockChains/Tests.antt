-- ===== src/Detector/LockChains/Tests.antt =====
-- Runs of the chains: 1 blocks 2 and 3, and 2 blocks 3.
use mysqlmonitoring.Prelude.{ℕ, ◌≡◌, refl, inl, some, List, [], ◌∷◌, All, arith}
use mysqlmonitoring.Prelude.Int.{pos}
use mysqlmonitoring.Db.{LockWait}
use mysqlmonitoring.Detector.LockGraph.{LockGraph, waiters_in}
use mysqlmonitoring.Detector.LockGraph.Walks.{Walk}
use mysqlmonitoring.Detector.LockGraph.Cycles.{IsKeyOrder}
use mysqlmonitoring.Detector.LockChains.{
  is_marked, unmark, chain_next, chains_loop, leave, dfs_chains, is_waiter, roots, chains_from,
  find_chains,
}
use mysqlmonitoring.Detector.LockChains.Marks.{IsChain, AllNew, Covered}
use mysqlmonitoring.Detector.LockChains.Chains.{IsRoot, find_chains_sound, find_chains_complete}

abbrev wait_for : ℕ → ℕ → LockWait
wait_for waiting blocking = record {
  waiting_trx_id = [];
  waiting_pid = waiting;
  waiting_query = [];
  waiting_digest = [];
  waiting_user = [];
  waiting_host = [];
  blocking_trx_id = [];
  blocking_pid = blocking;
  blocking_query = [];
  blocking_digest = [];
  blocking_user = [];
  blocking_host = [];
  lock_table = [];
  lock_index = [];
  lock_type = [];
  wait_started = 0;
  wait_duration_ms = pos 0;
}

abbrev graph : LockGraph
graph = record {
  edges = (1, 2 ∷ 3 ∷ []) ∷ (2, 3 ∷ []) ∷ [];
  wait_info = (2, wait_for 2 1) ∷ (3, wait_for 3 2) ∷ [];
}

abbrev chains : List (List ℕ)
chains = (1 ∷ 2 ∷ 3 ∷ []) ∷ (1 ∷ 3 ∷ []) ∷ []

chains_test : find_chains (2 ∷ 1 ∷ []) graph ≡ some chains
unfolding find_chains chains_from roots is_waiter dfs_chains chains_loop chain_next leave unmark
    is_marked waiters_in
chains_test = refl

keys : IsKeyOrder (1 ∷ 2 ∷ []) graph
keys n = ((λ m. m), λ m. m)

chains_found : find_chains (1 ∷ 2 ∷ []) graph ≡ some chains
unfolding find_chains chains_from roots is_waiter dfs_chains chains_loop chain_next leave unmark
    is_marked waiters_in
chains_found = refl

one-IsRoot : IsRoot graph 1
unfolding is_waiter
one-IsRoot = (inl refl, refl)

a-Walk : Walk graph (1 ∷ 2 ∷ 3 ∷ [])
unfolding waiters_in
a-Walk = (inl refl, (inl refl, tt))

find_chains_sound_example :
    (cs : List (List ℕ)) × (find_chains (1 ∷ 2 ∷ []) graph ≡ some cs)
    × All (λ c. (root : ℕ) × IsRoot graph root × IsChain graph (root ∷ []) c) cs
find_chains_sound_example = find_chains_sound graph (1 ∷ 2 ∷ []) keys

a_chain-AllNew : AllNew graph [] (1 ∷ 2 ∷ 3 ∷ [])
a_chain-AllNew = ((λ m. m), ((λ m. ground arith), ((λ m. ground arith), tt)))

find_chains_complete_example : Covered graph (1 ∷ 2 ∷ 3 ∷ []) chains
find_chains_complete_example =
    find_chains_complete graph (1 ∷ 2 ∷ []) 1 (2 ∷ 3 ∷ []) keys chains_found one-IsRoot a-Walk
      a_chain-AllNew
