-- ===== src/Detector/LockGraph/Tests.antt =====
-- Runs of the lock graph: 1 waits for 2, 2 for 3, 3 for 2.
use mysqlmonitoring.Prelude.{ℕ, ◌≡◌, ◌≢◌, ◌↔◌, refl, inl, inr, some, List, [], ◌∷◌, All}
use mysqlmonitoring.Prelude.Int.{pos}
use mysqlmonitoring.Db.{LockWait}
use mysqlmonitoring.Detector.LockGraph.{
  LockGraph, build_lock_graph, add_waits, add_edge, set_info, waiters_in, find_cycles, cycles_from,
  visit_root, dfs_cycles, cycles_loop, visit_next, add_cycle, index_of, color,
}
use mysqlmonitoring.Detector.LockGraph.Edges.{Edge, Reported, Edge-build_lock_graph}
use mysqlmonitoring.Detector.LockGraph.Walks.{IsCycle}
use mysqlmonitoring.Detector.LockGraph.Cycles.{IsKeyOrder, find_cycles_sound, find_cycles_complete}

abbrev wait_for : ℕ → ℕ → LockWait
wait_for waiting blocking = record {
  waiting_trx_id = [];
  waiting_pid = waiting;
  waiting_query = [];
  waiting_digest = [];
  waiting_user = [];
  waiting_host = [];
  blocking_trx_id = [];
  blocking_pid = blocking;
  blocking_query = [];
  blocking_digest = [];
  blocking_user = [];
  blocking_host = [];
  lock_table = [];
  lock_index = [];
  lock_type = [];
  wait_started = 0;
  wait_duration_ms = pos 0;
}

abbrev waits : List LockWait
waits = wait_for 1 2 ∷ wait_for 2 3 ∷ wait_for 3 2 ∷ []

abbrev graph : LockGraph
graph = record {
  edges = (2, 1 ∷ 3 ∷ []) ∷ (3, 2 ∷ []) ∷ [];
  wait_info = (1, wait_for 1 2) ∷ (2, wait_for 2 3) ∷ (3, wait_for 3 2) ∷ [];
}

graph_test : build_lock_graph waits ≡ graph
unfolding build_lock_graph add_waits add_edge set_info
graph_test = refl

cycles_test : find_cycles (3 ∷ 2 ∷ []) graph ≡ some ((3 ∷ 2 ∷ []) ∷ [])
unfolding find_cycles cycles_from visit_root dfs_cycles cycles_loop visit_next add_cycle index_of
    color waiters_in
cycles_test = refl

keys : IsKeyOrder (2 ∷ 3 ∷ []) graph
keys n = ((λ m. m), λ m. m)

a_cycle : IsCycle graph (2 ∷ 3 ∷ [])
unfolding waiters_in
a_cycle = (inr (inl refl), (inl refl, tt))

cycles_found : find_cycles (2 ∷ 3 ∷ []) graph ≡ some ((2 ∷ 3 ∷ []) ∷ [])
unfolding find_cycles cycles_from visit_root dfs_cycles cycles_loop visit_next add_cycle index_of
    color waiters_in
cycles_found = refl

abbrev cycles : List (List ℕ)
cycles = (2 ∷ 3 ∷ []) ∷ []

find_cycles_complete_example : cycles ≢ []
find_cycles_complete_example =
    find_cycles_complete graph (2 ∷ 3 ∷ []) (2 ∷ 3 ∷ []) keys a_cycle cycles_found

find_cycles_sound_example :
    (cs : List (List ℕ)) × (find_cycles (2 ∷ 3 ∷ []) graph ≡ some cs) × All (IsCycle graph) cs
find_cycles_sound_example = find_cycles_sound graph (2 ∷ 3 ∷ [])

Edge-build_lock_graph_example : Edge (build_lock_graph waits) 2 3 ↔ Reported waits 2 3
Edge-build_lock_graph_example = Edge-build_lock_graph waits 2 3
