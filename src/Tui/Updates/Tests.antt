-- ===== src/Tui/Updates/Tests.antt =====
-- model.go: a poll that brings fewer rows than the cursors stand on.
use mysqlmonitoring.Prelude.{ℕ, ◌≡◌, ◌⊎◌, Bool, refl, true, false, none, List, [], ◌∷◌, length}
use mysqlmonitoring.Prelude.Int.{pos}
use mysqlmonitoring.Db.{LockWait, Snapshot}
use mysqlmonitoring.Monitor.{Result, blank_snapshot}
use mysqlmonitoring.Tui.Tree.{TreeEntry, build_tree_entries}
use mysqlmonitoring.Tui.Keys.{
  view_lock, view_overview, mdl_mode_list, World, Model, key_j, key_kk, table_rows,
}
use mysqlmonitoring.Tui.Updates.{on_result}
use mysqlmonitoring.Tui.Updates.Ranges.{InRange, on_result-InRange}
use mysqlmonitoring.Tui.Updates.LockTree.{OnBlocker, lock_keys, lock_keys-on_result}

abbrev entry : ℕ → Bool → TreeEntry
entry pid is_blocker = record { pid = pid; is_blocker = is_blocker }

-- A blocker with two waiters, and another blocker with one.
abbrev tree : List TreeEntry
tree = entry 7 true ∷ entry 8 false ∷ entry 9 false ∷ entry 10 true ∷ entry 11 false ∷ []

abbrev wait_for : ℕ → ℕ → LockWait
wait_for waiting blocking = record {
  waiting_trx_id = [];
  waiting_pid = waiting;
  waiting_query = [];
  waiting_digest = [];
  waiting_user = [];
  waiting_host = [];
  blocking_trx_id = [];
  blocking_pid = blocking;
  blocking_query = [];
  blocking_digest = [];
  blocking_user = [];
  blocking_host = [];
  lock_table = [];
  lock_index = [];
  lock_type = [];
  wait_started = 0;
  wait_duration_ms = pos 0;
}

-- 7 blocks 8 and 9, and 10 blocks 11.
abbrev blocked : Snapshot
blocked = record (blank_snapshot 9) {
  lock_waits = wait_for 8 7 ∷ wait_for 11 10 ∷ wait_for 9 7 ∷ wait_for 8 7 ∷ [];
}

tree_test : build_tree_entries (λ ps. ps) blocked ≡ tree
unfolding build_tree_entries mysqlmonitoring.Tui.Tree.walk_all mysqlmonitoring.Tui.Tree.sorted_roots
    mysqlmonitoring.Prelude.Sort.sort_stable mysqlmonitoring.Tui.Tree.roots_from
    mysqlmonitoring.Tui.Rows.trx_by_pid mysqlmonitoring.Tui.Tree.walk
    mysqlmonitoring.Tui.Tree.visit_children mysqlmonitoring.Tui.Tree.children_from
    mysqlmonitoring.Tui.Tree.visit_child mysqlmonitoring.Tui.Tree.deadlock_entries
tree_test = refl

-- 8 waits for 7 and for 10, and is listed twice.
abbrev shared : Snapshot
shared = record (blank_snapshot 9) { lock_waits = wait_for 8 7 ∷ wait_for 8 10 ∷ [] }

two_blockers :
    build_tree_entries (λ ps. ps) shared
    ≡ entry 7 true ∷ entry 8 false ∷ entry 10 true ∷ entry 8 false ∷ []
unfolding build_tree_entries mysqlmonitoring.Tui.Tree.walk_all mysqlmonitoring.Tui.Tree.sorted_roots
    mysqlmonitoring.Prelude.Sort.sort_stable mysqlmonitoring.Tui.Tree.roots_from
    mysqlmonitoring.Tui.Rows.trx_by_pid mysqlmonitoring.Tui.Tree.walk
    mysqlmonitoring.Tui.Tree.visit_children mysqlmonitoring.Tui.Tree.children_from
    mysqlmonitoring.Tui.Tree.visit_child mysqlmonitoring.Tui.Tree.deadlock_entries
two_blockers = refl

abbrev world : World
world = record {
  find_table = λ s. none;
  parse_time = λ s. none;
  wall = 9;
  table_order = λ ts. ts;
  mdl_order = [];
  root_order = λ ps. ps;
  load_groups = [];
  clipboard_taken = true;
}

abbrev model : Model
model = record {
  issues = [];
  snapshot = blank_snapshot 9;
  has_killer = true;
  has_insights = true;
  has_explainer = true;
  cursor = 2;
  quitting = false;
  status_msg = [];
  confirm_kill = false;
  confirm_pid = 0;
  confirm_kill_batch = [];
  confirm_kill_target = [];
  view = view_lock;
  top_digests = [];
  top_cursor = 0;
  top_sort = 0;
  top_user = [];
  top_host = [];
  top_schema = [];
  explain_shown = false;
  issues_cursor = 3;
  issues_table_filter = [];
  tables_cursor = 0;
  overview_cursor = 0;
  mdl_mode = mdl_mode_list;
  mdl_table_schema = [];
  mdl_table_name = [];
  mdl_list_cursor = 0;
  mdl_queue_cursor = 0;
  mdl_blocker_filter = false;
  help_return = view_overview;
}

abbrev result : Result
result = record { snapshot = blocked; issues = []; error = none }

on_result-InRange_example :
    InRange
      (length (build_tree_entries world.root_order blocked))
      (on_result world result model).cursor
    × InRange 0 (on_result world result model).issues_cursor
    × InRange
        (length (table_rows world (on_result world result model)))
        (on_result world result model).tables_cursor
on_result-InRange_example = on_result-InRange world result model

lock_keys-on_result_example :
    (build_tree_entries world.root_order blocked ≡ [])
    ⊎ OnBlocker world (lock_keys world (key_j ∷ key_kk ∷ []) (on_result world result model))
lock_keys-on_result_example = lock_keys-on_result world (key_j ∷ key_kk ∷ []) result model
