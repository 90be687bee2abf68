-- ===== src/Tui/Keys/Dispatch/Offers.antt =====
-- model.go: what is killed is what was selected.
use mysqlmonitoring.Prelude.{
  ℕ, ◌≡◌, ap, Bool, true, false, Option, none, some, List, [], ◌∷◌, ◌⊎◌, if◌then◌else◌, length, leb,
  ◌==◌,
}
use mysqlmonitoring.Insights.Mdl
use mysqlmonitoring.Insights.Mdl.{MdlQueue, MdlBreakdown, MdlEntry, build_mdl}
use mysqlmonitoring.Tui.Rows.{IssueRow, killable}
use mysqlmonitoring.Tui.Tables.{TableRow, kill_pids}
use mysqlmonitoring.Tui.Tree.{TreeEntry}
use mysqlmonitoring.Tui.Keys.{
  ViewState, view_issues, view_lock, view_issue_detail, view_tables, view_mdl, MdlMode,
  mdl_mode_list, mdl_mode_detail, Key, key_kk, World, Model, Command, kill_one, kill_batch, at,
  visible_issue_rows, table_rows, tree_entries,
}
use mysqlmonitoring.Tui.Keys.Dispatch.{
  Reply, handle_confirm_key, handle_help_key, global_key, view_key, is_help, handle_key, pending_of,
}
use mysqlmonitoring.Tui.Keys.Dispatch.Kills.{is_kill, popup}

-- No popup is open, and no batch waits for one.
abbrev pub IsIdle : Model → Type 0
IsIdle m = (m.confirm_kill ≡ false) × (m.confirm_kill_batch ≡ [])

abbrev pub or_view : World → Key → Model → Option Reply → Reply
or_view w key m none = view_key w m.view key m
or_view w key m (some r) = r

abbrev pub unasked : World → Key → Model → Bool → Reply
unasked w key m help = if help then handle_help_key key m else or_view w key m (global_key key m)

pub handle_key-asked :
    (w : World) (key : Key) (m : Model)
    → m.confirm_kill ≡ true
    → handle_key w key m ≡ handle_confirm_key key m
unfolding handle_key
handle_key-asked w key m e =
    ap (λ b. if b then handle_confirm_key key m else unasked w key m (is_help m.view)) e

pub handle_key-unasked :
    (w : World) (key : Key) (m : Model)
    → m.confirm_kill ≡ false
    → handle_key w key m ≡ unasked w key m (is_help m.view)
unfolding handle_key
handle_key-unasked w key m e =
    ap (λ b. if b then handle_confirm_key key m else unasked w key m (is_help m.view)) e

-- A key without a popup kills nothing; it leaves the popup's state, or is K.
abbrev IsQuiet : Key → Model → Reply → Type 0
IsQuiet key m r = (is_kill r.1 ≡ false) × ((key ≡ key_kk) ⊎ (popup r.0 ≡ popup m))

-- What the popup of a model would kill, and what a command kills.
abbrev pub to_kill : Model → List ℕ
to_kill m = if leb (length m.confirm_kill_batch) 0 then m.confirm_pid ∷ [] else m.confirm_kill_batch

abbrev pub killed : Command → List ℕ
killed (kill_one pid) = pid ∷ []
killed (kill_batch target pids) = pids
killed _ = []

-- The PIDs that the current view offers to kill, of the row that it draws under its cursor; the
-- detail view draws a row of the filtered list, as the Issues view does.
abbrev pub row_pids : Option IssueRow → Option (List ℕ)
row_pids none = none
row_pids (some r) = if killable r then some (r.pid ∷ []) else none

abbrev pub table_pids : Option TableRow → Option (List ℕ)
table_pids none = none
table_pids (some t) = if leb (length t.pids) 0 then none else some (kill_pids t)

abbrev pub tree_pids : Option TreeEntry → Option (List ℕ)
tree_pids none = none
tree_pids (some e) = some (e.pid ∷ [])

abbrev pub waiter_pids : Option MdlEntry → Option (List ℕ)
waiter_pids none = none
waiter_pids (some e) = if e.pid == 0 then none else some (e.pid ∷ [])

abbrev pub mdl_offer : MdlMode → MdlBreakdown → Model → Option (List ℕ)
mdl_offer mdl_mode_list mdl m = none
mdl_offer mdl_mode_detail mdl m =
    waiter_pids
      (at (pending_of (Mdl.find m.mdl_table_schema m.mdl_table_name mdl)) m.mdl_queue_cursor)

abbrev pub offered : World → ViewState → Model → Option (List ℕ)
offered w view_issues m = row_pids (at (visible_issue_rows w m) m.issues_cursor)
offered w view_issue_detail m = row_pids (at (visible_issue_rows w m) m.issues_cursor)
offered w view_tables m = table_pids (at (table_rows w m) m.tables_cursor)
offered w view_lock m = tree_pids (at (tree_entries w m) m.cursor)
offered w view_mdl m = mdl_offer m.mdl_mode (build_mdl w.mdl_order m.snapshot.metadata_locks) m
offered w _ m = none

-- The issues are not filtered by a table where an issue is shown in detail.
abbrev pub IsUnfiltered : Model → Type 0
IsUnfiltered m = m.view ≡ view_issue_detail → m.issues_table_filter ≡ []

-- A popup that is open asks for what was offered.
abbrev Asks : Option (List ℕ) → Model → Type 0
Asks offer m = (m.confirm_kill ≡ false) ⊎ (offer ≡ some (to_kill m))
