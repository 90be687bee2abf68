-- ===== src/Tui/Keys/Dispatch.antt =====
-- internal/tui/model.go and mdl.go: handleKey, which hands a key to the popup, to the keys that work
-- everywhere, or to the view.
pub mod Kills
pub mod Offers
pub mod Filter
mod Tests
use mysqlmonitoring.Prelude.{
  ℕ, ◌+◌, ◌-◌, ◌%◌, Bool, true, false, not, Option, none, some, List, [], ◌∷◌, ltb, leb, ◌==◌,
  if◌then◌else◌, length, Str, codes,
}
use mysqlmonitoring.Db.{Snapshot}
use mysqlmonitoring.Insights.Mdl
use mysqlmonitoring.Insights.Mdl.{MdlQueue, MdlBreakdown, MdlEntry, build_mdl}
use mysqlmonitoring.Tui.Keys.{
  ViewState, view_issues, view_lock, view_top, view_explain, view_issue_detail, view_help,
  view_tables, view_overview, view_mdl, MdlMode, mdl_mode_list, mdl_mode_detail, Key, key_y, key_yy,
  key_q, ctrl_c, question, esc, tab, key_t, key_oo, key_ii, key_ll, key_bb, key_mm, key_g, key_gg,
  enter, key_kk, key_s, key_e, World, Model, Command, no_command, quit, kill_one, kill_batch,
  run_explain, at, move, ask_kill, handle_issues_key, handle_issue_detail_key, handle_tables_key,
  handle_overview_key, handle_lock_key,
}

abbrev pub Reply : Type 0
Reply = Model × Command

-- handleTopKey
abbrev start_explain : Model → Reply
start_explain m = elim (at m.top_digests m.top_cursor) [
  | none ↦ (m, no_command)
  | some digest ↦
      if m.has_explainer
      then (record m { view = view_explain; explain_shown = false }, run_explain digest)
      else (m, no_command)
]

pub handle_top_key : Key → Model → Reply
handle_top_key key_s m = (record m { top_sort = (m.top_sort + 1) % 4 }, no_command)
handle_top_key key_e m = start_explain m
handle_top_key enter m = start_explain m
handle_top_key key_g m = (m, no_command)
handle_top_key key_gg m = (m, no_command)
handle_top_key key m =
    (record m { top_cursor = move key m.top_cursor (length m.top_digests) }, no_command)

pub handle_mdl_list_key : MdlBreakdown → Key → Model → Model
handle_mdl_list_key rows enter m = elim (at rows m.mdl_list_cursor) [
  | none ↦ m
  | some picked ↦ record m {
    mdl_mode = mdl_mode_detail;
    mdl_table_schema = picked.schema;
    mdl_table_name = picked.name;
    mdl_queue_cursor = 0;
    mdl_blocker_filter = false;
  }
]
handle_mdl_list_key rows key m = record m {
  mdl_list_cursor = move key m.mdl_list_cursor (length rows);
}

abbrev pub pending_of : Option MdlQueue → List MdlEntry
pending_of none = []
pending_of (some q) = q.pending

pub handle_mdl_detail_key : Option MdlQueue → Key → Model → Model
handle_mdl_detail_key q key_bb m = record m { mdl_blocker_filter = not m.mdl_blocker_filter }
handle_mdl_detail_key q key_kk m = elim (at (pending_of q) m.mdl_queue_cursor) [
  | none ↦ m
  | some e ↦
      if m.has_killer
      then (if e.pid == 0
          then record m { status_msg = codes "selected waiter has no killable PID" }
          else ask_kill e.pid m)
      else m
]
handle_mdl_detail_key q key m = record m {
  mdl_queue_cursor = move key m.mdl_queue_cursor (length (pending_of q));
}

pub mdl_key : MdlMode → MdlBreakdown → Key → Model → Model
mdl_key mdl_mode_list mdl key m = handle_mdl_list_key mdl key m
mdl_key mdl_mode_detail mdl key m =
    handle_mdl_detail_key (Mdl.find m.mdl_table_schema m.mdl_table_name mdl) key m

-- The popup of a kill that waits for confirmation.
abbrev confirm_yes : Model → Reply
confirm_yes m =
    if leb (length m.confirm_kill_batch) 0
    then (record m { confirm_kill = false }, kill_one m.confirm_pid)
    else (
      record m { confirm_kill = false; confirm_kill_batch = []; confirm_kill_target = [] },
      kill_batch m.confirm_kill_target m.confirm_kill_batch,
    )

pub handle_confirm_key : Key → Model → Reply
handle_confirm_key key_y m = confirm_yes m
handle_confirm_key key_yy m = confirm_yes m
handle_confirm_key _ m = (
  record m {
    confirm_kill = false;
    confirm_kill_batch = [];
    confirm_kill_target = [];
    status_msg = codes "Kill cancelled";
  },
  no_command,
)

-- The help overlay.
pub handle_help_key : Key → Model → Reply
handle_help_key ctrl_c m = (record m { quitting = true }, quit)
handle_help_key _ m = (record m { view = m.help_return }, no_command)

-- The view behind esc and behind tab, none where the key has no case.
pub esc_view : ViewState → Option ViewState
esc_view view_explain = some view_top
esc_view view_mdl = some view_overview
esc_view view_top = some view_overview
esc_view view_lock = some view_overview
esc_view view_tables = some view_overview
esc_view view_issues = some view_overview
esc_view view_issue_detail = some view_issues
esc_view _ = none

pub tab_view : ViewState → Option ViewState
tab_view view_overview = some view_issues
tab_view view_issues = some view_tables
tab_view view_tables = some view_lock
tab_view view_lock = some view_overview
tab_view _ = none

abbrev on_explain : ViewState → Bool → Bool
on_explain view_explain shown = false
on_explain _ shown = shown

abbrev pub in_queue : MdlMode → ViewState → Bool
in_queue mdl_mode_detail view_mdl = true
in_queue _ _ = false

-- The case of esc: from the detail of a lock queue it leads to the list.
pub escape : Model → Option Model
escape m =
    if in_queue m.mdl_mode m.view
    then some (record m { mdl_mode = mdl_mode_list; mdl_queue_cursor = 0 })
    else elim (esc_view m.view) [
      | none ↦ none
      | some v ↦ some (record m { view = v; explain_shown = on_explain m.view m.explain_shown })
    ]

abbrev to_view : ViewState → Model → Option Reply
to_view v m = some (record m { view = v }, no_command)

abbrev pub quiet : Option Model → Option Reply
quiet none = none
quiet (some m) = some (m, no_command)

-- The keys that work from anywhere; none where the switch falls through to the view.
pub global_key : Key → Model → Option Reply
global_key key_q m = some (record m { quitting = true }, quit)
global_key ctrl_c m = some (record m { quitting = true }, quit)
global_key question m = some (record m { help_return = m.view; view = view_help }, no_command)
global_key esc m = quiet (escape m)
global_key tab m = elim (tab_view m.view) [ none ↦ none | some v ↦ to_view v m ]
global_key key_t m = if m.has_insights then to_view view_top m else none
global_key key_oo m = to_view view_overview m
global_key key_ii m = to_view view_issues m
global_key key_ll m = to_view view_lock m
global_key key_bb m = to_view view_tables m
global_key key_mm m =
    some (record m { view = view_mdl; mdl_mode = mdl_mode_list; mdl_list_cursor = 0 }, no_command)
global_key _ m = none

abbrev pub is_help : ViewState → Bool
is_help view_help = true
is_help _ = false

module _ (w : World) where
  pub view_key : ViewState → Key → Model → Reply
  view_key view_overview key m = (handle_overview_key w key m, no_command)
  view_key view_issues key m = (handle_issues_key w key m, no_command)
  view_key view_issue_detail key m = (handle_issue_detail_key w key m, no_command)
  view_key view_top key m = handle_top_key key m
  view_key view_tables key m = (handle_tables_key w key m, no_command)
  view_key view_mdl key m =
      (mdl_key m.mdl_mode (build_mdl w.mdl_order m.snapshot.metadata_locks) key m, no_command)
  view_key view_explain key m = (m, no_command)
  view_key view_help key m = (m, no_command)
  view_key view_lock key m = (handle_lock_key w key m, no_command)

  pub handle_key : Key → Model → Reply
  handle_key key m =
      if m.confirm_kill
      then handle_confirm_key key m
      else if is_help m.view
      then handle_help_key key m
      else elim (global_key key m) [ none ↦ view_key m.view key m | some r ↦ r ]
