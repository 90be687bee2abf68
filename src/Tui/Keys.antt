-- ===== src/Tui/Keys.antt =====
-- internal/tui/model.go and mdl.go: what a key press does to the model, and the command that it hands
-- back. Not modelled here and so arguments: the rows of the Overview's load panel, and whether the terminal takes what is written to the clipboard. Cursors never go below 0.
pub mod Dispatch
use mysqlmonitoring.Prelude.{
  ℕ, ◌+◌, ◌-◌, ◌%◌, Bool, true, false, not, ◌&&◌, ◌||◌, Option, none, some, List, [], ◌∷◌, ◌++◌,
  ltb, leb, ◌==◌, if◌then◌else◌, filter_by, length, Str, codes, str_eq,
}
use mysqlmonitoring.Db.{Snapshot}
use mysqlmonitoring.Detector.Issues.{Issue, show}
use mysqlmonitoring.Insights.Mdl
use mysqlmonitoring.Insights.Mdl.{MdlQueue, MdlBreakdown, build_mdl}
use mysqlmonitoring.Tui.Rows.{IssueRow, killable, build_issue_rows}
use mysqlmonitoring.Tui.Tree.{TreeEntry, build_tree_entries}
use mysqlmonitoring.Tui.Tables.{TableRow, build_table_rows, table_name, kill_pids}

pub data ViewState : Type 0 where
  view_issues view_lock view_top view_explain view_issue_detail view_help view_tables view_overview
        view_mdl :
      ViewState

pub data MdlMode : Type 0 where
  mdl_mode_list mdl_mode_detail : MdlMode

-- The strings of a key press that the code names; an upper-case letter is written twice.
pub data Key : Type 0 where
  key_y key_yy key_q ctrl_c question esc tab key_t key_oo key_ii key_ll key_bb key_mm up key_k down
        key_j key_g key_gg enter key_v slash key_kk key_u key_h key_s key_e other_key :
      Key

-- What a key press reads besides the model.
pub record World : Type 0 where
  pub find_table : Str → Option (Str × Str)
  pub parse_time : Str → Option ℕ
  pub wall : ℕ
  pub table_order : List TableRow → List TableRow
  pub mdl_order : List Str
  pub root_order : List ℕ → List ℕ
  pub load_groups : List Str
  pub clipboard_taken : Bool

-- The fields that the keys read or write. The pointers count only as nil or not.
pub record Model : Type 0 where
  pub issues : List Issue
  pub snapshot : Snapshot
  pub has_killer : Bool
  pub has_insights : Bool
  pub has_explainer : Bool
  pub cursor : ℕ
  pub quitting : Bool
  pub status_msg : Str
  pub confirm_kill : Bool
  pub confirm_pid : ℕ
  pub confirm_kill_batch : List ℕ
  pub confirm_kill_target : Str
  pub view : ViewState
  pub top_digests : List Str
  pub top_cursor : ℕ
  pub top_sort : ℕ
  pub top_user : Str
  pub top_host : Str
  pub top_schema : Str
  pub explain_shown : Bool
  pub issues_cursor : ℕ
  pub issues_table_filter : Str
  pub tables_cursor : ℕ
  pub overview_cursor : ℕ
  pub mdl_mode : MdlMode
  pub mdl_table_schema : Str
  pub mdl_table_name : Str
  pub mdl_list_cursor : ℕ
  pub mdl_queue_cursor : ℕ
  pub mdl_blocker_filter : Bool
  pub help_return : ViewState

-- The tea.Cmd that comes back: nothing, the end, the kills of PIDs, or an EXPLAIN of a digest.
pub data Command : Type 0 where
  no_command quit : Command
  kill_one : ℕ → Command
  kill_batch : Str → List ℕ → Command
  run_explain : Str → Command

-- rows[i]
abbrev pub at {ℓ} : {A : Type ℓ} → List A → ℕ → Option A
at [] i = none
at (x ∷ xs) i = let rest = at xs (i - 1) in if i == 0 then some x else rest

-- The moves of a cursor over `n` rows; any other key leaves it.
pub move : Key → ℕ → ℕ → ℕ
move up c n = c - 1
move key_k c n = c - 1
move down c n = if ltb (c + 1) n then c + 1 else c
move key_j c n = if ltb (c + 1) n then c + 1 else c
move key_g c n = 0
move key_gg c n = if ltb 0 n then n - 1 else c
move _ c n = c

-- yankToClipboard
pub yank_to_clipboard : Bool → Str → Str
yank_to_clipboard taken payload =
    if str_eq payload []
    then codes "nothing to copy"
    else if taken
    then codes "copied " ++ show (length payload) ++ codes " chars to clipboard"
    else codes "clipboard unavailable"

-- m.confirmKill = true; m.confirmPID = pid
abbrev pub ask_kill : ℕ → Model → Model
ask_kill pid m = record m { confirm_kill = true; confirm_pid = pid }

abbrev pub no_pid_text : Str
no_pid_text = codes "selected issue has no killable PID"

module _ (w : World) where
  pub issue_rows : Model → List IssueRow
  issue_rows m = build_issue_rows w.find_table w.parse_time w.wall m.issues m.snapshot

  -- visibleIssueRows for the filter of the model.
  pub visible_issue_rows : Model → List IssueRow
  visible_issue_rows m =
      if str_eq m.issues_table_filter []
      then issue_rows m
      else filter_by (λ r. str_eq (table_name r) m.issues_table_filter) (issue_rows m)

  unfoldable pub table_rows : Model → List TableRow
  table_rows m = build_table_rows w.table_order w.find_table w.parse_time w.wall m.issues m.snapshot

  abbrev pub tree_entries : Model → List TreeEntry
  tree_entries m = build_tree_entries w.root_order m.snapshot

  -- The kill that the views of issues ask for.
  abbrev pub ask_row : IssueRow → Model → Model
  ask_row r m = if killable r then ask_kill r.pid m else record m { status_msg = no_pid_text }

  pub handle_issues_key : Key → Model → Model
  handle_issues_key enter m =
      if ltb 0 (length (visible_issue_rows m)) then record m { view = view_issue_detail } else m
  handle_issues_key key_v m =
      if ltb 0 (length (visible_issue_rows m)) then record m { view = view_issue_detail } else m
  handle_issues_key slash m =
      if str_eq m.issues_table_filter []
      then m
      else record m { issues_table_filter = []; issues_cursor = 0 }
  handle_issues_key key_y m = elim (at (visible_issue_rows m) m.issues_cursor) [
    | none ↦ m
    | some r ↦ record m { status_msg = yank_to_clipboard w.clipboard_taken r.query }
  ]
  handle_issues_key key_kk m = elim (at (visible_issue_rows m) m.issues_cursor) [
    | none ↦ m
    | some r ↦ if m.has_killer then ask_row r m else m
  ]
  handle_issues_key key m = record m {
    issues_cursor = move key m.issues_cursor (length (visible_issue_rows m));
  }

  -- handleIssueDetailKey, which reads the rows without the filter.
  pub detail_key : Key → IssueRow → Model → Model
  detail_key key_y r m = record m { status_msg = yank_to_clipboard w.clipboard_taken r.query }
  detail_key key_kk r m =
      if m.has_killer then ask_row r m else record m { status_msg = no_pid_text }
  detail_key _ r m = m

  pub handle_issue_detail_key : Key → Model → Model
  handle_issue_detail_key key m = elim (at (issue_rows m) m.issues_cursor) [
    | none ↦ record m { view = view_issues }
    | some r ↦ detail_key key r m
  ]

  abbrev pub ask_batch : TableRow → Model → Model
  ask_batch t m =
      if leb (length t.pids) 0
      then record m { status_msg = codes "no killable connections on this table" }
      else record m {
        confirm_kill = true;
        confirm_kill_batch = kill_pids t;
        confirm_kill_target = t.name;
      }

  pub handle_tables_key : Key → Model → Model
  handle_tables_key enter m = elim (at (table_rows m) m.tables_cursor) [
    | none ↦ m
    | some t ↦ record m { issues_table_filter = t.name; view = view_issues; issues_cursor = 0 }
  ]
  handle_tables_key key_kk m = elim (at (table_rows m) m.tables_cursor) [
    | none ↦ m
    | some t ↦ if m.has_killer then ask_batch t m else m
  ]
  handle_tables_key key m = record m {
    tables_cursor = move key m.tables_cursor (length (table_rows m));
  }

  -- handleOverviewKey
  abbrev drill : Model → Model
  drill m = elim (at w.load_groups m.overview_cursor) [
    | none ↦ m
    | some group ↦
        if m.has_insights
        then record m { top_user = group; top_host = []; top_schema = []; view = view_top }
        else m
  ]

  abbrev drill_all : Model → Model
  drill_all m =
      if m.has_insights
      then record m { top_user = []; top_host = []; top_schema = []; view = view_top }
      else m

  pub handle_overview_key : Key → Model → Model
  handle_overview_key enter m = drill m
  handle_overview_key key_u m = drill m
  handle_overview_key key_h m = drill_all m
  handle_overview_key key_s m = drill_all m
  handle_overview_key key m = record m {
    overview_cursor = move key m.overview_cursor (length w.load_groups);
  }

  -- The first blocker before, and behind, a position.
  unfoldable pub blocker_before : List TreeEntry → ℕ → ℕ → ℕ → ℕ
  blocker_before [] i limit found = found
  blocker_before (e ∷ es) i limit found =
      blocker_before es (i + 1) limit (if ltb i limit && e.is_blocker then i else found)

  unfoldable pub blocker_behind : List TreeEntry → ℕ → ℕ → Option ℕ
  blocker_behind [] i limit = none
  blocker_behind (e ∷ es) i limit =
      let rest = blocker_behind es (i + 1) limit in
      if ltb limit i && e.is_blocker then some i else rest

  unfoldable pub handle_lock_key : Key → Model → Model
  handle_lock_key up m = record m { cursor = blocker_before (tree_entries m) 0 m.cursor m.cursor }
  handle_lock_key key_k m = record m {
    cursor = blocker_before (tree_entries m) 0 m.cursor m.cursor;
  }
  handle_lock_key down m = elim (blocker_behind (tree_entries m) 0 m.cursor) [
    | none ↦ m
    | some i ↦ record m { cursor = i }
  ]
  handle_lock_key key_j m = elim (blocker_behind (tree_entries m) 0 m.cursor) [
    | none ↦ m
    | some i ↦ record m { cursor = i }
  ]
  handle_lock_key key_kk m = elim (at (tree_entries m) m.cursor) [
    | none ↦ m
    | some e ↦ if m.has_killer then ask_kill e.pid m else m
  ]
  handle_lock_key _ m = m
