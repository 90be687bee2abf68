-- ===== src/Tui/Keys/Dispatch/Tests.antt =====
-- Runs of the keys.
use mysqlmonitoring.Prelude.{
  ℕ, ◌≡◌, refl, false, true, none, some, Option, [], ◌∷◌, Str, codes, str_eq, has_prefix,
}
use mysqlmonitoring.Prelude.Sort.{sort_stable}
use mysqlmonitoring.Collector.AppTag.{get_pair}
use mysqlmonitoring.Monitor.{blank_snapshot}
use mysqlmonitoring.Detector.Issues.{Issue, critical, warning, Severity}
use mysqlmonitoring.Tui.Rows.{
  IssueRow, build_issue_rows, all_rows, rows_of, populate_from_details, with_table, backfill,
  extract_table_from_sql, first_pid, age_of, proc_by_pid, trx_by_pid,
}
use mysqlmonitoring.Tui.Text.{
  parse_uint, parse_int, digits_from, friendly_kind, human_duration, strip_leading_sql_comments,
  strip_in, next_mode,
}
use mysqlmonitoring.Tui.Tables.{table_name}
use mysqlmonitoring.Tui.Keys.{
  view_overview, view_issue_detail, mdl_mode_list, key_kk, key_y, key_bb, key_mm, enter, World,
  Model, at, issue_rows, visible_issue_rows, detail_key, handle_issue_detail_key,
}
use mysqlmonitoring.Tui.Keys.Dispatch.{handle_key, handle_confirm_key, global_key, view_key}
use mysqlmonitoring.Tui.Keys.Dispatch.Offers.{killed}
use mysqlmonitoring.Tui.Keys.Dispatch.Filter.{IsOff, press_all, press_all-IsOff}

abbrev world : World
world = record {
  find_table = λ s. none;
  parse_time = λ s. none;
  wall = 9;
  table_order = λ ts. ts;
  mdl_order = [];
  root_order = λ ps. ps;
  load_groups = [];
  clipboard_taken = true;
}

abbrev issue : Severity → Str → Str → Issue
issue severity pid table = record {
  detector = codes "lock_chain";
  severity = severity;
  title = codes "Lock";
  description = [];
  details = (codes "root_blocker", pid) ∷ (codes "lock_table", table) ∷ [];
}

-- Two issues, with the filter on the table of the second.
abbrev model : Model
model = record {
  issues = issue critical (codes "1") (codes "a") ∷ issue warning (codes "2") (codes "b") ∷ [];
  snapshot = blank_snapshot 9;
  has_killer = true;
  has_insights = true;
  has_explainer = true;
  cursor = 0;
  quitting = false;
  status_msg = [];
  confirm_kill = false;
  confirm_pid = 0;
  confirm_kill_batch = [];
  confirm_kill_target = [];
  view = view_issue_detail;
  top_digests = [];
  top_cursor = 0;
  top_sort = 0;
  top_user = [];
  top_host = [];
  top_schema = [];
  explain_shown = false;
  issues_cursor = 0;
  issues_table_filter = codes "b";
  tables_cursor = 0;
  overview_cursor = 0;
  mdl_mode = mdl_mode_list;
  mdl_table_schema = [];
  mdl_table_name = [];
  mdl_list_cursor = 0;
  mdl_queue_cursor = 0;
  mdl_blocker_filter = false;
  help_return = view_overview;
}

abbrev pid_of : Option IssueRow → ℕ
pid_of none = 0
pid_of (some r) = r.pid

-- The detail view shows the row of the filtered list at the cursor, which is that of connection 2;
-- K and y kill connection 1, the row of the whole list.
filtered_detail :
    (pid_of (at (visible_issue_rows world model) model.issues_cursor) ≡ 2)
    × (killed (handle_key world key_y (handle_key world key_kk model).0).1 ≡ 1 ∷ [])
unfolding handle_key handle_confirm_key global_key view_key visible_issue_rows issue_rows detail_key
    handle_issue_detail_key table_name build_issue_rows sort_stable all_rows rows_of
    populate_from_details with_table backfill extract_table_from_sql first_pid age_of parse_uint
    parse_int digits_from friendly_kind human_duration proc_by_pid trx_by_pid
    strip_leading_sql_comments strip_in next_mode get_pair str_eq has_prefix
filtered_detail = (refl, refl)

abbrev unfiltered : Model
unfiltered = record model { issues_table_filter = [] }

press_all-IsOff_example :
    IsOff (press_all ((world, key_mm) ∷ (world, enter) ∷ (world, key_bb) ∷ []) model)
press_all-IsOff_example =
    press_all-IsOff ((world, key_mm) ∷ (world, enter) ∷ (world, key_bb) ∷ []) model refl
