-- ===== src/Tui/Tables/Tests.antt =====
-- Runs of the Tables view.
use mysqlmonitoring.Prelude.{
  ℕ, ◌↔◌, refl, inl, none, Option, List, [], ◌∷◌, Str, codes, In, str_eq, has_prefix,
}
use mysqlmonitoring.Monitor.{blank_snapshot}
use mysqlmonitoring.Prelude.Int.{ℤ}
use mysqlmonitoring.Prelude.Sort.{sort_stable}
use mysqlmonitoring.Collector.AppTag.{get_pair}
use mysqlmonitoring.Detector.Issues.{Issue, warning}
use mysqlmonitoring.Tui.Rows.{
  IssueRow, build_issue_rows, all_rows, rows_of, populate_from_details, with_table, backfill,
  extract_table_from_sql, first_pid, age_of, proc_by_pid, trx_by_pid,
}
use mysqlmonitoring.Tui.Text.{
  parse_uint, parse_int, digits_from, friendly_kind, human_duration, strip_leading_sql_comments,
  strip_in, next_mode,
}
use mysqlmonitoring.Tui.Tables.{
  TableRow, new_table, add_row, add_all, add_to_bucket, add_pid, table_name, build_table_rows,
  kill_pids,
}
use mysqlmonitoring.Tui.Tables.Pids.{Kills, kill_pids-build_table_rows}

abbrev no_table : Str → Option (Str × Str)
no_table s = none

abbrev no_time : Str → Option ℕ
no_time s = none

abbrev as_met : List TableRow → List TableRow
as_met ts = ts

all_met : (ts : List TableRow) (t : TableRow) → In t (as_met ts) ↔ In t ts
all_met ts t = ((λ m. m), λ m. m)

abbrev issue : Issue
issue = record {
  detector = codes "lock_chain";
  severity = warning;
  title = codes "Lock";
  description = [];
  details = (codes "root_blocker", codes "7") ∷ (codes "lock_table", codes "shop.t") ∷ [];
}

abbrev row : IssueRow
row = record {
  severity = warning;
  age = ℤ.pos 0;
  age_str = [];
  pid = 7;
  user = [];
  host = [];
  kind = codes "lock-chain";
  table = codes "shop.t";
  query = [];
  raw = issue;
}

abbrev table_row : TableRow
table_row = add_row row (new_table (codes "shop.t"))

kill_pids-build_table_rows_example :
    In 7 (kill_pids table_row)
    ↔ Kills table_row.name (build_issue_rows no_table no_time 9 (issue ∷ []) (blank_snapshot 9)) 7
unfolding build_table_rows sort_stable add_all add_to_bucket add_row add_pid table_name
    build_issue_rows all_rows rows_of populate_from_details with_table backfill
    extract_table_from_sql first_pid age_of parse_uint parse_int digits_from friendly_kind
    human_duration proc_by_pid trx_by_pid strip_leading_sql_comments strip_in next_mode get_pair
    str_eq has_prefix
kill_pids-build_table_rows_example =
    kill_pids-build_table_rows as_met all_met no_table no_time 9 (issue ∷ []) (blank_snapshot 9)
      table_row 7 (inl refl)
