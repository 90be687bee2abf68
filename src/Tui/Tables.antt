-- ===== src/Tui/Tables.antt =====
-- internal/tui/tables.go: the rows of the Tables view. The tables are taken out of a map, in an order
-- that Go does not fix: `order` gives it.
pub mod Pids
mod Tests
use mysqlmonitoring.Prelude.{
  ℕ, ◌+◌, ◌-◌, Bool, true, false, ◌||◌, Option, none, some, List, [], ◌∷◌, ◌++◌, ltb, ◌==◌,
  if◌then◌else◌, any_of, length, drop, Str, codes, str_eq, has_prefix, to_upper, trim_space, ◌&&◌,
  leb,
}
use mysqlmonitoring.Prelude.Int.{ℤ, pos, ltb_ℤ}
use mysqlmonitoring.Prelude.Sort.{sort_stable}
use mysqlmonitoring.Db.{Snapshot}
use mysqlmonitoring.Detector.Issues.{Issue, Severity, info, warning, critical, severity_rank}
use mysqlmonitoring.Tui.Rows.{IssueRow, killable, build_issue_rows}
use mysqlmonitoring.Tui.Text.{strip_leading_sql_comments}

abbrev pub bucket_idle : Str
bucket_idle = codes "(idle: no SQL captured)"

abbrev pub bucket_session_admin : Str
bucket_session_admin = codes "(session admin: SET / SELECT @@ / SHOW)"

abbrev pub bucket_txn_control : Str
bucket_txn_control = codes "(transaction control: BEGIN / COMMIT)"

abbrev pub bucket_digest_trunc : Str
bucket_digest_trunc = codes "(digest truncated by perf_schema)"

abbrev pub bucket_no_table_ref : Str
bucket_no_table_ref = codes "(no table reference in SQL)"

-- strings.HasSuffix
abbrev has_suffix : Str → Str → Bool
has_suffix s end = leb (length end) (length s) && str_eq (drop (length s - length end) s) end

-- bucketForUntableable, where " " and a tab end a verb.
pub bucket_for_untableable : Str → Str
bucket_for_untableable query =
    let s = strip_leading_sql_comments query in
    let trimmed = trim_space s in
    let upper = to_upper trimmed in
    if str_eq (trim_space query) []
    then bucket_idle
    else if str_eq s []
    then bucket_idle
    else if has_prefix upper (codes "BEGIN")
        || has_prefix upper (codes "COMMIT")
        || has_prefix upper (codes "ROLLBACK")
        || has_prefix upper (codes "SAVEPOINT")
        || has_prefix upper (codes "RELEASE SAVEPOINT")
        || has_prefix upper (codes "START TRANSACTION")
    then bucket_txn_control
    else if has_prefix upper (codes "SET ")
        || has_prefix upper (codes "SET" ++ 9 ∷ [])
        || has_prefix upper (codes "SHOW ")
        || has_prefix upper (codes "USE ")
        || has_prefix upper (codes "SELECT @@")
    then bucket_session_admin
    else if has_suffix trimmed (codes "...")
    then bucket_digest_trunc
    else bucket_no_table_ref

-- bySeverity is three counts.
pub record TableRow : Type 0 where
  pub name : Str
  pub issue_count : ℕ
  pub infos : ℕ
  pub warnings : ℕ
  pub criticals : ℕ
  pub oldest_age : ℤ
  pub oldest_str : Str
  pub max_sev : Severity
  pub pids : List ℕ
  pub rows : List IssueRow

abbrev pub new_table : Str → TableRow
new_table name = record {
  name = name;
  issue_count = 0;
  infos = 0;
  warnings = 0;
  criticals = 0;
  oldest_age = pos 0;
  oldest_str = [];
  max_sev = info;
  pids = [];
  rows = [];
}

-- The name that a row is counted under.
unfoldable pub table_name : IssueRow → Str
table_name r = if str_eq r.table [] then bucket_for_untableable r.query else r.table

abbrev pub contains_uint64 : List ℕ → ℕ → Bool
contains_uint64 pids v = any_of (λ x. x == v) pids

-- t.pids after a row.
unfoldable pub add_pid : IssueRow → List ℕ → List ℕ
add_pid r pids =
    if killable r then (if contains_uint64 pids r.pid then pids else pids ++ r.pid ∷ []) else pids

abbrev is_rank : ℕ → Severity → ℕ
is_rank n s = if severity_rank s == n then 1 else 0

-- The body of the loop, from `t.issueCount++` on.
unfoldable pub add_row : IssueRow → TableRow → TableRow
add_row r t = record t {
  issue_count = t.issue_count + 1;
  infos = t.infos + is_rank 0 r.severity;
  warnings = t.warnings + is_rank 1 r.severity;
  criticals = t.criticals + is_rank 2 r.severity;
  max_sev =
      if ltb (severity_rank t.max_sev) (severity_rank r.severity) then r.severity else t.max_sev;
  oldest_age = if ltb_ℤ t.oldest_age r.age then r.age else t.oldest_age;
  oldest_str = if ltb_ℤ t.oldest_age r.age then r.age_str else t.oldest_str;
  pids = add_pid r t.pids;
  rows = t.rows ++ r ∷ [];
}

-- The map of tables, in the order in which they are met.
unfoldable pub add_to_bucket : IssueRow → List TableRow → List TableRow
add_to_bucket r [] = add_row r (new_table (table_name r)) ∷ []
add_to_bucket r (t ∷ ts) =
    if str_eq t.name (table_name r) then add_row r t ∷ ts else t ∷ add_to_bucket r ts

unfoldable pub add_all : List IssueRow → List TableRow → List TableRow
add_all [] ts = ts
add_all (r ∷ rs) ts = add_all rs (add_to_bucket r ts)

-- The order of buildTableRows.
abbrev pub table_first : TableRow → TableRow → Bool
table_first a b =
    if severity_rank a.max_sev == severity_rank b.max_sev
    then (if a.issue_count == b.issue_count
        then ltb_ℤ b.oldest_age a.oldest_age
        else ltb b.issue_count a.issue_count)
    else ltb (severity_rank b.max_sev) (severity_rank a.max_sev)

module _ (order : List TableRow → List TableRow) (find_table : Str → Option (Str × Str))
    (parse_time : Str → Option ℕ) (wall : ℕ) where
  unfoldable pub build_table_rows : List Issue → Snapshot → List TableRow
  build_table_rows issues snap =
      sort_stable table_first
        (order (add_all (build_issue_rows find_table parse_time wall issues snap) []))

-- killPIDs
abbrev pub kill_pids : TableRow → List ℕ
kill_pids t = t.pids
