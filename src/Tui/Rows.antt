-- ===== src/Tui/Rows.antt =====
-- internal/tui/issues.go: the rows of the Issues view.
-- The regular expression for a table's name and time.ParseInLocation are parameters, and so is the
-- wall clock, which time.Since reads.
pub mod Durations
pub mod Kept
mod Tests
use mysqlmonitoring.Prelude.{
  ℕ, suc, ◌+◌, ◌*◌, ◌-◌, ◌^◌, ◌/◌, ◌%◌, Bool, true, false, not, ◌&&◌, ◌||◌, Option, none, some,
  List, [], ◌∷◌, ◌++◌, ltb, leb, ◌==◌, if◌then◌else◌, Str, codes, str_eq, has_prefix,
}
use mysqlmonitoring.Prelude.Int.{ℤ, pos, pos_part, ◌-ℤ◌, ◌*ℤ◌, ltb_ℤ}
use mysqlmonitoring.Prelude.Sort.{sort_stable}
use mysqlmonitoring.Db.{Process, Transaction, Snapshot}
use mysqlmonitoring.Detector.Issues.{Issue, Severity, severity_rank, show, show_int, quot, seconds}
use mysqlmonitoring.Tui.Text.{
  is_digit, digits_from, parse_uint, in_range, signed, parse_int, human_duration, milliseconds,
  Mode, is_blank, next_mode, strip_in, strip_leading_sql_comments, friendly_kind, unit, is_int64,
  or_zero, duration_from, parse_duration, outside, block, closing, line,
}
use mysqlmonitoring.Collector.AppTag.{get_pair}

pub record IssueRow : Type 0 where
  pub severity : Severity
  pub age : ℤ
  pub age_str : Str
  pub pid : ℕ
  pub user : Str
  pub host : Str
  pub kind : Str
  pub table : Str
  pub query : Str
  pub raw : Issue

-- killable
abbrev pub killable : IssueRow → Bool
killable r = not (r.pid == 0)

-- The value of a key, or the empty text.
abbrev pub value_at : Str → List (Str × Str) → Str
value_at k details = elim (get_pair k details) [ none ↦ [] | some v ↦ v ]

-- procByPID and trxByPID, in which the last entry of an id stays.
unfoldable pub proc_by_pid : ℕ → List Process → Option Process → Option Process
proc_by_pid pid [] found = found
proc_by_pid pid (p ∷ ps) found = proc_by_pid pid ps (if p.id == pid then some p else found)

unfoldable pub trx_by_pid : ℕ → List Transaction → Option Transaction → Option Transaction
trx_by_pid pid [] found = found
trx_by_pid pid (t ∷ ts) found = trx_by_pid pid ts (if t.id == pid then some t else found)

abbrev pub has_begun : Option Transaction → Bool
has_begun none = false
has_begun (some t) = not (t.trx_started == 0)

abbrev pub started_of : Option Transaction → ℕ
started_of none = 0
started_of (some t) = t.trx_started

abbrev or_text : Str → Str → Str
or_text s t = if str_eq s [] then t else s

abbrev user_of : Option Process → Str
user_of none = []
user_of (some p) = p.user

abbrev host_of : Option Process → Str
host_of none = []
host_of (some p) = p.host

abbrev info_of : Option Process → Str
info_of none = []
info_of (some p) = p.info

-- The loop over the keys that may hold a PID; 0 if none does.
unfoldable pub first_pid : List (Str × Str) → List Str → ℕ
first_pid details [] = 0
first_pid details (k ∷ ks) =
    let rest = first_pid details ks in
    elim (parse_uint (value_at k details)) [
      | none ↦ rest
      | some pid ↦ if pid == 0 then rest else pid
    ]

abbrev pub pid_keys : List Str
pid_keys = codes "thread_id" ∷ codes "ddl_pid" ∷ codes "blocked_pid" ∷ codes "root_blocker" ∷ []

abbrev query_of : List (Str × Str) → Str
query_of details = elim (get_pair (codes "query") details) [
  | some v ↦ v
  | none ↦ value_at (codes "root_query") details
]

abbrev table_of : List (Str × Str) → Str
table_of details =
    or_text (value_at (codes "table") details) (value_at (codes "lock_table") details)

-- The age of a row and its text.
abbrev wait_age : Option ℤ → ℤ × Str
wait_age none = (pos 0, [])
wait_age (some n) = (seconds n, human_duration (n *ℤ pos 1000))

unfoldable pub age_of : List (Str × Str) → ℤ × Str
age_of details =
    if not (str_eq (value_at (codes "duration") details) [])
    then (parse_duration (value_at (codes "duration") details), value_at (codes "duration") details)
    else if not (str_eq (value_at (codes "wait_seconds") details) [])
    then wait_age (parse_int (value_at (codes "wait_seconds") details))
    else (pos 0, [])

-- `d == 0` on durations.
abbrev is_zero : ℤ → Bool
is_zero (pos n) = n == 0
is_zero (ℤ.negsuc n) = false

-- A row's age where it has none: that of a live transaction which began at `start`.
abbrev with_age : Bool → ℤ → IssueRow → IssueRow
with_age begun age row =
    if begun then record row { age = age; age_str = human_duration (milliseconds age) } else row

-- The order of buildIssueRows.
abbrev pub comes_first : IssueRow → IssueRow → Bool
comes_first a b =
    if severity_rank a.severity == severity_rank b.severity
    then ltb_ℤ b.age a.age
    else ltb (severity_rank b.severity) (severity_rank a.severity)

module _ (find_table : Str → Option (Str × Str)) (parse_time : Str → Option ℕ) (wall : ℕ) where
  -- extractTableFromSQL, where `find_table` gives the two groups of the first match.
  unfoldable pub extract_table_from_sql : Str → Str
  extract_table_from_sql sql =
      if str_eq (strip_leading_sql_comments sql) []
      then []
      else elim (find_table (strip_leading_sql_comments sql)) [
        | none ↦ []
        | some m ↦ if str_eq m.1 [] then m.0 else m.0 ++ codes "." ++ m.1
      ]

  unfoldable pub with_table : IssueRow → IssueRow
  with_table row = record row { table = or_text row.table (extract_table_from_sql row.query) }

  -- The block that fills in what is missing from the snapshot.
  unfoldable pub backfill : Snapshot → IssueRow → IssueRow
  backfill snap row =
      let proc = proc_by_pid row.pid snap.processes none in
      let trx = trx_by_pid row.pid snap.transactions none in
      let filled = record row {
        query = or_text row.query (info_of proc);
        user = or_text row.user (user_of proc);
        host = or_text row.host (host_of proc);
      } in
      if row.pid == 0
      then row
      else with_age (has_begun trx && is_zero row.age) (pos wall -ℤ pos (started_of trx)) filled

  -- populateFromDetails
  unfoldable pub populate_from_details : Snapshot → IssueRow → List (Str × Str) → IssueRow
  populate_from_details snap row details =
      let age = age_of details in
      with_table (
        backfill snap (record row {
          pid = first_pid details pid_keys;
          user = value_at (codes "user") details;
          host = value_at (codes "host") details;
          query = query_of details;
          table = table_of details;
          age = age.0;
          age_str = age.1;
        }))

  abbrev pub bare_row : Issue → IssueRow
  bare_row iss = record {
    severity = iss.severity;
    age = pos 0;
    age_str = [];
    pid = 0;
    user = [];
    host = [];
    kind = friendly_kind iss.detector;
    table = [];
    query = [];
    raw = iss;
  }

  -- deadlockAge
  pub deadlock_age : Issue → ℕ → ℤ
  deadlock_age iss now =
      let ts = value_at (codes "timestamp") iss.details in
      if str_eq ts [] then pos 0 else elim (parse_time ts) [
        | none ↦ pos 0
        | some t ↦ if ltb now t then pos 0 else pos (now - t)
      ]

  abbrev pub participant_key : ℕ → Str → Str
  participant_key i name = codes "trx" ++ show i ++ codes "_" ++ name

  -- The row of participant `i`, before it is completed from the snapshot.
  pub participant_row : Issue → ℕ → IssueRow
  participant_row iss i = record (bare_row iss) {
    user = value_at (participant_key i (codes "user")) iss.details;
    host = value_at (participant_key i (codes "host")) iss.details;
    query = value_at (participant_key i (codes "query")) iss.details;
    table = value_at (participant_key i (codes "table")) iss.details;
    pid = elim (parse_uint (value_at (participant_key i (codes "thread_id")) iss.details)) [
      | none ↦ 0
      | some pid ↦ pid
    ];
  }

  -- The body of expandDeadlock's loop, for the age of the deadlock.
  pub complete_participant : Snapshot → ℤ → IssueRow → IssueRow
  complete_participant snap dl_age row =
      let proc = proc_by_pid row.pid snap.processes none in
      let trx = trx_by_pid row.pid snap.transactions none in
      let aged = with_age (has_begun trx) (pos snap.time -ℤ pos (started_of trx)) row in
      let live = if row.pid == 0 then row else record aged {
        user = or_text row.user (user_of proc);
        host = or_text row.host (host_of proc);
        query = or_text row.query (info_of proc);
      } in
      with_table (with_age (is_zero live.age && ltb_ℤ (pos 0) dl_age) dl_age live)

  pub participant_rows : Snapshot → Issue → ℤ → ℕ → ℕ → List IssueRow
  participant_rows snap iss dl_age i ℕ.zero = []
  participant_rows snap iss dl_age i (suc n) =
      complete_participant snap dl_age (participant_row iss i)
      ∷ participant_rows snap iss dl_age (i + 1) n

  abbrev count_of : Option ℤ → ℤ
  count_of none = pos 0
  count_of (some n) = n

  -- expandDeadlock; a negative count makes `make` panic, which is left out, and gives no row here.
  pub expand_deadlock : Snapshot → Issue → List IssueRow
  expand_deadlock snap iss =
      let count = count_of (parse_int (value_at (codes "participants") iss.details)) in
      if is_zero count
      then bare_row iss ∷ []
      else participant_rows snap iss (deadlock_age iss snap.time) 1 (pos_part count)

  unfoldable pub rows_of : Snapshot → Issue → List IssueRow
  rows_of snap iss =
      if str_eq iss.detector (codes "deadlock")
      then expand_deadlock snap iss
      else populate_from_details snap (bare_row iss) iss.details ∷ []

  unfoldable pub all_rows : Snapshot → List Issue → List IssueRow
  all_rows snap [] = []
  all_rows snap (iss ∷ issues) = rows_of snap iss ++ all_rows snap issues

  unfoldable pub build_issue_rows : List Issue → Snapshot → List IssueRow
  build_issue_rows issues snap = sort_stable comes_first (all_rows snap issues)
