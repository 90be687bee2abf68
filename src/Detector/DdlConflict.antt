-- ===== src/Detector/DdlConflict.antt =====
-- internal/detector/ddl_conflict.go: DDL statements that wait for a metadata lock, and statements
-- that wait behind DDL. A Duration is not bounded here, and case and blanks are those of ASCII.
pub mod Waits
mod Tests
use mysqlmonitoring.Prelude.{
  ℕ, Bool, true, false, not, ◌&&◌, ◌||◌, List, [], ◌∷◌, ◌++◌, filter_by, any_of, ◌==◌, ltb, leb,
  if◌then◌else◌, Str, codes, str_eq, has_prefix, contains, to_upper, trim_space,
}
use mysqlmonitoring.Prelude.Int.{ℤ, pos, ltb_ℤ}
use mysqlmonitoring.Db.{Transaction, Process, MetadataLock, Snapshot}
use mysqlmonitoring.Detector.Issues.{
  Severity, warning, critical, Issue, show, show_int, seconds, truncate_query, join,
}

pub record DdlConflictDetector : Type 0 where
  pub wait_threshold : ℤ

abbrev pub name : Str
name = codes "ddl_conflict"

abbrev pub waiting_state : Str
waiting_state = codes "Waiting for table metadata lock"

abbrev pub ddl_prefixes : List Str
ddl_prefixes =
    codes "ALTER " ∷ codes "CREATE " ∷ codes "DROP " ∷ codes "RENAME " ∷ codes "TRUNCATE " ∷ []

-- isDDL
pub is_ddl : Str → Bool
is_ddl query =
    let q = trim_space (to_upper query) in any_of (λ prefix. has_prefix q prefix) ddl_prefixes

-- findDDLProcesses and findWaitingProcesses
pub find_ddl_processes : List Process → List Process
find_ddl_processes processes = filter_by (λ p. is_ddl p.info) processes

pub find_waiting_processes : List Process → List Process
find_waiting_processes processes = filter_by (λ p. contains p.state (codes "Waiting")) processes

pub blocker_ids : Process → List Transaction → List Str
blocker_ids ddl [] = []
blocker_ids ddl (trx ∷ rest) =
    let others = blocker_ids ddl rest in
    if str_eq trx.db ddl.db && not (trx.id == ddl.id)
    then (codes "PID:"
        ++ show trx.id
        ++ codes "("
        ++ trx.user
        ++ codes "@"
        ++ trx.host
        ++ codes ")")
      ∷ others
    else others

-- findPotentialBlockers; it takes the metadata locks, and does not read them.
pub find_potential_blockers : Process → List Transaction → List MetadataLock → Str
find_potential_blockers ddl txns mdlocks = elim (blocker_ids ddl txns) [
  | [] ↦ codes "unknown"
  | id ∷ ids ↦ join (codes ", ") (id ∷ ids)
]

-- sameTable
pub same_table : Process → Process → Bool
same_table a b = not (str_eq a.db []) && str_eq a.db b.db

pub severity_of : DdlConflictDetector → Process → Severity
severity_of d p = if ltb_ℤ (seconds p.time) d.wait_threshold then warning else critical

pub blocked_ddl : DdlConflictDetector → Snapshot → Process → Issue
blocked_ddl d snapshot ddl =
    let blockers = find_potential_blockers ddl snapshot.transactions snapshot.metadata_locks in
    record {
      detector = name;
      severity = severity_of d ddl;
      title = codes "DDL blocked by metadata lock";
      description =
          codes "DDL on "
          ++ ddl.db
          ++ codes " by "
          ++ ddl.user
          ++ codes "@"
          ++ ddl.host
          ++ codes " waiting for metadata lock for "
          ++ show_int ddl.time
          ++ codes "s. Query: "
          ++ truncate_query ddl.info 80
          ++ codes ". Potential blockers: "
          ++ blockers;
      details =
          (codes "ddl_pid", show ddl.id)
          ∷ (codes "user", ddl.user)
          ∷ (codes "host", ddl.host)
          ∷ (codes "database", ddl.db)
          ∷ (codes "wait_seconds", show_int ddl.time)
          ∷ (codes "query", ddl.info)
          ∷ (codes "blockers", blockers)
          ∷ [];
    }

pub blocked_dml : DdlConflictDetector → Process → Process → Issue
blocked_dml d proc ddl = record {
  detector = name;
  severity = severity_of d proc;
  title = codes "DML blocked by DDL";
  description =
      codes "DML by "
      ++ proc.user
      ++ codes "@"
      ++ proc.host
      ++ codes " blocked by DDL (PID:"
      ++ show ddl.id
      ++ codes ") for "
      ++ show_int proc.time
      ++ codes "s. Query: "
      ++ truncate_query proc.info 80;
  details =
      (codes "blocked_pid", show proc.id)
      ∷ (codes "ddl_pid", show ddl.id)
      ∷ (codes "user", proc.user)
      ∷ (codes "wait_seconds", show_int proc.time)
      ∷ (codes "query", proc.info)
      ∷ [];
}

-- The first loop of Detect.
pub ddl_issues : DdlConflictDetector → Snapshot → List Process → List Issue
ddl_issues d snapshot [] = []
ddl_issues d snapshot (ddl ∷ rest) =
    let others = ddl_issues d snapshot rest in
    if str_eq ddl.state waiting_state then blocked_ddl d snapshot ddl ∷ others else others

-- The inner loop of its second loop, for one waiting process.
pub dml_issues_of : DdlConflictDetector → Process → List Process → List Issue
dml_issues_of d proc [] = []
dml_issues_of d proc (ddl ∷ rest) =
    let others = dml_issues_of d proc rest in
    if not (ddl.id == proc.id) && same_table ddl proc
    then blocked_dml d proc ddl ∷ others
    else others

pub dml_issues : DdlConflictDetector → List Process → List Process → List Issue
dml_issues d ddls [] = []
dml_issues d ddls (proc ∷ rest) =
    let others = dml_issues d ddls rest in
    if str_eq proc.state waiting_state && not (is_ddl proc.info)
    then dml_issues_of d proc ddls ++ others
    else others

-- Detect
pub detect : DdlConflictDetector → Snapshot → List Issue
detect d snapshot =
    let ddls = find_ddl_processes snapshot.processes in
    ddl_issues d snapshot ddls ++ dml_issues d ddls (find_waiting_processes snapshot.processes)
