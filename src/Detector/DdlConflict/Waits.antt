-- ===== src/Detector/DdlConflict/Waits.antt =====
-- ddl_conflict.go: exactly which processes are reported.
use mysqlmonitoring.Prelude.{◌≡◌, ◌≢◌, true, false, List, In}
use mysqlmonitoring.Db.{Process, Snapshot}
use mysqlmonitoring.Detector.Issues.{Issue}
use mysqlmonitoring.Detector.DdlConflict.{
  DdlConflictDetector, waiting_state, is_ddl, same_table, blocked_ddl, blocked_dml,
}

-- The process waits for the metadata lock of a table.
abbrev pub IsWaiting : Process → Type 0
IsWaiting p = p.state ≡ waiting_state

abbrev pub IsDdl : Process → Type 0
IsDdl p = is_ddl p.info ≡ true

-- A DDL process of the list waits, and the issue is its.
abbrev pub DdlBlocked : DdlConflictDetector → Snapshot → List Process → Issue → Type 0
DdlBlocked d snapshot ddls i =
    (ddl : Process) × In ddl ddls × IsWaiting ddl × (i ≡ blocked_ddl d snapshot ddl)

-- Some DDL process of the list is another process on the same database, and the issue is that of the
-- process behind it.
abbrev pub Behind : DdlConflictDetector → Process → List Process → Issue → Type 0
Behind d proc ddls i =
    (ddl : Process) × In ddl ddls
    × (ddl.id ≢ proc.id)
    × (same_table ddl proc ≡ true)
    × (i ≡ blocked_dml d proc ddl)

-- Some waiting process of the list that is not DDL itself stands behind a DDL process.
abbrev pub DmlBlocked : DdlConflictDetector → List Process → List Process → Issue → Type 0
DmlBlocked d ddls procs i =
    (proc : Process) × In proc procs
    × IsWaiting proc
    × (is_ddl proc.info ≡ false)
    × Behind d proc ddls i

abbrev IsHeld : Process → Type 0
IsHeld p = IsWaiting p × (is_ddl p.info ≡ false)
