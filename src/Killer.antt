-- ===== src/Killer.antt =====
-- internal/killer/killer.go: the safety checks before a KILL. The database is not under this
-- package: what its three calls return are the fields of `Database`, and the last of them is the
-- only effect, so the result says whether it was issued.
pub mod Safety
mod Tests
use mysqlmonitoring.Prelude.{
  ℕ, Bool, true, false, ◌==◌, ◌||◌, Option, none, some, List, [], ◌∷◌, if◌then◌else◌, any_of, Str,
  codes, str_eq, contains, to_lower,
}
use mysqlmonitoring.Db.{Process, Answer, answered, failed}

-- The reasons of a SafetyError, with the text that the message holds.
pub data SafetyError : Type 0 where
  own_connection : SafetyError
  system_user : Str → SafetyError
  replication_thread : SafetyError
  replication_state : Str → SafetyError

pub record Database : Type 0 where
  pub connection_id : Answer ℕ
  pub processes : Answer (List Process)

-- What Kill does: it returns an error of its own and issues nothing, or it hands the id to
-- KillConnection and returns that call's result.
pub data Outcome : Type 0 where
  no_own_id : Str → Outcome
  no_process_list : Str → Outcome
  not_found : ℕ → Outcome
  refused : SafetyError → Outcome
  issued : ℕ → Outcome

abbrev pub system_users : List Str
system_users =
    codes "system user"
    ∷ codes "event_scheduler"
    ∷ codes "slave_worker"
    ∷ codes "slave_io"
    ∷ codes "slave_sql"
    ∷ []

abbrev pub replication_commands : List Str
replication_commands = codes "Binlog Dump" ∷ codes "Binlog Dump GTID" ∷ []

abbrev pub replication_states : List Str
replication_states =
    codes "Slave_IO_Running"
    ∷ codes "Slave_SQL_Running"
    ∷ codes "Waiting for master to send event"
    ∷ []

-- checkSafety; each of its loops returns at the first match.
pub check_safety : Process → Option SafetyError
check_safety p =
    if any_of (λ su. str_eq (to_lower p.user) su) system_users
    then some (system_user p.user)
    else if any_of (λ cmd. str_eq p.command cmd) replication_commands
    then some replication_thread
    else if any_of (λ state. contains p.state state) replication_states
    then some (replication_state p.state)
    else none

-- The loop of Kill that looks for the process.
pub target : ℕ → List Process → Option Process
target id [] = none
target id (p ∷ ps) = if p.id == id then some p else target id ps

-- The checks of Kill on the process that was found.
pub finish : ℕ → Option Process → Outcome
finish id none = not_found id
finish id (some p) = elim (check_safety p) [ none ↦ issued id | some e ↦ refused e ]

pub search : ℕ → Answer (List Process) → Outcome
search id (failed e) = no_process_list e
search id (answered ps) = finish id (target id ps)

pub check_self : ℕ → Database → Answer ℕ → Outcome
check_self id d (failed e) = no_own_id e
check_self id d (answered self) =
    if id == self then refused own_connection else search id d.processes

-- Kill
pub kill : Database → ℕ → Outcome
kill d id = check_self id d d.connection_id
