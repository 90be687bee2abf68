-- ===== src/Db.antt =====
-- internal/db/db.go: the rows that the database layer hands to the detectors, the killer and the
-- views. A time is its number of nanoseconds since Go's zero time.
pub mod Dsn
pub mod MyCnf
use mysqlmonitoring.Prelude.{ℕ, Bool, Option, List, Str}
use mysqlmonitoring.Prelude.Int.{ℤ}

pub record Transaction : Type 0 where
  pub id : ℕ
  pub user : Str
  pub host : Str
  pub db : Str
  pub command : Str
  pub time : ℤ
  pub state : Str
  pub query : Str
  pub digest_text : Str
  pub trx_id : Str
  pub trx_state : Str
  pub trx_started : ℕ

pub record LockWait : Type 0 where
  pub waiting_trx_id : Str
  pub waiting_pid : ℕ
  pub waiting_query : Str
  pub waiting_digest : Str
  pub waiting_user : Str
  pub waiting_host : Str
  pub blocking_trx_id : Str
  pub blocking_pid : ℕ
  pub blocking_query : Str
  pub blocking_digest : Str
  pub blocking_user : Str
  pub blocking_host : Str
  pub lock_table : Str
  pub lock_index : Str
  pub lock_type : Str
  pub wait_started : ℕ
  pub wait_duration_ms : ℤ

pub record Process : Type 0 where
  pub id : ℕ
  pub user : Str
  pub host : Str
  pub db : Str
  pub command : Str
  pub time : ℤ
  pub state : Str
  pub info : Str

pub record MetadataLock : Type 0 where
  pub thread_id : ℕ
  pub pid : ℕ
  pub user : Str
  pub host : Str
  pub lock_type : Str
  pub duration : Str
  pub lock_status : Str
  pub object_type : Str
  pub object_schema : Str
  pub object_name : Str
  pub time_seconds : ℤ
  pub info : Str

pub record DeadlockTransaction : Type 0 where
  pub trx_id : Str
  pub thread_id : ℕ
  pub query : Str
  pub user : Str
  pub host : Str
  pub lock_mode : Str
  pub table_name : Str
  pub index_name : Str
  pub waiting_for : Str

pub record DeadlockInfo : Type 0 where
  pub timestamp : Str
  pub transactions : List DeadlockTransaction

pub record InnodbStatus : Type 0 where
  pub raw : Str
  pub latest_deadlock : Option DeadlockInfo
  pub transaction_count : ℤ
  pub active_trx_count : ℤ
  pub lock_wait_count : ℤ
  pub history_list_length : ℕ

pub record ServerInfo : Type 0 where
  pub version : Str
  pub version_number : ℤ
  pub is_mariadb : Bool
  pub is_aurora : Bool
  pub is_rds : Bool

pub record Snapshot : Type 0 where
  pub time : ℕ
  pub server_info : ServerInfo
  pub transactions : List Transaction
  pub lock_waits : List LockWait
  pub processes : List Process
  pub metadata_locks : List MetadataLock
  pub innodb_status : InnodbStatus

-- An answer of the database: a value, or an error with its text.
pub data Answer (A : Type 0) : Type 0 where
  answered : A → Answer A
  failed : Str → Answer A

-- SecondsBehindSource is -1 where the server gives NULL.
pub record ReplicaStatus : Type 0 where
  pub source_host : Str
  pub channel : Str
  pub io_thread_running : Bool
  pub sql_thread_running : Bool
  pub seconds_behind_source : ℤ
  pub gtid_executed : Str
  pub gtid_purged : Str
  pub last_error : Str

pub data ReplicaDialect : Type 0 where
  unknown_dialect replica_dialect slave_dialect : ReplicaDialect

pub data ReplicaRole : Type 0 where
  unknown_role standalone_role replica_role : ReplicaRole

pub record ReplicaProbe : Type 0 where
  pub role : ReplicaRole
  pub dialect : ReplicaDialect

-- A standalone server has no replica status.
pub record HealthVitals : Type 0 where
  pub time : ℕ
  pub uptime_seconds : ℕ
  pub threads_running : ℕ
  pub threads_connected : ℕ
  pub pages_dirty : ℕ
  pub pages_total : ℕ
  pub read_requests : ℕ
  pub reads : ℕ
  pub aborted_clients : ℕ
  pub aborted_clients_delta : ℕ
  pub replica : Option ReplicaStatus
