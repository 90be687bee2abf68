-- ===== src/Insights/Mdl.antt =====
-- internal/insights/mdl.go: the metadata-lock queues of each table. The maps are association lists;
-- the loop over the grouped tables takes the order in which Go meets the keys as an argument.
pub mod Conflicts
pub mod Matrix
pub mod Blockers
pub mod Queue
pub mod Build
mod Tests
use mysqlmonitoring.Prelude.{
  ℕ, zero, suc, ◌+◌, Bool, true, false, not, ◌&&◌, ◌||◌, Option, none, some, List, [], ◌∷◌, ◌++◌,
  length, filter_by, ltb, ◌==◌, if◌then◌else◌, Str, codes, str_eq,
}
use mysqlmonitoring.Prelude.Int.{ℤ, pos, ltb_ℤ}
use mysqlmonitoring.Prelude.Sort.{sort_stable}
use mysqlmonitoring.Db.{MetadataLock}

pub record MdlEntry : Type 0 where
  pub pid : ℕ
  pub thread_id : ℕ
  pub user : Str
  pub host : Str
  pub lock_type : Str
  pub lock_duration : Str
  pub lock_status : Str
  pub wait_seconds : ℤ
  pub query : Str

pub record MdlQueue : Type 0 where
  pub schema : Str
  pub name : Str
  pub granted : List MdlEntry
  pub pending : List MdlEntry
  pub by_lock_type : List (Str × ℕ)

-- MDLBreakdown, which is its Tables.
abbrev pub MdlBreakdown : Type 0
MdlBreakdown = List MdlQueue

abbrev pub Groups : Type 0
Groups = List (Str × MdlQueue)

pub is_table_lock : MetadataLock → Bool
is_table_lock ml = str_eq ml.object_type (codes "TABLE") && not (str_eq ml.object_name [])

pub group_key : MetadataLock → Str
group_key ml = ml.object_schema ++ codes "." ++ ml.object_name

pub entry_of : MetadataLock → MdlEntry
entry_of ml = record {
  pid = ml.pid;
  thread_id = ml.thread_id;
  user = ml.user;
  host = ml.host;
  lock_type = ml.lock_type;
  lock_duration = ml.duration;
  lock_status = ml.lock_status;
  wait_seconds = ml.time_seconds;
  query = ml.info;
}

-- q.ByLockType[t]++
pub count_up : Str → List (Str × ℕ) → List (Str × ℕ)
count_up t [] = (t, 1) ∷ []
count_up t ((u, n) ∷ m) = if str_eq u t then (u, n + 1) ∷ m else (u, n) ∷ count_up t m

-- q.ByLockType[t]
pub count_of : Str → List (Str × ℕ) → ℕ
count_of t [] = 0
count_of t ((u, n) ∷ m) = if str_eq u t then n else count_of t m

-- The switch of BuildMDL on the status of the lock.
pub add_entry : MdlQueue → MdlEntry → MdlQueue
add_entry q e =
    if str_eq e.lock_status (codes "GRANTED")
    then record q { granted = q.granted ++ e ∷ [] }
    else if str_eq e.lock_status (codes "PENDING")
    then record q {
      pending = q.pending ++ e ∷ [];
      by_lock_type = count_up e.lock_type q.by_lock_type;
    }
    else q

pub new_queue : MetadataLock → MdlQueue
new_queue ml = record {
  schema = ml.object_schema;
  name = ml.object_name;
  granted = [];
  pending = [];
  by_lock_type = [];
}

-- The entry goes into the group of the lock's key, which is made if it is missing.
pub add_to_group : MetadataLock → Groups → Groups
add_to_group ml [] = (group_key ml, add_entry (new_queue ml) (entry_of ml)) ∷ []
add_to_group ml ((k, q) ∷ gs) =
    if str_eq k (group_key ml)
    then (k, add_entry q (entry_of ml)) ∷ gs
    else (k, q) ∷ add_to_group ml gs

-- The first loop of BuildMDL.
pub group : Groups → List MetadataLock → Groups
group gs [] = gs
group gs (ml ∷ mls) = group (if is_table_lock ml then add_to_group ml gs else gs) mls

pub find_group : Str → Groups → Option MdlQueue
find_group k [] = none
find_group k ((j, q) ∷ gs) = if str_eq j k then some q else find_group k gs

-- The longer wait comes first.
abbrev pub waits_longer : MdlEntry → MdlEntry → Bool
waits_longer a b = ltb_ℤ b.wait_seconds a.wait_seconds

pub sort_queue : MdlQueue → MdlQueue
sort_queue q = record q {
  pending = sort_stable waits_longer q.pending;
  granted = sort_stable waits_longer q.granted;
}

pub sorted_queues : List Str → Groups → List MdlQueue
sorted_queues [] gs = []
sorted_queues (k ∷ ks) gs =
    let rest = sorted_queues ks gs in
    elim (find_group k gs) [ some q ↦ sort_queue q ∷ rest | none ↦ rest ]

-- The age of the oldest pending entry, 0 if there is none.
pub oldest_wait : List MdlEntry → ℤ
oldest_wait [] = pos 0
oldest_wait (e ∷ _) = e.wait_seconds

-- More pending entries come first, then the older head.
abbrev pub more_pending : MdlQueue → MdlQueue → Bool
more_pending a b =
    if length a.pending == length b.pending
    then ltb_ℤ (oldest_wait b.pending) (oldest_wait a.pending)
    else ltb (length b.pending) (length a.pending)

-- BuildMDL, with the grouped tables met in the order `order` of their keys.
pub build_mdl : List Str → List MetadataLock → MdlBreakdown
build_mdl order mls = sort_stable more_pending (sorted_queues order (group [] mls))

-- Find
pub find : Str → Str → MdlBreakdown → Option MdlQueue
find schema name [] = none
find schema name (q ∷ qs) =
    if str_eq q.schema schema && str_eq q.name name then some q else find schema name qs

-- PositionOf: the 1-indexed rank, the total and whether the PID is pending.
pub rank_from : ℕ → ℕ → List MdlEntry → Option ℕ
rank_from i pid [] = none
rank_from i pid (e ∷ es) = if e.pid == pid then some (i + 1) else rank_from (i + 1) pid es

pub position_of : MdlQueue → ℕ → ℕ × ℕ × Bool
position_of q pid = elim (rank_from 0 pid q.pending) [
  | some rank ↦ (rank, length q.pending, true)
  | none ↦ (0, length q.pending, false)
]

pub find_pending : ℕ → List MdlEntry → Option MdlEntry
find_pending pid [] = none
find_pending pid (e ∷ es) = if e.pid == pid then some e else find_pending pid es

-- mdlCompat: for each type of waiter, the types of holder that the map lists.
abbrev pub mdl_compat : List (Str × List (Str × Bool))
mdl_compat =
    (
      codes "SHARED_READ",
      (codes "EXCLUSIVE", true)
          ∷ (codes "SHARED_NO_READ_WRITE", true)
          ∷ (codes "SHARED_NO_WRITE", false)
          ∷ [],
    )
    ∷ (
      codes "SHARED_HIGH_PRIO",
      (codes "EXCLUSIVE", true) ∷ (codes "SHARED_NO_READ_WRITE", true) ∷ [],
    )
    ∷ (
      codes "SHARED_WRITE",
      (codes "EXCLUSIVE", true)
          ∷ (codes "SHARED_NO_READ_WRITE", true)
          ∷ (codes "SHARED_NO_WRITE", true)
          ∷ (codes "SHARED_UPGRADABLE", false)
          ∷ [],
    )
    ∷ (
      codes "SHARED_WRITE_LOW_PRIO",
      (codes "EXCLUSIVE", true)
          ∷ (codes "SHARED_NO_READ_WRITE", true)
          ∷ (codes "SHARED_NO_WRITE", true)
          ∷ [],
    )
    ∷ (
      codes "SHARED_UPGRADABLE",
      (codes "SHARED_UPGRADABLE", true)
          ∷ (codes "SHARED_NO_READ_WRITE", true)
          ∷ (codes "SHARED_NO_WRITE", true)
          ∷ (codes "EXCLUSIVE", true)
          ∷ [],
    )
    ∷ (
      codes "SHARED_NO_WRITE",
      (codes "SHARED_WRITE", true)
          ∷ (codes "SHARED_NO_WRITE", true)
          ∷ (codes "SHARED_NO_READ_WRITE", true)
          ∷ (codes "SHARED_UPGRADABLE", true)
          ∷ (codes "EXCLUSIVE", true)
          ∷ [],
    )
    ∷ (
      codes "SHARED_NO_READ_WRITE",
      (codes "SHARED_READ", true)
          ∷ (codes "SHARED_HIGH_PRIO", true)
          ∷ (codes "SHARED_WRITE", true)
          ∷ (codes "SHARED_WRITE_LOW_PRIO", true)
          ∷ (codes "SHARED_UPGRADABLE", true)
          ∷ (codes "SHARED_NO_WRITE", true)
          ∷ (codes "SHARED_NO_READ_WRITE", true)
          ∷ (codes "EXCLUSIVE", true)
          ∷ [],
    )
    ∷ (codes "INTENTION_EXCLUSIVE", (codes "EXCLUSIVE", true) ∷ [])
    ∷ (
      codes "EXCLUSIVE",
      (codes "SHARED_READ", true)
          ∷ (codes "SHARED_HIGH_PRIO", true)
          ∷ (codes "SHARED_WRITE", true)
          ∷ (codes "SHARED_WRITE_LOW_PRIO", true)
          ∷ (codes "SHARED_UPGRADABLE", true)
          ∷ (codes "SHARED_NO_WRITE", true)
          ∷ (codes "SHARED_NO_READ_WRITE", true)
          ∷ (codes "INTENTION_EXCLUSIVE", true)
          ∷ (codes "EXCLUSIVE", true)
          ∷ [],
    )
    ∷ []

pub find_row : Str → List (Str × List (Str × Bool)) → Option (List (Str × Bool))
find_row k [] = none
find_row k ((j, row) ∷ m) = if str_eq j k then some row else find_row k m

-- row[holder], which is false for a missing key
pub cell : Str → List (Str × Bool) → Bool
cell k [] = false
cell k ((j, b) ∷ row) = if str_eq j k then b else cell k row

pub conflicts : Str → Str → Bool
conflicts waiter holder = elim (find_row waiter mdl_compat) [
  | some row ↦ cell holder row
  | none ↦ true
]

pub is_self : ℕ → ℕ → MdlEntry → Bool
is_self pid thread_id h = h.pid == pid || (not (thread_id == 0) && h.thread_id == thread_id)

pub blockers_for : ℕ → MdlEntry → List MdlEntry → List MdlEntry
blockers_for pid e granted =
    if str_eq e.lock_type []
    then []
    else filter_by (λ h. not (is_self pid e.thread_id h) && conflicts e.lock_type h.lock_type)
        granted

-- BlockersOf
pub blockers_of : MdlQueue → ℕ → List MdlEntry
blockers_of q pid = elim (find_pending pid q.pending) [
  | some e ↦ blockers_for pid e q.granted
  | none ↦ []
]
