-- ===== src/Insights/Mdl/Tests.antt =====
-- Runs of the queues of one table: 7 holds a read lock, 8 waits for an exclusive lock, 9 behind it.
use mysqlmonitoring.Prelude.{
  ℕ, ◌≡◌, ◌≢◌, ◌⊎◌, ◌↔◌, refl, inl, inr, true, false, some, List, [], ◌∷◌, length, In, All, Str,
  codes, str_eq,
}
use mysqlmonitoring.Prelude.Int.{pos, ◌≤ℤ◌}
use mysqlmonitoring.Db.{MetadataLock}
use mysqlmonitoring.Insights.Mdl.{
  MdlEntry, MdlQueue, group, add_to_group, add_entry, new_queue, entry_of, is_table_lock, group_key,
  count_up, find_group, build_mdl, position_of, find_pending, conflicts, find_row, cell,
  blockers_of, blockers_for, is_self,
}
use mysqlmonitoring.Insights.Mdl.Conflicts.{conflicts-symmetric}
use mysqlmonitoring.Insights.Mdl.Blockers.{IsFirst, Blocks, in-blockers_of}
use mysqlmonitoring.Insights.Mdl.Queue.{IsQueued, Position, position_of-IsQueued}
use mysqlmonitoring.Insights.Mdl.Build.{IsQueueOf, build_mdl-IsQueueOf}

abbrev lock : ℕ → Str → Str → ℕ → MetadataLock
lock pid type status seconds = record {
  thread_id = pid;
  pid = pid;
  user = [];
  host = [];
  lock_type = type;
  duration = [];
  lock_status = status;
  object_type = codes "TABLE";
  object_schema = codes "shop";
  object_name = codes "t";
  time_seconds = pos seconds;
  info = [];
}

abbrev locks : List MetadataLock
locks =
    lock 7 (codes "SHARED_READ") (codes "GRANTED") 40
    ∷ lock 9 (codes "SHARED_READ") (codes "PENDING") 5
    ∷ lock 8 (codes "EXCLUSIVE") (codes "PENDING") 30
    ∷ []

abbrev entry : ℕ → Str → Str → ℕ → MdlEntry
entry pid type status seconds = record {
  pid = pid;
  thread_id = pid;
  user = [];
  host = [];
  lock_type = type;
  lock_duration = [];
  lock_status = status;
  wait_seconds = pos seconds;
  query = [];
}

abbrev holder : MdlEntry
holder = entry 7 (codes "SHARED_READ") (codes "GRANTED") 40

abbrev waiters : List MdlEntry
waiters =
    entry 8 (codes "EXCLUSIVE") (codes "PENDING") 30
    ∷ entry 9 (codes "SHARED_READ") (codes "PENDING") 5
    ∷ []

abbrev counts : List (Str × ℕ)
counts = (codes "SHARED_READ", 1) ∷ (codes "EXCLUSIVE", 1) ∷ []

abbrev queue : MdlQueue
queue = record {
  schema = codes "shop";
  name = codes "t";
  granted = holder ∷ [];
  pending = waiters;
  by_lock_type = counts;
}

-- As the first loop leaves it.
abbrev unsorted : MdlQueue
unsorted = record queue {
  pending =
      entry 9 (codes "SHARED_READ") (codes "PENDING") 5
      ∷ entry 8 (codes "EXCLUSIVE") (codes "PENDING") 30
      ∷ [];
}

abbrev key : Str
key = codes "shop.t"

grouped : find_group key (group [] locks) ≡ some unsorted
unfolding group add_to_group add_entry new_queue entry_of is_table_lock group_key count_up
    find_group str_eq
grouped = refl

queue-IsQueued : IsQueued queue
queue-IsQueued = ((refl, tt), (tt, tt))

blockers_test : (blockers_of queue 8 ≡ holder ∷ []) × (blockers_of queue 9 ≡ [])
unfolding blockers_of blockers_for find_pending is_self conflicts find_row cell str_eq
blockers_test = (refl, refl)

build_mdl-IsQueueOf_example :
    (q : MdlQueue) × In q (build_mdl (key ∷ []) locks) × IsQueueOf key locks q
build_mdl-IsQueueOf_example = build_mdl-IsQueueOf (key ∷ []) locks key grouped (inl refl)

position_of-IsQueued_example :
    ((position_of queue 9).1 ≡ length queue.pending)
    × (((position_of queue 9).2 ≡ true)
          × ((p : Position 9 queue.pending (position_of queue 9).0) × All
                (λ x. p.entry.wait_seconds ≤ℤ x.wait_seconds)
                p.front)
        ⊎ ((position_of queue 9).2 ≡ false)
          × ((position_of queue 9).0 ≡ 0)
          × All (λ x. x.pid ≢ 9) queue.pending)
position_of-IsQueued_example = position_of-IsQueued queue 9 queue-IsQueued

in-blockers_of_example :
    In holder (blockers_of queue 8)
    ↔ ((e : MdlEntry) × IsFirst 8 queue.pending e × Blocks 8 queue.granted holder e)
in-blockers_of_example = in-blockers_of queue 8 holder

conflicts-symmetric_example :
    ((conflicts (codes "SHARED_NO_WRITE") (codes "SHARED_WRITE_LOW_PRIO") ≡ false)
      × (conflicts (codes "SHARED_WRITE_LOW_PRIO") (codes "SHARED_NO_WRITE") ≡ true))
    ↔ ((codes "SHARED_NO_WRITE" ≡ codes "SHARED_NO_WRITE")
        × (codes "SHARED_WRITE_LOW_PRIO" ≡ codes "SHARED_WRITE_LOW_PRIO"))
conflicts-symmetric_example =
    conflicts-symmetric (codes "SHARED_NO_WRITE") (codes "SHARED_WRITE_LOW_PRIO")
      (inr (inr (inr (inr (inr (inl refl)))))) (inr (inr (inr (inl refl))))
