-- ===== src/Tui/Tree.antt =====
-- internal/tui/views.go: buildTreeEntries, the rows of the lock tree, as far as the keys read them:
-- the connection and whether it is drawn as a blocker. sort.Slice is not stable: it orders what
-- `order` makes of the roots, and keeps the order of roots that tie.
pub mod First
use mysqlmonitoring.Prelude.{
  ℕ, Bool, true, false, ◌&&◌, not, Option, none, some, List, [], ◌∷◌, ◌++◌, ◌==◌, if◌then◌else◌,
  any_of,
}
use mysqlmonitoring.Prelude.Int.{ℤ, pos, ◌-ℤ◌, ltb_ℤ}
use mysqlmonitoring.Prelude.Sort.{sort_stable}
use mysqlmonitoring.Db.{LockWait, Transaction, DeadlockTransaction, DeadlockInfo, Snapshot}
use mysqlmonitoring.Tui.Text.{milliseconds}
use mysqlmonitoring.Tui.Rows.{trx_by_pid}

-- A row, as far as the keys read it.
pub record TreeEntry : Type 0 where
  pub pid : ℕ
  pub is_blocker : Bool

abbrev pub has : ℕ → List ℕ → Bool
has pid pids = any_of (λ p. p == pid) pids

abbrev pub add_new : ℕ → List ℕ → List ℕ
add_new pid pids = if has pid pids then pids else pids ++ pid ∷ []

-- children[pid], in the order of the lock waits.
unfoldable pub children_from : ℕ → List ℕ → List LockWait → List ℕ
children_from pid kids [] = kids
children_from pid kids (w ∷ ws) =
    let kids' = if w.blocking_pid == pid then add_new w.waiting_pid kids else kids in
    children_from pid kids' ws

abbrev pub children : List LockWait → ℕ → List ℕ
children waits pid = children_from pid [] waits

-- The blockers that do not wait, in the order of the lock waits.
unfoldable pub roots_from : List LockWait → List ℕ → List LockWait → List ℕ
roots_from waits roots [] = roots
roots_from waits roots (w ∷ ws) =
    let waiting = any_of (λ v. v.waiting_pid == w.blocking_pid) waits in
    roots_from waits (if waiting then roots else add_new w.blocking_pid roots) ws

-- rootDuration, which is 0 for a root without a transaction.
abbrev duration_at : ℕ → Option Transaction → ℤ
duration_at now none = pos 0
duration_at now (some t) =
    if t.trx_started == 0 then pos 0 else milliseconds (pos now -ℤ pos t.trx_started)

abbrev root_duration : Snapshot → ℕ → ℤ
root_duration snap pid = duration_at snap.time (trx_by_pid pid snap.transactions none)

unfoldable pub sorted_roots : (List ℕ → List ℕ) → Snapshot → List ℕ
sorted_roots order snap =
    sort_stable (λ a b. ltb_ℤ (root_duration snap b) (root_duration snap a))
      (order (roots_from snap.lock_waits [] snap.lock_waits))

-- What the walk writes.
pub record Walk : Type 0 where
  pub visited : List ℕ
  pub entries : List TreeEntry

abbrev pub add_row : ℕ → Bool → Walk → Walk
add_row pid is_blocker t = record t {
  entries = t.entries ++ record { pid = pid; is_blocker = is_blocker } ∷ [];
}

abbrev pub mark : ℕ → Walk → Walk
mark pid t = record t { visited = pid ∷ t.visited }

pub visit_grandchild : ℕ → Walk → Walk
visit_grandchild pid t = if has pid t.visited then t else mark pid (add_row pid false t)

unfoldable pub visit_grandchildren : List ℕ → Walk → Walk
visit_grandchildren [] t = t
visit_grandchildren (pid ∷ pids) t = visit_grandchildren pids (visit_grandchild pid t)

-- The rows below a child; a child without children is not marked as visited.
abbrev pub below_child : ℕ → List ℕ → Walk → Walk
below_child pid [] t = t
below_child pid (kid ∷ kids) t = visit_grandchildren (kid ∷ kids) (mark pid t)

unfoldable pub visit_child : List LockWait → ℕ → Walk → Walk
visit_child waits pid t =
    if has pid t.visited then t else below_child pid (children waits pid) (add_row pid false t)

unfoldable pub visit_children : List LockWait → List ℕ → Walk → Walk
visit_children waits [] t = t
visit_children waits (pid ∷ pids) t = visit_children waits pids (visit_child waits pid t)

-- walk, which is called for roots only.
unfoldable pub walk : List LockWait → ℕ → Walk → Walk
walk waits pid t =
    if has pid t.visited
    then t
    else visit_children waits (children waits pid) (add_row pid true (mark pid t))

unfoldable pub walk_all : List LockWait → List ℕ → Walk → Walk
walk_all waits [] t = t
walk_all waits (pid ∷ pids) t = walk_all waits pids (walk waits pid t)

-- The participants of the latest deadlock that have a thread.
unfoldable pub participants : List DeadlockTransaction → List TreeEntry
participants [] = []
participants (dt ∷ dts) =
    let rest = participants dts in
    if dt.thread_id == 0 then rest else record { pid = dt.thread_id; is_blocker = true } ∷ rest

unfoldable pub deadlock_entries : Option DeadlockInfo → List TreeEntry
deadlock_entries none = []
deadlock_entries (some dl) = participants dl.transactions

unfoldable pub build_tree_entries : (List ℕ → List ℕ) → Snapshot → List TreeEntry
build_tree_entries order snap =
    let t =
      walk_all snap.lock_waits (sorted_roots order snap) (record { visited = []; entries = [] }) in
    t.entries ++ deadlock_entries (snap.innodb_status).latest_deadlock
