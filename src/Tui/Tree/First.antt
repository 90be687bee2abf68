-- ===== src/Tui/Tree/First.antt =====
-- views.go: the first row of the lock tree.
use mysqlmonitoring.Prelude.{
  ℕ, ◌≡◌, refl, Bool, true, false, Option, none, some, List, [], ◌∷◌, ◌++◌, ◌==◌, ◌⊎◌, inl, inr,
  Bool-cases,
}
use mysqlmonitoring.Db.{LockWait, DeadlockTransaction, DeadlockInfo, Snapshot}
use mysqlmonitoring.Tui.Tree.{
  TreeEntry, Walk, has, add_row, mark, children, below_child, visit_grandchild, visit_grandchildren,
  visit_child, visit_children, walk, walk_all, participants, deadlock_entries, sorted_roots,
  build_tree_entries,
}

-- The first row is that of a blocker.
abbrev pub BeginsWithBlocker : List TreeEntry → Type 0
BeginsWithBlocker [] = ⊥
BeginsWithBlocker (e ∷ es) = e.is_blocker ≡ true

append-Begins : (xs ys : List TreeEntry) → BeginsWithBlocker xs → BeginsWithBlocker (xs ++ ys)
append-Begins [] ys b = absurd b
append-Begins (x ∷ xs) ys b = b

add_row-Begins :
    (pid : ℕ) (is_blocker : Bool) (t : Walk)
    → BeginsWithBlocker t.entries
    → BeginsWithBlocker (add_row pid is_blocker t).entries
add_row-Begins pid is_blocker t b = append-Begins t.entries _ b

visit_grandchild-Begins :
    (pid : ℕ) (t : Walk)
    → BeginsWithBlocker t.entries
    → BeginsWithBlocker (visit_grandchild pid t).entries
unfolding visit_grandchild
visit_grandchild-Begins pid t b = elim (Bool-cases (has pid t.visited)) [
  | inl e ↦ rw (visit_grandchild, e) b
  | inr e ↦ rw (visit_grandchild, e) (add_row-Begins pid false t b)
]

visit_grandchildren-Begins :
    (pids : List ℕ) (t : Walk)
    → BeginsWithBlocker t.entries
    → BeginsWithBlocker (visit_grandchildren pids t).entries
unfolding visit_grandchildren
visit_grandchildren-Begins [] t b = b
visit_grandchildren-Begins (pid ∷ pids) t b =
    visit_grandchildren-Begins pids (visit_grandchild pid t) (visit_grandchild-Begins pid t b)

below_child-Begins :
    (pid : ℕ) (kids : List ℕ) (t : Walk)
    → BeginsWithBlocker t.entries
    → BeginsWithBlocker (below_child pid kids t).entries
below_child-Begins pid [] t b = b
below_child-Begins pid (kid ∷ kids) t b = visit_grandchildren-Begins (kid ∷ kids) (mark pid t) b

visit_child-Begins :
    (waits : List LockWait) (pid : ℕ) (t : Walk)
    → BeginsWithBlocker t.entries
    → BeginsWithBlocker (visit_child waits pid t).entries
unfolding visit_child
visit_child-Begins waits pid t b = elim (Bool-cases (has pid t.visited)) [
  | inl e ↦ rw (visit_child, e) b
  | inr e ↦
      rw (visit_child, e)
        (below_child-Begins pid (children waits pid) (add_row pid false t)
          (add_row-Begins pid false t b))
]

visit_children-Begins :
    (waits : List LockWait) (pids : List ℕ) (t : Walk)
    → BeginsWithBlocker t.entries
    → BeginsWithBlocker (visit_children waits pids t).entries
unfolding visit_children
visit_children-Begins waits [] t b = b
visit_children-Begins waits (pid ∷ pids) t b =
    visit_children-Begins waits pids (visit_child waits pid t) (visit_child-Begins waits pid t b)

walk-Begins :
    (waits : List LockWait) (pid : ℕ) (t : Walk)
    → BeginsWithBlocker t.entries
    → BeginsWithBlocker (walk waits pid t).entries
unfolding walk
walk-Begins waits pid t b = elim (Bool-cases (has pid t.visited)) [
  | inl e ↦ rw (walk, e) b
  | inr e ↦
      rw (walk, e)
        (visit_children-Begins waits (children waits pid) (add_row pid true (mark pid t))
          (add_row-Begins pid true (mark pid t) b))
]

walk_all-Begins :
    (waits : List LockWait) (pids : List ℕ) (t : Walk)
    → BeginsWithBlocker t.entries
    → BeginsWithBlocker (walk_all waits pids t).entries
unfolding walk_all
walk_all-Begins waits [] t b = b
walk_all-Begins waits (pid ∷ pids) t b =
    walk_all-Begins waits pids (walk waits pid t) (walk-Begins waits pid t b)

participants-Begins :
    (dts : List DeadlockTransaction)
    → (participants dts ≡ []) ⊎ BeginsWithBlocker (participants dts)
unfolding participants
participants-Begins [] = inl refl
participants-Begins (dt ∷ dts) = elim (Bool-cases (dt.thread_id == 0)) [
  | inl e ↦ rw (participants, e) (participants-Begins dts)
  | inr e ↦ rw (participants, e) (inr refl)
]

deadlock-Begins :
    (dl : Option DeadlockInfo)
    → (deadlock_entries dl ≡ []) ⊎ BeginsWithBlocker (deadlock_entries dl)
unfolding deadlock_entries
deadlock-Begins none = inl refl
deadlock-Begins (some dl) = participants-Begins dl.transactions

-- The rows of the roots and of the deadlock, by the roots.
tree-Begins :
    (waits : List LockWait) (roots : List ℕ) (dl : Option DeadlockInfo)
    → let es =
        (walk_all waits roots (record { visited = []; entries = [] })).entries
        ++ deadlock_entries dl in
      (es ≡ []) ⊎ BeginsWithBlocker es
unfolding walk_all walk
tree-Begins waits [] dl = deadlock-Begins dl
tree-Begins waits (root ∷ roots) dl = inr (
    append-Begins _ (deadlock_entries dl)
      (walk_all-Begins waits roots _ (visit_children-Begins waits (children waits root) _ refl)))

-- The lock tree is empty, or its first row is that of a blocker.
pub build_tree_entries-Begins :
    (order : List ℕ → List ℕ) (snap : Snapshot)
    → (build_tree_entries order snap ≡ []) ⊎ BeginsWithBlocker (build_tree_entries order snap)
unfolding build_tree_entries
build_tree_entries-Begins order snap =
    tree-Begins snap.lock_waits (sorted_roots order snap) (snap.innodb_status).latest_deadlock
