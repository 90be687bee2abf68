-- ===== src/Tui/Updates/Ranges.antt =====
-- model.go: where the cursors are after a poll.
use mysqlmonitoring.Prelude.{
  ℕ, zero, suc, ◌≡◌, true, none, some, List, arith, length, Option-cases, ◌⊎◌, inl, inr, ◌<◌, ◌≤◌,
}
use mysqlmonitoring.Monitor.{Result}
use mysqlmonitoring.Tui.Tree.{TreeEntry, build_tree_entries}
use mysqlmonitoring.Tui.Keys.{World, Model, table_rows}
use mysqlmonitoring.Tui.Updates.{clamp, is_blocker_at, snap_from, snap, tree_cursor, on_result}

-- A cursor over `n` rows: on one of them, or at the start when there is none.
abbrev pub InRange : ℕ → ℕ → Type 0
InRange n c = (c < n) ⊎ ((n ≡ 0) × (c ≡ 0))

clamp-InRange : (n c : ℕ) → InRange n (clamp n c)
clamp-InRange zero c = ground arith
clamp-InRange (suc n) c = ground arith

-- What the loop back to a blocker finds is one, and is not behind its start.
snap_from-blocker :
    (entries : List TreeEntry) (c i : ℕ)
    → snap_from entries c ≡ some i
    → (i ≤ c) × (is_blocker_at entries i ≡ true)
unfolding snap_from
snap_from-blocker entries zero i h = ground arith
snap_from-blocker entries (suc c) i h = let rest = snap_from-blocker entries c i in ground arith

-- It finds one when the first row is a blocker.
snap_from-first :
    (entries : List TreeEntry) (c : ℕ)
    → is_blocker_at entries 0 ≡ true
    → ¬ (snap_from entries c ≡ none)
unfolding snap_from
snap_from-first entries zero b h = ground arith
snap_from-first entries (suc c) b h = let rest = snap_from-first entries c b in ground arith

snap-below : (entries : List TreeEntry) (c : ℕ) → snap entries c ≤ c
unfolding snap
snap-below entries c = elim (Option-cases (snap_from entries c)) [
  | inl e ↦ rw (snap, e) (ground arith)
  | inr (i, e) ↦ rw (snap, e) (snap_from-blocker entries c i e).0
]

pub snap-blocker :
    (entries : List TreeEntry) (c : ℕ)
    → is_blocker_at entries 0 ≡ true
    → is_blocker_at entries (snap entries c) ≡ true
unfolding snap
snap-blocker entries c b = elim (Option-cases (snap_from entries c)) [
  | inl e ↦ absurd (snap_from-first entries c b e)
  | inr (i, e) ↦ rw (snap, e) (snap_from-blocker entries c i e).1
]

tree_cursor-InRange :
    (entries : List TreeEntry) (c : ℕ) → InRange (length entries) (tree_cursor entries c)
tree_cursor-InRange entries c =
    let fits = clamp-InRange (length entries) c in
    let less = snap-below entries (clamp (length entries) c) in ground arith

-- Update for the result of a poll leaves each of its three cursors on a row of what the poll has
-- brought, or at 0 when there is no row: the cursor of the lock tree, that of the issues and that
-- of the tables.
pub on_result-InRange :
    (w : World) (r : Result) (m : Model)
    → InRange (length (build_tree_entries w.root_order r.snapshot)) (on_result w r m).cursor
      × InRange (length r.issues) (on_result w r m).issues_cursor
      × InRange (length (table_rows w (on_result w r m))) (on_result w r m).tables_cursor
unfolding on_result table_rows
on_result-InRange w r m = (
  tree_cursor-InRange (build_tree_entries w.root_order r.snapshot) m.cursor,
  clamp-InRange _ m.issues_cursor,
  clamp-InRange _ m.tables_cursor,
)
