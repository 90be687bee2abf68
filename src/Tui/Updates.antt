-- ===== src/Tui/Updates.antt =====
-- internal/tui/model.go: Update for the result of a poll and for the result of a kill. The sizes of
-- the window, the data of the load panel and the plan of an EXPLAIN are not part of the model.
pub mod Ranges
pub mod LockTree
mod Tests
use mysqlmonitoring.Prelude.{
  ℕ, zero, suc, ◌-◌, Bool, true, false, ◌&&◌, not, Option, none, some, List, [], ◌∷◌, ◌++◌, ltb,
  leb, length, if◌then◌else◌, Str, codes,
}
use mysqlmonitoring.Detector.Issues.{show}
use mysqlmonitoring.Monitor.{Result}
use mysqlmonitoring.Tui.Tree.{TreeEntry, build_tree_entries}
use mysqlmonitoring.Tui.Keys.{World, Model, at, table_rows}

-- n == 0 sets the cursor to 0, and a cursor behind the rows goes to the last one.
abbrev pub clamp : ℕ → ℕ → ℕ
clamp n c = if ltb c n then c else n - 1

pub is_blocker_at : List TreeEntry → ℕ → Bool
is_blocker_at entries i = elim (at entries i) [ none ↦ false | some e ↦ e.is_blocker ]

-- The loop back to a blocker, from `i`; none when it meets no blocker.
pub snap_from : List TreeEntry → ℕ → Option ℕ
snap_from entries zero = if is_blocker_at entries 0 then some 0 else none
snap_from entries (suc i) =
    let rest = snap_from entries i in if is_blocker_at entries (suc i) then some (suc i) else rest

pub snap : List TreeEntry → ℕ → ℕ
snap entries c = elim (snap_from entries c) [ none ↦ c | some i ↦ i ]

-- The cursor of the lock tree for new rows; clamped, it is below their number unless they are none.
abbrev pub tree_cursor : List TreeEntry → ℕ → ℕ
tree_cursor entries c =
    let c' = clamp (length entries) c in
    if ltb 0 (length entries) && not (is_blocker_at entries c') then snap entries c' else c'

abbrev pub error_text : Option (Str × Str) → Str
error_text none = []
error_text (some (what, e)) = codes "Error: " ++ what ++ codes ": " ++ e

abbrev pub with_result : Result → Model → Model
with_result r m = record m {
  issues = r.issues;
  snapshot = r.snapshot;
  status_msg = error_text r.error;
}

-- Update for a ResultMsg.
pub on_result : World → Result → Model → Model
on_result w r m =
    let m' = with_result r m in
    record m' {
      cursor = tree_cursor (build_tree_entries w.root_order r.snapshot) m.cursor;
      issues_cursor = clamp (length r.issues) m.issues_cursor;
      tables_cursor = clamp (length (table_rows w m')) m.tables_cursor;
    }

-- Update for a KillResultMsg.
pub on_kill_result : ℕ → Option Str → Model → Model
on_kill_result id (some e) m = record m { status_msg = codes "Kill failed: " ++ e }
on_kill_result id none m = record m { status_msg = codes "Killed connection " ++ show id }
