-- ===== src/Tui/Keys/Dispatch/Filter.antt =====
-- mdl.go: the B key of the lock-queue detail, which handleKey takes for the Tables view before the
-- detail sees it.
use mysqlmonitoring.Prelude.{
  ◌≡◌, sym, subst, Bool, true, false, Option, none, some, List, [], ◌∷◌, arith, Bool-cases,
  Option-cases, ◌⊎◌, inl, inr,
}
use mysqlmonitoring.Insights.Mdl
use mysqlmonitoring.Insights.Mdl.{MdlQueue, MdlBreakdown, build_mdl}
use mysqlmonitoring.Tui.Rows.{IssueRow}
use mysqlmonitoring.Tui.Keys.{
  ViewState, view_issues, view_lock, view_top, view_explain, view_issue_detail, view_help,
  view_tables, view_overview, view_mdl, MdlMode, mdl_mode_list, mdl_mode_detail, Key, key_bb, World,
  Model, at, issue_rows, detail_key, key_q, ctrl_c, question, esc, tab, key_t, key_oo, key_ii,
  key_ll, key_mm, handle_issues_key, handle_issue_detail_key, handle_tables_key,
  handle_overview_key, handle_lock_key,
}
use mysqlmonitoring.Tui.Keys.Dispatch.{
  Reply, handle_top_key, handle_mdl_list_key, handle_mdl_detail_key, mdl_key, handle_confirm_key,
  handle_help_key, escape, in_queue, quiet, esc_view, tab_view, global_key, view_key, is_help,
  handle_key,
}
use mysqlmonitoring.Tui.Keys.Dispatch.Offers.{unasked, handle_key-asked, handle_key-unasked}

-- The filter of the blockers is off.
abbrev pub IsOff : Model → Type 0
IsOff m = m.mdl_blocker_filter ≡ false

issues-IsOff : (w : World) (key : Key) (m : Model) → IsOff m → IsOff (handle_issues_key w key m)
unfolding handle_issues_key
issues-IsOff w key m o = ground arith

detail_key-IsOff :
    (w : World) (key : Key) (r : IssueRow) (m : Model) → IsOff m → IsOff (detail_key w key r m)
unfolding detail_key
detail_key-IsOff w key r m o = ground arith

detail-IsOff :
    (w : World) (key : Key) (m : Model) → IsOff m → IsOff (handle_issue_detail_key w key m)
unfolding handle_issue_detail_key
detail-IsOff w key m o = elim (Option-cases (at (issue_rows w m) m.issues_cursor)) [
  | inl e ↦ rw (handle_issue_detail_key, e) o
  | inr (r, e) ↦ rw (handle_issue_detail_key, e) (detail_key-IsOff w key r m o)
]

tables-IsOff : (w : World) (key : Key) (m : Model) → IsOff m → IsOff (handle_tables_key w key m)
unfolding handle_tables_key
tables-IsOff w key m o = ground arith

overview-IsOff : (w : World) (key : Key) (m : Model) → IsOff m → IsOff (handle_overview_key w key m)
unfolding handle_overview_key
overview-IsOff w key m o = ground arith

lock-IsOff : (w : World) (key : Key) (m : Model) → IsOff m → IsOff (handle_lock_key w key m)
unfolding handle_lock_key
lock-IsOff w key m o = ground arith

top-IsOff : (key : Key) (m : Model) → IsOff m → IsOff (handle_top_key key m).0
unfolding handle_top_key
top-IsOff key m o = ground arith

mdl_list-IsOff :
    (q : MdlBreakdown) (key : Key) (m : Model) → IsOff m → IsOff (handle_mdl_list_key q key m)
unfolding handle_mdl_list_key
mdl_list-IsOff q key m o = ground arith

mdl_detail-IsOff :
    (q : Option MdlQueue) (key : Key) (m : Model)
    → IsOff m
    → (key ≡ key_bb) ⊎ IsOff (handle_mdl_detail_key q key m)
unfolding handle_mdl_detail_key
mdl_detail-IsOff q key m o = ground arith

mdl-IsOff :
    (mode : MdlMode) (q : MdlBreakdown) (key : Key) (m : Model)
    → IsOff m
    → (key ≡ key_bb) ⊎ IsOff (mdl_key mode q key m)
unfolding mdl_key
mdl-IsOff mdl_mode_list q key m o = inr (mdl_list-IsOff q key m o)
mdl-IsOff mdl_mode_detail q key m o =
    mdl_detail-IsOff (Mdl.find m.mdl_table_schema m.mdl_table_name q) key m o

view-IsOff :
    (w : World) (v : ViewState) (key : Key) (m : Model)
    → IsOff m
    → (key ≡ key_bb) ⊎ IsOff (view_key w v key m).0
unfolding view_key
view-IsOff w view_overview key m o = inr (overview-IsOff w key m o)
view-IsOff w view_issues key m o = inr (issues-IsOff w key m o)
view-IsOff w view_issue_detail key m o = inr (detail-IsOff w key m o)
view-IsOff w view_top key m o = inr (top-IsOff key m o)
view-IsOff w view_tables key m o = inr (tables-IsOff w key m o)
view-IsOff w view_mdl key m o =
    mdl-IsOff m.mdl_mode (build_mdl w.mdl_order m.snapshot.metadata_locks) key m o
view-IsOff w view_explain key m o = inr o
view-IsOff w view_help key m o = inr o
view-IsOff w view_lock key m o = inr (lock-IsOff w key m o)

abbrev StaysOff : Option Reply → Type 0
StaysOff none = Unit {0}
StaysOff (some r) = IsOff r.0

escape-StaysOff : (m : Model) → IsOff m → StaysOff (quiet (escape m))
unfolding escape
escape-StaysOff m o = elim (Bool-cases (in_queue m.mdl_mode m.view)) [
  | inl e ↦ rw (escape, e) o
  | inr e ↦ elim (Option-cases (esc_view m.view)) [
    | inl f ↦ rw (escape, e, f) tt
    | inr (v, f) ↦ rw (escape, e, f) o
  ]
]

global-StaysOff : (key : Key) (m : Model) → IsOff m → StaysOff (global_key key m)
unfolding global_key
global-StaysOff key_q m o = o
global-StaysOff ctrl_c m o = o
global-StaysOff question m o = o
global-StaysOff esc m o = escape-StaysOff m o
global-StaysOff tab m o = elim (Option-cases (tab_view m.view)) [
  | inl f ↦ rw (global_key, f) tt
  | inr (v, f) ↦ rw (global_key, f) o
]
global-StaysOff key_t m o = elim (Bool-cases m.has_insights) [
  | inl e ↦ rw (global_key, e) o
  | inr e ↦ rw (global_key, e) tt
]
global-StaysOff key_oo m o = o
global-StaysOff key_ii m o = o
global-StaysOff key_ll m o = o
global-StaysOff key_bb m o = o
global-StaysOff key_mm m o = o
global-StaysOff _ m o = tt

confirm-IsOff : (key : Key) (m : Model) → IsOff m → IsOff (handle_confirm_key key m).0
unfolding handle_confirm_key
confirm-IsOff key m o = ground arith

help-IsOff : (key : Key) (m : Model) → IsOff m → IsOff (handle_help_key key m).0
unfolding handle_help_key
help-IsOff key m o = ground arith

taken : (m : Model) → ¬ (global_key key_bb m ≡ none)
unfolding global_key
taken m e = ground arith

unasked-IsOff :
    (w : World) (key : Key) (m : Model) (help : Bool) → IsOff m → IsOff (unasked w key m help).0
unasked-IsOff w key m true o = help-IsOff key m o
unasked-IsOff w key m false o = elim (Option-cases (global_key key m)) [
  | inl g ↦ rw g (elim (view-IsOff w m.view key m o) [
    | inl k ↦ absurd (taken m (subst (λ (x : Key). global_key x m ≡ none) k g))
    | inr o' ↦ o'
  ])
  | inr (r, g) ↦ rw g (subst StaysOff g (global-StaysOff key m o))
]

handle_key-IsOff : (w : World) (key : Key) (m : Model) → IsOff m → IsOff (handle_key w key m).0
handle_key-IsOff w key m o = elim (Bool-cases m.confirm_kill) [
  | inl e ↦
      subst (λ (r : Reply). IsOff r.0) (sym (handle_key-asked w key m e)) (confirm-IsOff key m o)
  | inr e ↦
      subst (λ (r : Reply). IsOff r.0) (sym (handle_key-unasked w key m e))
        (unasked-IsOff w key m (is_help m.view) o)
]

-- The keys that are pressed one after the other, each with what it reads.
pub press_all : List (World × Key) → Model → Model
press_all [] m = m
press_all ((w, key) ∷ keys) m = press_all keys (handle_key w key m).0

-- No keys turn the filter of the blockers on: once it is off, as in a new model, it stays so, although
-- the lock-queue detail has a key for it.
pub press_all-IsOff : (keys : List (World × Key)) (m : Model) → IsOff m → IsOff (press_all keys m)
unfolding press_all
press_all-IsOff [] m o = o
press_all-IsOff ((w, key) ∷ keys) m o =
    press_all-IsOff keys (handle_key w key m).0 (handle_key-IsOff w key m o)
