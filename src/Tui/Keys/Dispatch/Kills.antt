-- ===== src/Tui/Keys/Dispatch/Kills.antt =====
-- model.go: no kill without a confirmation of what was selected.
use mysqlmonitoring.Prelude.{
  ℕ, ◌≡◌, refl, Bool, true, false, Option, none, some, List, arith, Bool-cases, Option-cases, ◌⊎◌,
  inl, inr, Str,
}
use mysqlmonitoring.Insights.Mdl
use mysqlmonitoring.Insights.Mdl.{MdlQueue, MdlBreakdown, build_mdl}
use mysqlmonitoring.Tui.Rows.{IssueRow}
use mysqlmonitoring.Tui.Keys.{
  ViewState, view_issues, view_lock, view_top, view_explain, view_issue_detail, view_help,
  view_tables, view_overview, view_mdl, MdlMode, mdl_mode_list, mdl_mode_detail, Key, key_kk, key_q,
  ctrl_c, question, esc, tab, key_t, key_oo, key_ii, key_ll, key_bb, key_mm, World, Model, Command,
  kill_one, kill_batch, at, issue_rows, detail_key, handle_issues_key, handle_issue_detail_key,
  handle_tables_key, handle_overview_key, handle_lock_key,
}
use mysqlmonitoring.Tui.Keys.Dispatch.{
  handle_top_key, handle_mdl_list_key, handle_mdl_detail_key, mdl_key, handle_help_key, in_queue,
  escape, quiet, global_key, view_key, esc_view, tab_view,
}

abbrev pub is_kill : Command → Bool
is_kill (kill_one pid) = true
is_kill (kill_batch target pids) = true
is_kill _ = false

top-quiet : (key : Key) (m : Model) → is_kill (handle_top_key key m).1 ≡ false
unfolding handle_top_key
top-quiet key m = ground arith

pub view-quiet :
    (w : World) (v : ViewState) (key : Key) (m : Model) → is_kill (view_key w v key m).1 ≡ false
unfolding view_key
view-quiet w view_top key m = top-quiet key m
view-quiet w _ key m = refl

-- The popup state of a model: the question, and what it is about.
abbrev pub popup : Model → Bool × ℕ × List ℕ × Str
popup m = (m.confirm_kill, m.confirm_pid, m.confirm_kill_batch, m.confirm_kill_target)

pub overview-popup :
    (w : World) (key : Key) (m : Model) → popup (handle_overview_key w key m) ≡ popup m
unfolding handle_overview_key
overview-popup w key m = ground arith

pub top-popup : (key : Key) (m : Model) → popup (handle_top_key key m).0 ≡ popup m
unfolding handle_top_key
top-popup key m = ground arith

pub mdl_list-popup :
    (q : MdlBreakdown) (key : Key) (m : Model) → popup (handle_mdl_list_key q key m) ≡ popup m
unfolding handle_mdl_list_key
mdl_list-popup q key m = ground arith

issues-popup :
    (w : World) (key : Key) (m : Model)
    → (key ≡ key_kk) ⊎ (popup (handle_issues_key w key m) ≡ popup m)
unfolding handle_issues_key
issues-popup w key m = ground arith

detail_key-popup :
    (w : World) (key : Key) (r : IssueRow) (m : Model)
    → (key ≡ key_kk) ⊎ (popup (detail_key w key r m) ≡ popup m)
unfolding detail_key
detail_key-popup w key r m = ground arith

detail-popup :
    (w : World) (key : Key) (m : Model)
    → (key ≡ key_kk) ⊎ (popup (handle_issue_detail_key w key m) ≡ popup m)
unfolding handle_issue_detail_key
detail-popup w key m = elim (Option-cases (at (issue_rows w m) m.issues_cursor)) [
  | inl e ↦ inr (rw (handle_issue_detail_key, e) refl)
  | inr (r, e) ↦ rw (handle_issue_detail_key, e) (detail_key-popup w key r m)
]

tables-popup :
    (w : World) (key : Key) (m : Model)
    → (key ≡ key_kk) ⊎ (popup (handle_tables_key w key m) ≡ popup m)
unfolding handle_tables_key
tables-popup w key m = ground arith

lock-popup :
    (w : World) (key : Key) (m : Model)
    → (key ≡ key_kk) ⊎ (popup (handle_lock_key w key m) ≡ popup m)
unfolding handle_lock_key
lock-popup w key m = ground arith

mdl_detail-popup :
    (q : Option MdlQueue) (key : Key) (m : Model)
    → (key ≡ key_kk) ⊎ (popup (handle_mdl_detail_key q key m) ≡ popup m)
unfolding handle_mdl_detail_key
mdl_detail-popup q key m = ground arith

mdl-popup :
    (mode : MdlMode) (q : MdlBreakdown) (key : Key) (m : Model)
    → (key ≡ key_kk) ⊎ (popup (mdl_key mode q key m) ≡ popup m)
unfolding mdl_key
mdl-popup mdl_mode_list q key m = inr (mdl_list-popup q key m)
mdl-popup mdl_mode_detail q key m =
    mdl_detail-popup (Mdl.find m.mdl_table_schema m.mdl_table_name q) key m

pub view-popup :
    (w : World) (v : ViewState) (key : Key) (m : Model)
    → (key ≡ key_kk) ⊎ (popup (view_key w v key m).0 ≡ popup m)
unfolding view_key
view-popup w view_overview key m = inr (overview-popup w key m)
view-popup w view_issues key m = issues-popup w key m
view-popup w view_issue_detail key m = detail-popup w key m
view-popup w view_top key m = inr (top-popup key m)
view-popup w view_tables key m = tables-popup w key m
view-popup w view_mdl key m =
    mdl-popup m.mdl_mode (build_mdl w.mdl_order m.snapshot.metadata_locks) key m
view-popup w view_explain key m = inr refl
view-popup w view_help key m = inr refl
view-popup w view_lock key m = lock-popup w key m

-- A key that works everywhere asks for no kill, and leaves the popup's state.
abbrev pub IsPlain : Model → Option (Model × Command) → Type 0
IsPlain m none = Unit {0}
IsPlain m (some r) = (popup r.0 ≡ popup m) × (is_kill r.1 ≡ false)

escape-IsPlain : (m : Model) → IsPlain m (quiet (escape m))
unfolding escape
escape-IsPlain m = elim (Bool-cases (in_queue m.mdl_mode m.view)) [
  | inl e ↦ rw (escape, e) (refl, refl)
  | inr e ↦ elim (Option-cases (esc_view m.view)) [
    | inl f ↦ rw (escape, e, f) tt
    | inr (v, f) ↦ rw (escape, e, f) (refl, refl)
  ]
]

tab-IsPlain : (m : Model) → IsPlain m (global_key tab m)
unfolding global_key
tab-IsPlain m = elim (Option-cases (tab_view m.view)) [
  | inl f ↦ rw (global_key, f) tt
  | inr (v, f) ↦ rw (global_key, f) (refl, refl)
]

pub global-IsPlain : (key : Key) (m : Model) → IsPlain m (global_key key m)
unfolding global_key
global-IsPlain key_q m = (refl, refl)
global-IsPlain ctrl_c m = (refl, refl)
global-IsPlain question m = (refl, refl)
global-IsPlain esc m = escape-IsPlain m
global-IsPlain tab m = tab-IsPlain m
global-IsPlain key_t m = elim (Bool-cases m.has_insights) [
  | inl e ↦ rw (global_key, e) (refl, refl)
  | inr e ↦ rw (global_key, e) tt
]
global-IsPlain key_oo m = (refl, refl)
global-IsPlain key_ii m = (refl, refl)
global-IsPlain key_ll m = (refl, refl)
global-IsPlain key_bb m = (refl, refl)
global-IsPlain key_mm m = (refl, refl)
global-IsPlain _ m = tt

pub help-popup :
    (key : Key) (m : Model)
    → (popup (handle_help_key key m).0 ≡ popup m) × (is_kill (handle_help_key key m).1 ≡ false)
unfolding handle_help_key
help-popup key m = ground arith
