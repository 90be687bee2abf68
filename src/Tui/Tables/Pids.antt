-- ===== src/Tui/Tables/Pids.antt =====
-- tables.go: what the table rows say of the issue rows.
use mysqlmonitoring.Prelude.{
  ℕ, ◌≡◌, ◌∙◌, ap, sym, subst, refl, true, false, Option, List, [], ◌∷◌, arith, Bool-cases, ◌⊎◌,
  ◌↔◌, inl, inr, All, In-All, In, In-append, In-append_left, In-append_right, Str, str_eq,
  str_eq_iff, str_eq_refl, ◌==◌, ==_iff, if◌then◌else◌,
}
use mysqlmonitoring.Prelude.Sort.{In-sort_stable}
use mysqlmonitoring.Db.{Snapshot}
use mysqlmonitoring.Detector.Issues.{Issue}
use mysqlmonitoring.Tui.Rows.{IssueRow, killable, build_issue_rows}
use mysqlmonitoring.Tui.Tables.{
  TableRow, table_first, build_table_rows, kill_pids, table_name, contains_uint64, add_pid, add_row,
  add_to_bucket, add_all,
}

not_both : ¬ (false ≡ true)
not_both e = ground arith

-- The PIDs of the table row with a name.
abbrev pub pids_of : Str → List TableRow → List ℕ
pids_of name [] = []
pids_of name (t ∷ ts) = if str_eq t.name name then t.pids else pids_of name ts

-- What the loop makes of the PIDs of one name.
abbrev pub gather : Str → List IssueRow → List ℕ → List ℕ
gather name [] pids = pids
gather name (r ∷ rs) pids =
    gather name rs (if str_eq (table_name r) name then add_pid r pids else pids)

pids_of-add_to_bucket :
    (name : Str) (r : IssueRow) (ts : List TableRow)
    → pids_of name (add_to_bucket r ts)
      ≡ (if str_eq (table_name r) name then add_pid r (pids_of name ts) else pids_of name ts)
unfolding add_to_bucket add_row
pids_of-add_to_bucket name r [] = refl
pids_of-add_to_bucket name r (t ∷ ts) = ground (
  arith,
  str_eq_iff t.name (table_name r),
  str_eq_iff t.name name,
  str_eq_iff (table_name r) name,
  pids_of-add_to_bucket name r ts,
)

pids_of-add_all :
    (name : Str) (rs : List IssueRow) (ts : List TableRow)
    → pids_of name (add_all rs ts) ≡ gather name rs (pids_of name ts)
unfolding add_all
pids_of-add_all name [] ts = refl
pids_of-add_all name (r ∷ rs) ts =
    pids_of-add_all name rs (add_to_bucket r ts)
    ∙ ap (gather name rs) (pids_of-add_to_bucket name r ts)

contains-In : (v : ℕ) (pids : List ℕ) → contains_uint64 pids v ≡ true → In v pids
contains-In v [] e = absurd (not_both e)
contains-In v (p ∷ pids) e = elim (Bool-cases (p == v)) [
  | inl f ↦ inl (sym ((==_iff p v).0 f))
  | inr f ↦ inr (contains-In v pids (rw f at e))
]

In-add_pid :
    (pid : ℕ) (r : IssueRow) (pids : List ℕ)
    → In pid (add_pid r pids) ↔ (In pid pids ⊎ ((killable r ≡ true) × (pid ≡ r.pid)))
unfolding add_pid
In-add_pid pid r pids = elim (Bool-cases (killable r)) [
  | inl e ↦ elim (Bool-cases (contains_uint64 pids r.pid)) [
    | inl f ↦
        rw (add_pid, e, f)
          (
            (λ m. inl m),
            λ m. elim m [
              | inl h ↦ h
              | inr h ↦ subst (λ x. In x pids) (sym h.1) (contains-In r.pid pids f)
            ],
          )
    | inr f ↦
        rw (add_pid, e, f)
          (
            (λ m. elim (In-append pid pids (r.pid ∷ []) m) [
              | inl h ↦ inl h
              | inr (inl h) ↦ inr (refl, h)
              | inr (inr h) ↦ absurd h
            ]),
            λ m. elim m [
              | inl h ↦ In-append_left pid pids (r.pid ∷ []) h
              | inr h ↦ In-append_right pid pids (r.pid ∷ []) (inl h.1)
            ],
          )
  ]
  | inr e ↦
      rw (add_pid, e) ((λ m. inl m), λ m. elim m [ inl h ↦ h | inr h ↦ absurd (not_both h.0) ])
]

-- A killable row that is counted under the name, with this PID.
abbrev pub Kills : Str → List IssueRow → ℕ → Type 0
Kills name rs pid =
    (r : IssueRow) × In r rs
    × (killable r ≡ true)
    × (str_eq (table_name r) name ≡ true)
    × (pid ≡ r.pid)

Kills-cons :
    (name : Str) (r : IssueRow) (rs : List IssueRow) (pid : ℕ)
    → Kills name rs pid
    → Kills name (r ∷ rs) pid
Kills-cons name r rs pid k = (k.0, inr k.1, k.2, k.3, k.4)

Kills-rest :
    (name : Str) (r : IssueRow) (rs : List IssueRow) (pid : ℕ)
    → str_eq (table_name r) name ≡ false
    → Kills name (r ∷ rs) pid
    → Kills name rs pid
Kills-rest name r rs pid e (q, inl f, k, n, p) = absurd (not_both (sym e ∙ rw (sym f) n))
Kills-rest name r rs pid e (q, inr m, k, n, p) = (q, m, k, n, p)

Kills-split :
    (name : Str) (r : IssueRow) (rs : List IssueRow) (pid : ℕ)
    → Kills name (r ∷ rs) pid
    → ((killable r ≡ true) × (pid ≡ r.pid)) ⊎ Kills name rs pid
Kills-split name r rs pid (q, inl f, k, n, p) =
    inl (rw (sym f) k, p ∙ ap (λ (x : IssueRow). x.pid) f)
Kills-split name r rs pid (q, inr m, k, n, p) = inr (q, m, k, n, p)

In-gather :
    (name : Str) (rs : List IssueRow) (pids : List ℕ) (pid : ℕ)
    → In pid (gather name rs pids) ↔ (In pid pids ⊎ Kills name rs pid)
In-gather name [] pids pid = ((λ m. inl m), λ m. elim m [ inl h ↦ h | inr h ↦ absurd h.1 ])
In-gather name (r ∷ rs) pids pid = elim (Bool-cases (str_eq (table_name r) name)) [
  | inl e ↦
      let rest = In-gather name rs (add_pid r pids) pid in
      let here = In-add_pid pid r pids in
      rw e (
        (λ m. elim (rest.0 m) [
          | inl h ↦ elim (here.0 h) [ inl h' ↦ inl h' | inr h' ↦ inr (r, inl refl, h'.0, e, h'.1) ]
          | inr k ↦ inr (Kills-cons name r rs pid k)
        ]),
        λ m. elim m [
          | inl h ↦ rest.1 (inl (here.1 (inl h)))
          | inr k ↦ elim (Kills-split name r rs pid k) [
            | inl h ↦ rest.1 (inl (here.1 (inr h)))
            | inr k' ↦ rest.1 (inr k')
          ]
        ],
      )
  | inr e ↦
      let rest = In-gather name rs pids pid in
      rw e (
        (λ m. elim (rest.0 m) [ inl h ↦ inl h | inr k ↦ inr (Kills-cons name r rs pid k) ]),
        λ m. elim m [
          | inl h ↦ rest.1 (inl h)
          | inr k ↦ rest.1 (inr (Kills-rest name r rs pid e k))
        ],
      )
]

-- No two table rows have the same name.
abbrev IsDistinct : List TableRow → Type 0
IsDistinct [] = Unit {0}
IsDistinct (t ∷ ts) = All (λ u. str_eq u.name t.name ≡ false) ts × IsDistinct ts

add_to_bucket-name :
    (name : Str) (r : IssueRow) (ts : List TableRow)
    → str_eq (table_name r) name ≡ false
    → All (λ u. str_eq u.name name ≡ false) ts
    → All (λ u. str_eq u.name name ≡ false) (add_to_bucket r ts)
unfolding add_to_bucket add_row
add_to_bucket-name name r [] e a = (e, tt)
add_to_bucket-name name r (t ∷ ts) e a = elim (Bool-cases (str_eq t.name (table_name r))) [
  | inl f ↦ rw (add_to_bucket, f) a
  | inr f ↦ rw (add_to_bucket, f) (a.0, add_to_bucket-name name r ts e a.1)
]

add_to_bucket-IsDistinct :
    (r : IssueRow) (ts : List TableRow) → IsDistinct ts → IsDistinct (add_to_bucket r ts)
unfolding add_to_bucket add_row
add_to_bucket-IsDistinct r [] d = (tt, tt)
add_to_bucket-IsDistinct r (t ∷ ts) d = elim (Bool-cases (str_eq t.name (table_name r))) [
  | inl f ↦ rw (add_to_bucket, f) d
  | inr f ↦
      rw (add_to_bucket, f)
        (
          add_to_bucket-name t.name r ts
              (ground (arith, str_eq_iff t.name (table_name r), str_eq_iff (table_name r) t.name))
              d.0,
          add_to_bucket-IsDistinct r ts d.1,
        )
]

add_all-IsDistinct :
    (rs : List IssueRow) (ts : List TableRow) → IsDistinct ts → IsDistinct (add_all rs ts)
unfolding add_all
add_all-IsDistinct [] ts d = d
add_all-IsDistinct (r ∷ rs) ts d =
    add_all-IsDistinct rs (add_to_bucket r ts) (add_to_bucket-IsDistinct r ts d)

pids_of-In :
    (t : TableRow) (ts : List TableRow) → IsDistinct ts → In t ts → pids_of t.name ts ≡ t.pids
pids_of-In t [] d m = absurd m
pids_of-In t (u ∷ ts) d (inl e) = rw (e, str_eq_refl u.name) refl
pids_of-In t (u ∷ ts) d (inr m) =
    let other : str_eq t.name u.name ≡ false =
      In-All (λ (x : TableRow). str_eq x.name u.name ≡ false) ts d.0 m in
    let apart : str_eq u.name t.name ≡ false =
      ground (arith, str_eq_iff t.name u.name, str_eq_iff u.name t.name) in
    rw apart (pids_of-In t ts d.1 m)

module _ (order : List TableRow → List TableRow)
    (meets : (ts : List TableRow) (t : TableRow) → In t (order ts) ↔ In t ts)
    (find_table : Str → Option (Str × Str)) (parse_time : Str → Option ℕ) (wall : ℕ) where
  -- The bulk kill of a table row reaches exactly the killable rows of the Issues view that are
  -- counted under its name, in whatever order the loop meets the tables.
  pub kill_pids-build_table_rows :
      (issues : List Issue) (snap : Snapshot) (t : TableRow) (pid : ℕ)
      → In t (build_table_rows order find_table parse_time wall issues snap)
      → In pid (kill_pids t)
        ↔ Kills t.name (build_issue_rows find_table parse_time wall issues snap) pid
  unfolding build_table_rows
  kill_pids-build_table_rows issues snap t pid m =
      let rs = build_issue_rows find_table parse_time wall issues snap in
      let found =
        (meets (add_all rs []) t).0 ((In-sort_stable table_first t (order (add_all rs []))).0 m) in
      let same = pids_of-In t (add_all rs []) (add_all-IsDistinct rs [] tt) found in
      let all = pids_of-add_all t.name rs [] in
      let both = In-gather t.name rs [] pid in
      (
        (λ k. elim (both.0 (subst (In pid) (sym same ∙ all) k)) [ inl h ↦ absurd h | inr h ↦ h ]),
        λ k. subst (In pid) (sym all ∙ same) (both.1 (inr k)),
      )
