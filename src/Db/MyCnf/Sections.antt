-- ===== src/Db/MyCnf/Sections.antt =====
-- mycnf.go: the lines on which ReadMyCnf panics.
use mysqlmonitoring.Prelude.{
  ◌≡◌, Bool, true, false, ◌||◌, Option, none, some, List, [], ◌∷◌, ◌↔◌, ◌==◌, arith, Option-cases,
  inl, inr, if◌then◌else◌, Str, trim_space,
}
use mysqlmonitoring.Prelude.Int.{ℤ}
use mysqlmonitoring.Db.MyCnf.{cut, Scan, read_line, read_lines}

-- A line that opens a section and has no ].
abbrev pub is_open : Str → Bool
is_open [] = false
is_open (c ∷ line) =
    if c == b'[' then (elim (cut b']' line) [ none ↦ true | some r ↦ false ]) else false

abbrev pub any_open : List Str → Bool
any_open [] = false
any_open (line ∷ lines) = is_open (trim_space line) || any_open lines

read_line-open :
    (atoi : Str → Option ℤ) (line : Str) (s : Scan)
    → (read_line atoi line s ≡ none) ↔ (is_open line ≡ true)
unfolding read_line
read_line-open atoi [] s = ground arith
read_line-open atoi (c ∷ line) s = elim (Option-cases (cut b']' line)) [
  | inl e ↦ rw e (ground arith)
  | inr (r, e) ↦ rw e (ground arith)
]

-- The loop of ReadMyCnf panics if and only if some line opens a section and does not close it,
-- wherever that line stands.
pub read_lines-panics :
    (atoi : Str → Option ℤ) (lines : List Str) (s : Scan)
    → (read_lines atoi lines s ≡ none) ↔ (any_open lines ≡ true)
unfolding read_lines
read_lines-panics atoi [] s = ground arith
read_lines-panics atoi (line ∷ lines) s =
    let h = read_line-open atoi (trim_space line) s in
    elim (Option-cases (read_line atoi (trim_space line) s)) [
      | inl e ↦ rw (read_lines, e, h.0 e) (ground arith)
      | inr (t, e) ↦
          let rest = read_lines-panics atoi lines t in
          let closed : is_open (trim_space line) ≡ false = ground arith in
          rw (read_lines, e, closed) rest
    ]
