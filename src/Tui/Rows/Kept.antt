-- ===== src/Tui/Rows/Kept.antt =====
-- issues.go: which issues the rows come from.
use mysqlmonitoring.Prelude.{
  ℕ, zero, suc, ◌+◌, ◌≡◌, ◌∙◌, ap, true, Option, some, List, arith, ◌⊎◌, inl, inr, In, Str, codes,
  str_eq,
}
use mysqlmonitoring.Prelude.Int.{ℤ, negsuc}
use mysqlmonitoring.Db.{Snapshot}
use mysqlmonitoring.Detector.Issues.{Issue}
use mysqlmonitoring.Tui.Rows.{
  IssueRow, value_at, with_table, participant_row, complete_participant, participant_rows,
}
use mysqlmonitoring.Tui.Text.{parse_int}

module _ (find_table : Str → Option (Str × Str)) (parse_time : Str → Option ℕ) (wall : ℕ) where
  complete_participant-raw :
      (snap : Snapshot) (a : ℤ) (row : IssueRow)
      → (complete_participant find_table parse_time wall snap a row).raw ≡ row.raw
  unfolding complete_participant with_table
  complete_participant-raw snap a row = ground arith

  participant_rows-raw :
      (snap : Snapshot) (iss : Issue) (a : ℤ) (i n : ℕ) (row : IssueRow)
      → In row (participant_rows find_table parse_time wall snap iss a i n)
      → row.raw ≡ iss
  unfolding participant_rows participant_row
  participant_rows-raw snap iss a i zero row m = absurd m
  participant_rows-raw snap iss a i (suc n) row (inl e) =
      ap (λ (r : IssueRow). r.raw) e
      ∙ complete_participant-raw snap a (participant_row find_table parse_time wall iss i)
  participant_rows-raw snap iss a i (suc n) row (inr m) =
      participant_rows-raw snap iss a (i + 1) n row m

  -- A row of the issue, if it has one; a deadlock with a negative count of participants has none.
  abbrev pub HasRow : Issue → List IssueRow → Type 0
  HasRow iss rows =
      ((row : IssueRow) × In row rows × (row.raw ≡ iss))
      ⊎ ((n : ℕ) × (str_eq iss.detector (codes "deadlock") ≡ true)
          × (parse_int (value_at (codes "participants") iss.details) ≡ some (negsuc n)))
