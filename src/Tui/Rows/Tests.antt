-- ===== src/Tui/Rows/Tests.antt =====
-- Runs of the rows of the Issues view.
use mysqlmonitoring.Prelude.{
  ℕ, ◌^◌, ◌/◌, ◌≡◌, ◌⊎◌, refl, true, none, some, Option, List, [], ◌∷◌, Str, codes, In, str_eq,
  arith,
}
use mysqlmonitoring.Prelude.Int.{pos}
use mysqlmonitoring.Detector.Issues.{Issue, warning, format_duration, seconds}
use mysqlmonitoring.Tui.Text.{parse_duration, strip_leading_sql_comments}
use mysqlmonitoring.Tui.Rows.Durations.{kept_seconds, parse_duration-format_duration}

-- 3661 seconds are written as 1h1m.
parse_duration-format_duration_example :
    parse_duration (format_duration (pos 3661000000000))
    ≡ seconds (pos (kept_seconds (3661000000000 / 10 ^ 9)))
parse_duration-format_duration_example = parse_duration-format_duration 3661000000000 (omega arith)

comments_before : strip_leading_sql_comments (codes " /* a */ # b") ≡ []
unfolding strip_leading_sql_comments mysqlmonitoring.Tui.Text.strip_in
    mysqlmonitoring.Tui.Text.next_mode mysqlmonitoring.Prelude.has_prefix
comments_before = refl

abbrev no_table : Str → Option (Str × Str)
no_table s = none

abbrev no_time : Str → Option ℕ
no_time s = none

abbrev issue : Issue
issue = record {
  detector = codes "lock_chain";
  severity = warning;
  title = codes "Lock";
  description = [];
  details = (codes "root_blocker", codes "7") ∷ (codes "lock_table", codes "shop.t") ∷ [];
}
