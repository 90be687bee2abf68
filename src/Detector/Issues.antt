-- ===== src/Detector/Issues.antt =====
-- internal/detector/detector.go and the text helpers of long_transaction.go: the issues that the
-- detectors report. Details, a map, is the list of its entries as the code writes them.
use mysqlmonitoring.Prelude.{
  ℕ, zero, suc, ◌+◌, ◌-◌, ◌*◌, ◌/◌, ◌%◌, ◌^◌, true, false, List, [], ◌∷◌, ◌++◌, length, take, ltb,
  leb, ◌==◌, if◌then◌else◌, Str, codes,
}
use mysqlmonitoring.Prelude.Int.{ℤ, pos, negsuc}

pub data Severity : Type 0 where
  info warning critical : Severity

abbrev pub severity_rank : Severity → ℕ
severity_rank info = 0
severity_rank warning = 1
severity_rank critical = 2

-- Severity.String
pub severity_name : Severity → Str
severity_name info = codes "INFO"
severity_name warning = codes "WARNING"
severity_name critical = codes "CRITICAL"

pub record Issue : Type 0 where
  pub detector : Str
  pub severity : Severity
  pub title : Str
  pub description : Str
  pub details : List (Str × Str)

-- Issue.String
pub issue_text : Issue → Str
issue_text i =
    codes "[" ++ severity_name i.severity ++ codes "] " ++ i.detector ++ codes ": " ++ i.title

-- %d: the decimal digits, with one step of fuel for each, and one to spare.
abbrev pub digits : ℕ → ℕ → Str → Str
digits zero n acc = acc
digits (suc fuel) n acc = elim (ltb n 10) [
  | true ↦ (b'0' + n) ∷ acc
  | false ↦ digits fuel (n / 10) ((b'0' + n % 10) ∷ acc)
]

unfoldable pub show : ℕ → Str
show n = digits (n + 1) n []

abbrev pub show_int : ℤ → Str
show_int (pos n) = show n
show_int (negsuc n) = codes "-" ++ show (n + 1)

-- time.Duration(s) * time.Second
abbrev pub seconds : ℤ → ℤ
seconds (pos n) = pos (n * 10 ^ 9)
seconds (negsuc n) = negsuc ((n + 1) * 10 ^ 9 - 1)

-- A division that rounds towards zero.
abbrev pub quot : ℤ → ℕ → ℤ
quot (pos n) d = pos (n / d)
quot (negsuc n) d = if (n + 1) / d == 0 then pos 0 else negsuc ((n + 1) / d - 1)

abbrev format_minutes : ℕ → ℕ → Str
format_minutes minutes rest =
    if ltb minutes 60
    then show minutes ++ codes "m" ++ show rest ++ codes "s"
    else show (minutes / 60) ++ codes "h" ++ show (minutes % 60) ++ codes "m"

abbrev pub format_seconds : ℤ → Str
format_seconds (pos total) =
    if ltb total 60 then show total ++ codes "s" else format_minutes (total / 60) (total % 60)
format_seconds (negsuc n) = show_int (negsuc n) ++ codes "s"

-- 2^k and the powers of two below it.
abbrev pub powers : ℕ → List ℕ
powers zero = 1 ∷ []
powers (suc k) = 2 ^ suc k ∷ powers k

-- The first of some numbers that is at most `s`, or 0.
unfoldable pub highest : List ℕ → ℕ → ℕ
highest [] s = 0
highest (p ∷ ps) s = let rest = highest ps s in if leb p s then p else rest

-- What the fraction nsec / 1e9 lacks to 1, as a float64: near 1 it is a multiple of 2^-53, in which
-- this counts.
abbrev pub missing : ℕ → ℕ
missing nsec = ((10 ^ 9 - nsec) * 2 ^ 54 + 10 ^ 9) / (2 * 10 ^ 9)

-- int(d.Seconds()) for a Duration of at least 0, which has fewer than 2^34 seconds. The sum of the
-- seconds and the fraction is a float64: with 2^k the highest power of two among the seconds, its
-- steps are 2^(k-52), so it is rounded up to the next second when the fraction lacks at most
-- 2^(k-53), a tie going to the second, which is even in these steps.
unfoldable pub whole_seconds : ℕ → ℕ
whole_seconds d =
    let sec = d / 10 ^ 9 in
    if leb (missing (d % 10 ^ 9)) (highest (powers 34) sec) then sec + 1 else sec

abbrev pub int_seconds : ℤ → ℤ
int_seconds (pos d) = pos (whole_seconds d)
int_seconds (negsuc n) =
    if whole_seconds (n + 1) == 0 then pos 0 else negsuc (whole_seconds (n + 1) - 1)

-- formatDuration
unfoldable pub format_duration : ℤ → Str
format_duration d = format_seconds (int_seconds d)

-- truncateQuery
unfoldable pub truncate_query : Str → ℕ → Str
truncate_query q max_len = if leb (length q) max_len then q else take max_len q ++ codes "..."

-- strings.Join
unfoldable pub join : Str → List Str → Str
join sep [] = []
join sep (s ∷ []) = s
join sep (s ∷ t ∷ ts) = s ++ sep ++ join sep (t ∷ ts)
