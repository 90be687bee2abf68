-- ===== src/Tui/Text.antt =====
-- internal/tui/views.go: numbers, durations and comments in the text of issues and queries.
use mysqlmonitoring.Prelude.{
  ℕ, ◌+◌, ◌*◌, ◌-◌, ◌^◌, ◌/◌, ◌%◌, Bool, true, false, ◌&&◌, ◌||◌, Option, none, some, [], ◌∷◌, ◌++◌,
  ltb, leb, ◌==◌, if◌then◌else◌, Str, codes, str_eq, has_prefix,
}
use mysqlmonitoring.Prelude.Int.{ℤ, pos, pos_part, ◌-ℤ◌, ltb_ℤ}
use mysqlmonitoring.Detector.Issues.{show, show_int, quot, seconds}

-- strconv.ParseUint(v, 10, 64), none for its error.
abbrev pub is_digit : ℕ → Bool
is_digit c = leb b'0' c && leb c b'9'

unfoldable pub digits_from : ℕ → Str → Option ℕ
digits_from n [] = some n
digits_from n (c ∷ s) =
    let rest = digits_from (10 * n + (c - b'0')) s in if is_digit c then rest else none

unfoldable pub parse_uint : Str → Option ℕ
parse_uint [] = none
parse_uint (c ∷ s) = elim (digits_from 0 (c ∷ s)) [
  | none ↦ none
  | some n ↦ if ltb n (2 ^ 64) then some n else none
]

-- strconv.ParseInt(v, 10, 64) and Atoi, none for their error.
abbrev pub in_range : ℤ → Option ℤ
in_range (pos n) = if ltb n (2 ^ 63) then some (pos n) else none
in_range (ℤ.negsuc n) = if ltb n (2 ^ 63) then some (ℤ.negsuc n) else none

abbrev pub signed : Bool → Option ℕ → Option ℤ
signed minus none = none
signed minus (some n) = in_range (if minus then pos 0 -ℤ pos n else pos n)

unfoldable pub parse_int : Str → Option ℤ
unfolding ◌-ℤ◌
parse_int [] = none
parse_int (c ∷ s) =
    if c == b'-'
    then signed true (parse_uint s)
    else if c == b'+'
    then signed false (parse_uint s)
    else signed false (parse_uint (c ∷ s))

-- humanDuration
unfoldable pub human_duration : ℤ → Str
human_duration ms =
    if ltb_ℤ ms (pos 1000)
    then show_int ms ++ codes "ms"
    else let secs = pos_part ms / 1000 in
      let mins = secs / 60 in
      let hours = mins / 60 in
      if ltb secs 60
      then show secs ++ codes "s"
      else if ltb mins 60
      then (if secs % 60 == 0
          then show mins ++ codes "m"
          else show mins ++ codes "m" ++ show (secs % 60) ++ codes "s")
      else if mins % 60 == 0
      then show hours ++ codes "h"
      else show hours ++ codes "h" ++ show (mins % 60) ++ codes "m"

abbrev pub milliseconds : ℤ → ℤ
milliseconds d = quot d (10 ^ 6)

-- stripLeadingSQLComments, byte by byte: between comments, in a block comment, at the slash that
-- ends one, and in a line comment.
pub data Mode : Type 0 where
  outside block closing line : Mode

abbrev pub is_blank : ℕ → Bool
is_blank c = c == 32 || c == 9 || c == 13 || c == 10

-- The mode behind the first byte, or none where the loop returns.
unfoldable pub next_mode : Mode → Str → Option Mode
next_mode outside [] = none
next_mode outside (c ∷ s) =
    if is_blank c
    then some outside
    else if has_prefix (c ∷ s) (codes "/*")
    then some block
    else if has_prefix (c ∷ s) (codes "--") || has_prefix (c ∷ s) (codes "#")
    then some line
    else none
next_mode block s = some (if has_prefix s (codes "*/") then closing else block)
next_mode closing s = some outside
next_mode line s = some (if has_prefix s (10 ∷ []) then outside else line)

unfoldable pub strip_in : Mode → Str → Str
strip_in m [] = []
strip_in m (c ∷ s) = elim (next_mode m (c ∷ s)) [ none ↦ c ∷ s | some m' ↦ strip_in m' s ]

unfoldable pub strip_leading_sql_comments : Str → Str
strip_leading_sql_comments q = strip_in outside q

-- friendlyKind
unfoldable pub friendly_kind : Str → Str
friendly_kind name =
    if str_eq name (codes "long_transaction")
    then codes "long-trx"
    else if str_eq name (codes "lock_chain")
    then codes "lock-chain"
    else if str_eq name (codes "ddl_conflict")
    then codes "ddl"
    else name

-- parseDuration: the number read so far in the current part, if any, and the total. none is the
-- failure, for which the function returns zero.
abbrev pub unit : ℕ → Option ℕ
unit c =
    if c == b'h'
    then some 3600
    else if c == b'm'
    then some 60
    else if c == b's'
    then some 1
    else none

abbrev pub is_int64 : ℕ → Bool
is_int64 n = ltb n (2 ^ 63)

abbrev pub or_zero : Option ℕ → ℕ
or_zero none = 0
or_zero (some n) = n

unfoldable pub duration_from : Option ℕ → ℕ → Str → Option ℕ
duration_from none total [] = some total
duration_from (some n) total [] = none
duration_from num total (c ∷ s) =
    let more = duration_from (some (10 * or_zero num + (c - b'0'))) total s in
    let next = duration_from none (total + or_zero num * or_zero (unit c)) s in
    if is_digit c then more else elim num [
      | none ↦ none
      | some n ↦ elim (unit c) [ none ↦ none | some u ↦ if is_int64 n then next else none ]
    ]

unfoldable pub parse_duration : Str → ℤ
parse_duration s = elim (duration_from none 0 s) [ none ↦ pos 0 | some n ↦ seconds (pos n) ]
