-- ===== src/Explain/Safe.antt =====
-- internal/explain/safe.go: which statements EXPLAIN is run on. Letters, blanks and case are those of
-- ASCII. The loop of stripLeading takes fuel, one more than the text has bytes, and `none` means that
-- it ran out.
pub mod Stripped
mod Tests
use mathlib.Core.Option
use mysqlmonitoring.Prelude.{
  ℕ, zero, suc, ◌+◌, Bool, true, false, ◌&&◌, ◌||◌, Option, none, some, List, [], ◌∷◌, length, drop,
  leb, if◌then◌else◌, Str, codes, str_eq, has_prefix, to_upper, trim_left,
}

-- The text behind the first `sub`: s[strings.Index(s, sub)+len(sub):], if there is one.
pub after : Str → Str → Option Str
after sub [] = none
after sub (c ∷ s) =
    let rest = after sub s in
    if has_prefix (c ∷ s) sub then some (drop (length sub) (c ∷ s)) else rest

-- One round of the loop: it goes on with a text, or returns one.
pub data Round : Type 0 where
  next : Str → Round
  return : Str → Round

pub go_on : Option Str → Round
go_on none = return []
go_on (some s) = next s

pub round : Str → Round
round sql =
    let s = trim_left sql in
    if has_prefix s (codes "/*")
    then go_on (after (codes "*/") s)
    else if has_prefix s (codes "--")
    then go_on (after (10 ∷ []) s)
    else if has_prefix s (codes "#")
    then go_on (after (10 ∷ []) s)
    else return s

-- stripLeading
pub strip : ℕ → Str → Option Str
strip zero sql = none
strip (suc fuel) sql = elim (round sql) [ next s ↦ strip fuel s | return s ↦ some s ]

pub strip_leading : Str → Option Str
strip_leading sql = strip (length sql + 1) sql

pub is_letter : ℕ → Bool
is_letter c = (leb b'a' c && leb c b'z') || (leb b'A' c && leb c b'Z')

-- firstWord
pub first_word : Str → Str
first_word [] = []
first_word (c ∷ s) = let rest = first_word s in if is_letter c then c ∷ rest else []

abbrev pub is_safe : Str → Bool
is_safe verb = str_eq (to_upper verb) (codes "SELECT") || str_eq (to_upper verb) (codes "WITH")

-- SafeVerb and VerbFor
pub safe_verb : Str → Option Bool
safe_verb sql = Option.map (λ s. is_safe (first_word s)) (strip_leading sql)

pub verb_for : Str → Option Str
verb_for sql = Option.map (λ s. to_upper (first_word s)) (strip_leading sql)
