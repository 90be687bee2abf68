-- ===== src/Collector/AppTag.antt =====
-- internal/collector/apptag.go: the application tag of a statement. url.QueryUnescape is the
-- parameter `unescape`, which gives none for its error. A slice out of range panics, which is the
-- result none of the functions that can; a map is an association list.
pub mod Pairs
pub mod Tags
mod Tests
use mysqlmonitoring.Prelude.{
  ℕ, ◌-◌, Bool, true, false, not, ◌&&◌, ◌||◌, Option, none, some, List, [], ◌∷◌, ◌++◌, length, take,
  drop, ltb, ◌==◌, if◌then◌else◌, Str, codes, str_eq, has_prefix, trim_space,
}

pub record CurrentStmt : Type 0 where
  pub processlist_id : ℕ
  pub schema : Str
  pub digest : Str
  pub sql_text : Str
  pub executing : Bool
  pub current_wait : Str
  pub program_name : Str
  pub user : Str
  pub host : Str

abbrev pub comment_max_bytes : ℕ
comment_max_bytes = 1024

abbrev pub app_tag_unknown : Str
app_tag_unknown = codes "unknown"

-- The bytes ' and \ and , and =.
abbrev pub quote : ℕ
quote = 39

abbrev pub backslash : ℕ
backslash = 92

abbrev pub comma : ℕ
comma = 44

abbrev pub equals : ℕ
equals = 61

-- splitPairs from a position on: whether the byte before it is a backslash, whether it is in quotes,
-- and body[start:i], the bytes since the last cut.
pub split_from : Bool → Bool → Str → Str → List Str
split_from escaped in_quotes cur [] = cur ∷ []
split_from escaped in_quotes cur (c ∷ s) =
    let toggled = split_from (c == backslash) (not in_quotes) (cur ++ c ∷ []) s in
    let pairs = split_from (c == backslash) in_quotes [] s in
    let rest = split_from (c == backslash) in_quotes (cur ++ c ∷ []) s in
    if c == quote && not escaped
    then toggled
    else if c == comma && not in_quotes
    then cur ∷ pairs
    else rest

pub split_pairs : Str → List Str
split_pairs body = split_from false false [] body

-- splitKV: the parts before and behind the first equals sign.
pub split_kv : Str → Option (Str × Str)
split_kv [] = none
split_kv (c ∷ s) =
    let rest = split_kv s in
    if c == equals
    then some ([], s)
    else elim rest [ none ↦ none | some kv ↦ some (c ∷ kv.0, kv.1) ]

-- The last byte of a text, the first being `c`.
abbrev last_byte : ℕ → Str → ℕ
last_byte c [] = c
last_byte c (d ∷ s) = last_byte d s

abbrev init_bytes : ℕ → Str → Str
init_bytes c [] = []
init_bytes c (d ∷ s) = c ∷ init_bytes d s

-- strings.ReplaceAll(inner, `\'`, `'`)
pub unescape_quotes : Str → Str
unescape_quotes [] = []
unescape_quotes (c ∷ []) = c ∷ []
unescape_quotes (c ∷ d ∷ s) =
    let merged = unescape_quotes s in
    let rest = unescape_quotes (d ∷ s) in
    if c == backslash && d == quote then quote ∷ merged else c ∷ rest

pub unquote : Str → Str
unquote [] = []
unquote (c ∷ []) = c ∷ []
unquote (c ∷ d ∷ s) =
    if c == quote && last_byte d s == quote then unescape_quotes (init_bytes d s) else c ∷ d ∷ s

abbrev pub Pairs : Type 0
Pairs = List (Str × Str)

-- out[key] = val
pub set_pair : Str → Str → Pairs → Pairs
set_pair k v [] = (k, v) ∷ []
set_pair k v ((j, w) ∷ out) = if str_eq j k then (j, v) ∷ out else (j, w) ∷ set_pair k v out

-- pairs[key]
unfoldable pub get_pair : Str → Pairs → Option Str
get_pair k [] = none
get_pair k ((j, w) ∷ out) = if str_eq j k then some w else get_pair k out

-- strings.TrimLeft(sql, " \t\r\n")
pub trim_blank : Str → Str
trim_blank [] = []
trim_blank (c ∷ s) = if c == 32 || c == 9 || c == 13 || c == 10 then trim_blank s else c ∷ s

-- strings.Index, none for -1.
pub index : Str → Str → Option ℕ
index [] sub = if has_prefix [] sub then some 0 else none
index (c ∷ s) sub =
    let rest = index s sub in
    if has_prefix (c ∷ s) sub then some 0 else elim rest [ none ↦ none | some i ↦ some (ℕ.suc i) ]

-- s[low:high], for a `high` that is at most the length of `s`.
pub slice : Str → ℕ → ℕ → Option Str
slice s low high = if ltb high low then none else some (drop low (take high s))

abbrev pub or_program : CurrentStmt → Str
or_program stmt = if str_eq stmt.program_name [] then app_tag_unknown else stmt.program_name

-- The tag that the pairs give, if any.
pub service_of : CurrentStmt → Pairs → Str
service_of stmt pairs = elim (get_pair (codes "service") pairs) [
  | none ↦ or_program stmt
  | some v ↦ if str_eq v [] then or_program stmt else v
]

module _ (unescape : Str → Option Str) where
  -- The value of a pair, once it is trimmed.
  pub decode : Str → Str
  decode val = elim (unescape (unquote val)) [ none ↦ unquote val | some decoded ↦ decoded ]

  -- One round of the loop over the pairs.
  pub add_pair : Str → Pairs → Pairs
  add_pair pair out = elim (split_kv pair) [
    | none ↦ out
    | some kv ↦
        let key = trim_space kv.0 in
        let val = decode (trim_space kv.1) in
        if str_eq key [] then out else if str_eq val [] then out else set_pair key val out
  ]

  pub add_pairs : List Str → Pairs → Pairs
  add_pairs [] out = out
  add_pairs (pair ∷ pairs) out = add_pairs pairs (add_pair pair out)

  pub parse_body : Str → Pairs
  parse_body body =
      if ltb comment_max_bytes (length body) then [] else add_pairs (split_pairs body) []

  pub parse_comment : Str → Option Pairs
  parse_comment s = elim (index s (codes "*/")) [
    | none ↦ some []
    | some end ↦ elim (slice s 2 end) [ none ↦ none | some body ↦ some (parse_body body) ]
  ]

  pub parse_sql_comment : Str → Option Pairs
  parse_sql_comment sql =
      let s = trim_blank sql in if has_prefix s (codes "/*") then parse_comment s else some []

  pub resolve_app_tag : CurrentStmt → Option Str
  resolve_app_tag stmt =
      if str_eq stmt.sql_text []
      then some (or_program stmt)
      else elim (parse_sql_comment stmt.sql_text) [
        | none ↦ none
        | some pairs ↦ some (service_of stmt pairs)
      ]
