-- ===== src/Db/MyCnf.antt =====
-- internal/db/mycnf.go: the [client] section of an option file. The lines of bufio.Scanner with its
-- error, and strconv.Atoi, are parameters; equality of names is that of ASCII letters.
pub mod Sections
mod Tests
use mysqlmonitoring.Prelude.{
  ℕ, ◌&&◌, ◌||◌, Bool, true, false, not, Option, none, some, List, [], ◌∷◌, ◌==◌, if◌then◌else◌,
  Str, codes, str_eq, to_lower, trim_space, leb, length,
}
use mysqlmonitoring.Prelude.Int.{ℤ, pos}
use mysqlmonitoring.Db.Dsn.{DsnConfig}

-- The text up to a byte, and behind it; none when it is not there.
abbrev pub cut : ℕ → Str → Option (Str × Str)
cut b [] = none
cut b (c ∷ s) =
    let rest = cut b s in
    if c == b then some ([], s) else elim rest [ none ↦ none | some r ↦ some (c ∷ r.0, r.1) ]

pub drop_last : Str → Str
drop_last [] = []
drop_last (c ∷ []) = []
drop_last (c ∷ d ∷ s) = c ∷ drop_last (d ∷ s)

pub ends_with : ℕ → Str → Bool
ends_with b [] = false
ends_with b (c ∷ []) = c == b
ends_with b (c ∷ d ∷ s) = ends_with b (d ∷ s)

abbrev quoted_by : ℕ → Str → Bool
quoted_by b [] = false
quoted_by b (c ∷ s) = c == b && ends_with b (c ∷ s)

pub strip_quotes : Str → Str
strip_quotes [] = []
strip_quotes (c ∷ s) =
    if leb 2 (length (c ∷ s)) && (quoted_by b'"' (c ∷ s) || quoted_by b'\'' (c ∷ s))
    then drop_last s
    else c ∷ s

pub parse_ini_line : Str → Option (Str × Str)
parse_ini_line line = elim (cut b'=' line) [
  | none ↦ none
  | some r ↦ some (trim_space r.0, strip_quotes (trim_space r.1))
]

-- The switch over the keys.
pub set_option : (Str → Option ℤ) → Str → Str → DsnConfig → DsnConfig
set_option atoi key value cfg =
    let k = to_lower key in
    if str_eq k (codes "user")
    then record cfg { user = value }
    else if str_eq k (codes "password")
    then record cfg { password = value }
    else if str_eq k (codes "host")
    then record cfg { host = value }
    else if str_eq k (codes "port")
    then (elim (atoi value) [ none ↦ cfg | some p ↦ record cfg { port = p } ])
    else if str_eq k (codes "database")
    then record cfg { database = value }
    else cfg

abbrev pub empty_config : DsnConfig
empty_config = record { host = []; port = pos 0; user = []; password = []; database = [] }

-- The section and the configuration so far.
abbrev pub Scan : Type 0
Scan = Bool × DsnConfig

abbrev pub read_option : (Str → Option ℤ) → Str → Scan → Scan
read_option atoi line s =
    if s.0
    then (elim (parse_ini_line line) [ none ↦ s | some kv ↦ (s.0, set_option atoi kv.0 kv.1 s.1) ])
    else s

-- A section line, without its first byte; none is the panic of a slice that ends at -1.
abbrev pub read_section : Str → Scan → Option Scan
read_section line s = elim (cut b']' line) [
  | none ↦ none
  | some r ↦ some (str_eq (to_lower (trim_space r.0)) (codes "client"), s.1)
]

-- One round of the loop, for a trimmed line.
pub read_line : (Str → Option ℤ) → Str → Scan → Option Scan
read_line atoi [] s = some s
read_line atoi (c ∷ line) s =
    if c == b'#' || c == b';'
    then some s
    else if c == b'['
    then read_section line s
    else some (read_option atoi (c ∷ line) s)

unfoldable pub read_lines : (Str → Option ℤ) → List Str → Scan → Option Scan
read_lines atoi [] s = some s
read_lines atoi (line ∷ lines) s = elim (read_line atoi (trim_space line) s) [
  | none ↦ none
  | some t ↦ read_lines atoi lines t
]

-- What os.Open and the scanner give.
pub data CnfFile : Type 0 where
  missing : CnfFile
  unreadable : Str → CnfFile
  contents : List Str → Option Str → CnfFile

-- ReadMyCnf: none is a panic, else the configuration and the error.
pub read_my_cnf : (Str → Option ℤ) → CnfFile → Option (DsnConfig × Option Str)
read_my_cnf atoi missing = some (empty_config, none)
read_my_cnf atoi (unreadable e) = some (empty_config, some e)
read_my_cnf atoi (contents lines err) = elim (read_lines atoi lines (false, empty_config)) [
  | none ↦ none
  | some s ↦ some (s.1, err)
]
