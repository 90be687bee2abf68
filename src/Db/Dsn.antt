-- ===== src/Db/Dsn.antt =====
-- internal/db/dsn.go: the data source name that is built from a configuration, and the one that is
-- read from the user. url.Parse is a parameter, which gives the parts of the URI or its error.
pub mod Built
mod Tests
use mysqlmonitoring.Prelude.{
  ℕ, ◌&&◌, Bool, true, false, not, Option, none, some, List, [], ◌∷◌, ◌++◌, ◌==◌, if◌then◌else◌,
  Str, codes, str_eq, has_prefix, contains,
}
use mysqlmonitoring.Prelude.Int.{ℤ, pos, negsuc}
use mysqlmonitoring.Db.{Answer, answered, failed}
use mysqlmonitoring.Detector.Issues.{show_int}

pub record DsnConfig : Type 0 where
  pub host : Str
  pub port : ℤ
  pub user : Str
  pub password : Str
  pub database : Str

abbrev is_zero : ℤ → Bool
is_zero (pos n) = n == 0
is_zero (negsuc n) = false

abbrev pub dsn_params : Str
dsn_params = codes "?parseTime=true&timeout=5s&readTimeout=60s&interpolateParams=true"

-- The user and the port that BuildDSN fills in.
abbrev pub user_or_root : DsnConfig → Str
user_or_root cfg = if str_eq cfg.user [] then codes "root" else cfg.user

abbrev pub port_or_default : DsnConfig → ℤ
port_or_default cfg = if is_zero cfg.port then pos 3306 else cfg.port

unfoldable pub build_dsn : DsnConfig → Str
build_dsn cfg =
    user_or_root cfg
    ++ codes ":"
    ++ cfg.password
    ++ codes "@tcp("
    ++ cfg.host
    ++ codes ":"
    ++ show_int (port_or_default cfg)
    ++ codes ")/"
    ++ cfg.database
    ++ dsn_params

-- What ParseDSN takes from url.Parse; `values` is u.Query(), in the order in which the loop meets
-- its keys.
pub record Uri : Type 0 where
  pub username : Str
  pub password : Str
  pub hostname : Str
  pub port : Str
  pub path : Str
  pub values : List (Str × List Str)

abbrev trim_slash : Str → Str
trim_slash [] = []
trim_slash (c ∷ s) = if c == b'/' then s else c ∷ s

pub forward_values : Str → List Str → Str
forward_values key [] = []
forward_values key (v ∷ vs) = codes "&" ++ key ++ codes "=" ++ v ++ forward_values key vs

pub forward_query : List (Str × List Str) → Str
forward_query [] = []
forward_query ((key, vs) ∷ values) =
    let rest = forward_query values in
    if str_eq key (codes "parseTime") then rest else forward_values key vs ++ rest

-- convertURIToDSN, once the URI is parsed.
pub convert_uri_to_dsn : Uri → Str
convert_uri_to_dsn u =
    u.username
    ++ codes ":"
    ++ u.password
    ++ codes "@tcp("
    ++ u.hostname
    ++ codes ":"
    ++ (if str_eq u.port [] then codes "3306" else u.port)
    ++ codes ")/"
    ++ trim_slash u.path
    ++ codes "?parseTime=true"
    ++ forward_query u.values

-- The texts before and from a byte on, at its first place, or the whole text and nothing.
pub split_at_byte : ℕ → Str → Str × Str
split_at_byte b [] = ([], [])
split_at_byte b (c ∷ s) =
    let rest = split_at_byte b s in if c == b then ([], c ∷ s) else (c ∷ rest.0, rest.1)

-- The texts before and behind the last @; none when there is none.
pub split_last_at : Str → Option (Str × Str)
split_last_at [] = none
split_last_at (c ∷ s) = elim (split_last_at s) [
  | some r ↦ some (c ∷ r.0, r.1)
  | none ↦ if c == b'@' then some ([], s) else none
]

-- convertSimpleDSN, for the parts around the last @.
pub wrap_host : Str → Str → Str
wrap_host user_info rest =
    let parts = split_at_byte b'?' rest in
    let host_db = split_at_byte b'/' parts.0 in
    user_info ++ codes "@tcp(" ++ host_db.0 ++ codes ")" ++ host_db.1 ++ parts.1

pub convert_simple_dsn : Str → Str
convert_simple_dsn dsn = elim (split_last_at dsn) [ none ↦ dsn | some r ↦ wrap_host r.0 r.1 ]

unfoldable pub add_parse_time : Str → Str
add_parse_time dsn =
    if contains dsn (codes "parseTime")
    then dsn
    else if contains dsn (codes "?")
    then dsn ++ codes "&parseTime=true"
    else dsn ++ codes "?parseTime=true"

unfoldable pub parse_dsn : (Str → Answer Uri) → Str → Answer Str
parse_dsn parse_uri dsn =
    if str_eq dsn []
    then failed (codes "DSN is empty")
    else if has_prefix dsn (codes "mysql://")
    then elim (parse_uri dsn) [
      | failed e ↦ failed (codes "invalid DSN URI: " ++ e)
      | answered u ↦ answered (convert_uri_to_dsn u)
    ]
    else answered (
        add_parse_time (
          if contains dsn (codes "@") && not (contains dsn (codes "@tcp("))
          then convert_simple_dsn dsn
          else dsn))
