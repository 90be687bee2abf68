-- ===== src/Db/Dsn/Built.antt =====
-- dsn.go: ParseDSN on what is complete already.
use mysqlmonitoring.Prelude.{
  ◌≡◌, refl, true, false, ◌&&◌, not, [], ◌∷◌, ◌++◌, arith, Bool-cases, inl, inr, Str, codes, str_eq,
  has_prefix, contains,
}
use mysqlmonitoring.Db.{Answer, answered}
use mysqlmonitoring.Db.Dsn.{
  DsnConfig, Uri, build_dsn, dsn_params, add_parse_time, parse_dsn, user_or_root, port_or_default,
}
use mysqlmonitoring.Detector.Issues.{show_int}

has_prefix-nil : (s : Str) → has_prefix s [] ≡ true
unfolding has_prefix
has_prefix-nil [] = refl
has_prefix-nil (c ∷ s) = refl

has_prefix-left : (s t sub : Str) → has_prefix s sub ≡ true → has_prefix (s ++ t) sub ≡ true
unfolding has_prefix
has_prefix-left s t [] h = has_prefix-nil (s ++ t)
has_prefix-left [] t (d ∷ sub) h = absurd (ground arith)
has_prefix-left (c ∷ s) t (d ∷ sub) h = ground (arith, has_prefix-left s t sub)

contains-prefix : (s sub : Str) → has_prefix s sub ≡ true → contains s sub ≡ true
unfolding contains
contains-prefix [] sub h = h
contains-prefix (c ∷ s) sub h = rw h refl

-- A part of a part of a text is a part of the text.
contains-left : (s t sub : Str) → contains s sub ≡ true → contains (s ++ t) sub ≡ true
unfolding contains
contains-left [] t sub h = contains-prefix t sub (has_prefix-left [] t sub h)
contains-left (c ∷ s) t sub h = elim (Bool-cases (has_prefix (c ∷ s) sub)) [
  | inl e ↦ contains-prefix (c ∷ s ++ t) sub (has_prefix-left (c ∷ s) t sub e)
  | inr e ↦ let rest = contains-left s t sub (ground arith) in ground arith
]

contains-right : (s t sub : Str) → contains t sub ≡ true → contains (s ++ t) sub ≡ true
unfolding contains
contains-right [] t sub h = h
contains-right (c ∷ s) t sub h = let rest = contains-right s t sub h in ground arith

empty_text : ¬ (contains [] (codes "@tcp(") ≡ true)
unfolding contains has_prefix
empty_text e = ground arith

-- ParseDSN leaves a text as it is that has an address in tcp(), says parseTime, and is no URI.
parse_dsn_complete :
    (parse_uri : Str → Answer Uri) (dsn : Str)
    → contains dsn (codes "@tcp(") ≡ true
    → contains dsn (codes "parseTime") ≡ true
    → has_prefix dsn (codes "mysql://") ≡ false
    → parse_dsn parse_uri dsn ≡ answered dsn
unfolding parse_dsn add_parse_time str_eq
parse_dsn_complete parse_uri [] h k n = absurd (empty_text h)
parse_dsn_complete parse_uri (c ∷ dsn) h k n =
    let bare : (contains (c ∷ dsn) (codes "@") && not (contains (c ∷ dsn) (codes "@tcp(")))
        ≡ false =
      ground arith in
    rw (parse_dsn, n, bare, add_parse_time, k) refl

-- What BuildDSN gives, ParseDSN accepts and leaves as it is, unless it begins as a URI does (which
-- takes the user mysql and a password that begins with two slashes).
pub parse_dsn-build_dsn :
    (parse_uri : Str → Answer Uri) (cfg : DsnConfig)
    → has_prefix (build_dsn cfg) (codes "mysql://") ≡ false
    → parse_dsn parse_uri (build_dsn cfg) ≡ answered (build_dsn cfg)
unfolding build_dsn contains has_prefix
parse_dsn-build_dsn parse_uri cfg n =
    let tcp = codes "@tcp(" in
    let address = contains-right (user_or_root cfg ++ codes ":" ++ cfg.password) tcp tcp refl in
    let hosted =
      contains-left (user_or_root cfg ++ codes ":" ++ cfg.password ++ codes "@tcp(") cfg.host tcp
        address in
    let colon =
      contains-left (user_or_root cfg ++ codes ":" ++ cfg.password ++ codes "@tcp(" ++ cfg.host)
        (codes ":") tcp hosted in
    let ported =
      contains-left
        (user_or_root cfg ++ codes ":" ++ cfg.password ++ codes "@tcp(" ++ cfg.host ++ codes ":")
        (show_int (port_or_default cfg)) tcp colon in
    let closed =
      contains-left
        (user_or_root cfg
          ++ codes ":"
          ++ cfg.password
          ++ codes "@tcp("
          ++ cfg.host
          ++ codes ":"
          ++ show_int (port_or_default cfg))
        (codes ")/") tcp ported in
    let named =
      contains-left
        (user_or_root cfg
          ++ codes ":"
          ++ cfg.password
          ++ codes "@tcp("
          ++ cfg.host
          ++ codes ":"
          ++ show_int (port_or_default cfg)
          ++ codes ")/")
        cfg.database tcp closed in
    parse_dsn_complete parse_uri (build_dsn cfg)
      (contains-left
        (user_or_root cfg
          ++ codes ":"
          ++ cfg.password
          ++ codes "@tcp("
          ++ cfg.host
          ++ codes ":"
          ++ show_int (port_or_default cfg)
          ++ codes ")/"
          ++ cfg.database)
        dsn_params tcp named)
      (contains-right
        (user_or_root cfg
          ++ codes ":"
          ++ cfg.password
          ++ codes "@tcp("
          ++ cfg.host
          ++ codes ":"
          ++ show_int (port_or_default cfg)
          ++ codes ")/"
          ++ cfg.database)
        dsn_params (codes "parseTime") refl)
      n
