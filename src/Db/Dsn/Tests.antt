-- ===== src/Db/Dsn/Tests.antt =====
-- dsn.go: a configuration, and what ParseDSN makes of the text of it.
use mysqlmonitoring.Prelude.{
  ℕ, ◌≡◌, refl, true, false, List, [], ◌∷◌, ◌++◌, Str, codes, has_prefix, contains, if◌then◌else◌,
}
use mysqlmonitoring.Prelude.Int.{pos}
use mysqlmonitoring.Db.{Answer, answered, failed}
use mysqlmonitoring.Db.Dsn.{DsnConfig, Uri, build_dsn, parse_dsn, user_or_root, port_or_default}
use mysqlmonitoring.Db.Dsn.Built.{parse_dsn-build_dsn}

abbrev local : DsnConfig
local = record {
  host = codes "db1";
  port = pos 0;
  user = [];
  password = codes "pw";
  database = codes "shop";
}

abbrev no_uris : Str → Answer Uri
no_uris s = failed (codes "not a URI")

simple_dsn :
    parse_dsn no_uris (codes "app:pw@db1:3307/shop?timeout=1s")
    ≡ answered (codes "app:pw@tcp(db1:3307)/shop?timeout=1s&parseTime=true")
unfolding parse_dsn mysqlmonitoring.Prelude.str_eq has_prefix mysqlmonitoring.Db.Dsn.add_parse_time
    contains mysqlmonitoring.Db.Dsn.convert_simple_dsn mysqlmonitoring.Db.Dsn.split_last_at
    mysqlmonitoring.Db.Dsn.wrap_host mysqlmonitoring.Db.Dsn.split_at_byte
simple_dsn = refl

parse_dsn-build_dsn_example : parse_dsn no_uris (build_dsn local) ≡ answered (build_dsn local)
unfolding build_dsn has_prefix mysqlmonitoring.Prelude.str_eq
parse_dsn-build_dsn_example = parse_dsn-build_dsn no_uris local refl
