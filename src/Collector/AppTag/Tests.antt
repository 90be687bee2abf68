-- ===== src/Collector/AppTag/Tests.antt =====
-- Runs of the parser of application tags, with an unescape that leaves a text as it is.
use mysqlmonitoring.Prelude.{
  ◌≡◌, ◌↔◌, refl, true, Option, none, some, Str, str_eq, [], ◌∷◌, codes, has_prefix, trim_space,
  trim_right, trim_left, is_space,
}
use mysqlmonitoring.Detector.Issues.{join}
use mysqlmonitoring.Collector.AppTag.{
  CurrentStmt, get_pair, split_pairs, split_kv, parse_comment, index, slice, service_of, parse_body,
  add_pairs, split_from, add_pair, decode, set_pair, unescape_quotes, unquote, comma, trim_blank,
  parse_sql_comment, resolve_app_tag,
}
use mysqlmonitoring.Collector.AppTag.Pairs.{join-split_pairs}
use mysqlmonitoring.Collector.AppTag.Tags.{parse_sql_comment-panics}

abbrev as_is : Str → Option Str
as_is s = some s

abbrev statement : Str → CurrentStmt
statement sql = record {
  processlist_id = 7;
  schema = [];
  digest = [];
  sql_text = sql;
  executing = true;
  current_wait = [];
  program_name = codes "cron";
  user = [];
  host = [];
}

quoted_comma :
    resolve_app_tag as_is (statement (codes " /*route='a,b', service='web'*/ SELECT 1"))
    ≡ some (codes "web")
unfolding resolve_app_tag parse_sql_comment str_eq has_prefix trim_blank parse_comment index slice
    service_of get_pair parse_body add_pairs split_pairs split_from add_pair split_kv trim_space
    trim_right trim_left decode set_pair unescape_quotes unquote is_space
quoted_comma = refl

join-split_pairs_example :
    join (comma ∷ []) (split_pairs (codes "a='x,y',b=1")) ≡ codes "a='x,y',b=1"
join-split_pairs_example = join-split_pairs (codes "a='x,y',b=1")

parse_sql_comment-panics_example :
    (parse_sql_comment as_is (codes " /*/ SELECT 1") ≡ none)
    ↔ (has_prefix (trim_blank (codes " /*/ SELECT 1")) (codes "/*/") ≡ true)
parse_sql_comment-panics_example = parse_sql_comment-panics as_is (codes " /*/ SELECT 1")
