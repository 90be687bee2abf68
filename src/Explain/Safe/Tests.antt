-- ===== src/Explain/Safe/Tests.antt =====
-- Runs of SafeVerb.
use mysqlmonitoring.Prelude.{
  ◌≡◌, refl, true, false, some, [], Str, codes, str_eq, has_prefix, trim_left, is_space,
}
use mysqlmonitoring.Explain.Safe.{
  after, go_on, round, strip, strip_leading, first_word, is_letter, safe_verb, verb_for,
}
use mysqlmonitoring.Explain.Safe.Stripped.{IsRest, IsBare, strip_leading-IsRest}

safe_verb_test :
    (safe_verb (codes " /* a */ -- b") ≡ some false)
    × (safe_verb (codes "/* a */ select 1") ≡ some true)
    × (verb_for (codes "# x") ≡ some [])
unfolding safe_verb verb_for strip_leading strip round go_on after first_word is_letter str_eq
    has_prefix trim_left is_space
safe_verb_test = (refl, refl, refl)

-- The two bytes after the slash are taken for the end of the comment as well, so that the verb of this
-- DELETE, which stands behind one comment, is SELECT.
overlapped : safe_verb (codes "/*/ SELECT */ DELETE FROM t") ≡ some true
unfolding safe_verb strip_leading strip round go_on after first_word is_letter str_eq has_prefix
    trim_left is_space
overlapped = refl

strip_leading-IsRest_example :
    (r : Str) × (strip_leading (codes "/* a */ SELECT 1") ≡ some r)
    × IsRest (codes "/* a */ SELECT 1") r
    × IsBare r
strip_leading-IsRest_example = strip_leading-IsRest (codes "/* a */ SELECT 1")
