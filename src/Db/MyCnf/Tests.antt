-- ===== src/Db/MyCnf/Tests.antt =====
-- mycnf.go: an option file with two sections, and one whose section is not closed.
use mysqlmonitoring.Prelude.{
  ℕ, ◌≡◌, refl, true, false, Option, none, some, List, [], ◌∷◌, ◌==◌, ◌&&◌, if◌then◌else◌, Str,
  codes, str_eq, trim_space,
}
use mysqlmonitoring.Prelude.Int.{ℤ}
use mysqlmonitoring.Db.MyCnf.{
  CnfFile, contents, read_my_cnf, read_lines, read_line, empty_config, cut,
}
use mysqlmonitoring.Db.MyCnf.Sections.{read_lines-panics}

-- What strconv.Atoi is here.
abbrev no_numbers : Str → Option ℤ
no_numbers s = none

abbrev two_sections : List Str
two_sections =
    codes "[mysqld]"
    ∷ codes "user = mysql"
    ∷ codes " [Client] "
    ∷ codes "user = \"app\""
    ∷ codes "port = x"
    ∷ []

two_sections_lem :
    read_my_cnf no_numbers (contents two_sections none)
    ≡ some (record empty_config { user = codes "app" }, none)
unfolding read_my_cnf read_lines read_line trim_space mysqlmonitoring.Prelude.trim_right
    mysqlmonitoring.Prelude.trim_left mysqlmonitoring.Prelude.is_space str_eq
    mysqlmonitoring.Db.MyCnf.parse_ini_line mysqlmonitoring.Db.MyCnf.set_option
    mysqlmonitoring.Db.MyCnf.strip_quotes mysqlmonitoring.Db.MyCnf.ends_with
    mysqlmonitoring.Db.MyCnf.drop_last
two_sections_lem = refl

abbrev unclosed : List Str
unclosed = codes "[client" ∷ []

read_lines-panics_example : read_lines no_numbers unclosed (false, empty_config) ≡ none
unfolding trim_space mysqlmonitoring.Prelude.trim_right mysqlmonitoring.Prelude.trim_left
    mysqlmonitoring.Prelude.is_space str_eq
read_lines-panics_example = (read_lines-panics no_numbers unclosed (false, empty_config)).1 refl
