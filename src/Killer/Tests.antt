-- ===== src/Killer/Tests.antt =====
-- Runs of Kill.
use mysqlmonitoring.Prelude.{ℕ, ◌≡◌, ◌↔◌, refl, [], ◌∷◌, Str, codes, str_eq, contains, has_prefix}
use mysqlmonitoring.Prelude.Int.{pos}
use mysqlmonitoring.Db.{Process, answered}
use mysqlmonitoring.Killer.{
  Database, issued, refused, replication_thread, system_user, own_connection, kill, check_self,
  search, finish, target, check_safety,
}
use mysqlmonitoring.Killer.Safety.{IsAllowed, kill-issued}

abbrev process : ℕ → Str → Str → Process
process id user command = record {
  id = id;
  user = user;
  host = [];
  db = [];
  command = command;
  time = pos 3;
  state = codes "Sending data";
  info = [];
}

abbrev database : Database
database = record {
  connection_id = answered 9;
  processes = answered (
      process 4 (codes "app") (codes "Query")
      ∷ process 5 (codes "repl") (codes "Binlog Dump")
      ∷ process 6 (codes "System User") (codes "Daemon")
      ∷ []);
}

kill_test :
    (kill database 4 ≡ issued 4)
    × (kill database 5 ≡ refused replication_thread)
    × (kill database 6 ≡ refused (system_user (codes "System User")))
    × (kill database 9 ≡ refused own_connection)
unfolding kill check_self search finish target check_safety str_eq contains has_prefix
kill_test = (refl, refl, refl, refl)

kill-issued_example : (kill database 4 ≡ issued 4) ↔ IsAllowed database 4
kill-issued_example = kill-issued database 4
