-- ===== src/Killer/Safety.antt =====
-- killer.go: when Kill issues a KILL, and what it refuses.
use mysqlmonitoring.Prelude.{
  ℕ, ◌≡◌, ◌≢◌, refl, ◌↔◌, false, ◌==◌, Option, none, some, List, [], ◌∷◌, In, any_of, arith,
  Bool-cases, Option-cases, inl, inr, str_eq, contains, to_lower,
}
use mysqlmonitoring.Db.{Process, Answer, answered, failed}
use mysqlmonitoring.Killer.{
  Database, system_users, replication_commands, replication_states, check_safety, target, finish,
  search, check_self, kill, issued,
}

-- A process that Kill may end: an ordinary user, no replication command, no replication state.
pub record IsOrdinary (p : Process) : Type 0 where
  pub user : any_of (λ su. str_eq (to_lower p.user) su) system_users ≡ false
  pub command : any_of (λ cmd. str_eq p.command cmd) replication_commands ≡ false
  pub state : any_of (λ state. contains p.state state) replication_states ≡ false

check_safety-IsOrdinary : (p : Process) → (check_safety p ≡ none) ↔ IsOrdinary p
unfolding check_safety
check_safety-IsOrdinary p = (
  λ h. record { user = ground arith; command = ground arith; state = ground arith },
  λ o. rw (o.user, o.command, o.state),
)

target-In :
    (id : ℕ) (ps : List Process) (p : Process) → target id ps ≡ some p → In p ps × (p.id ≡ id)
unfolding target
target-In id [] p h = cc
target-In id (q ∷ ps) p h = elim (Bool-cases (q.id == id)) [
  | inl e ↦ let f : p ≡ q = ground arith in (inl f, rw f (ground arith))
  | inr e ↦ let r = target-In id ps p (ground arith) in (inr r.0, r.1)
]

-- The answers under which a KILL of the connection is due: the id is not the own one, the process
-- list has a process with it, and the first such process is ordinary.
pub record IsAllowed (d : Database) (id : ℕ) : Type 0 where
  pub self : ℕ
  pub list : List Process
  pub process : Process
  pub own : d.connection_id ≡ answered self
  pub other : id ≢ self
  pub listed : d.processes ≡ answered list
  pub first : target id list ≡ some process
  pub ordinary : IsOrdinary process

finish-issued :
    (id : ℕ) (o : Option Process)
    → finish id o ≡ issued id
    → (p : Process) × (o ≡ some p) × IsOrdinary p
unfolding finish
finish-issued id none h = cc
finish-issued id (some p) h = elim (Option-cases (check_safety p)) [
  | inl e ↦ (p, refl, (check_safety-IsOrdinary p).0 e)
  | inr (x, e) ↦ absurd (ground arith)
]

kill-IsAllowed : (d : Database) (id : ℕ) → kill d id ≡ issued id → IsAllowed d id
unfolding kill check_self search
kill-IsAllowed d id h = go d.connection_id refl h
  where
    seek :
        (self : ℕ) (a : Answer (List Process))
        → d.connection_id ≡ answered self
        → (id == self) ≡ false
        → d.processes ≡ a
        → search id a ≡ issued id
        → IsAllowed d id
    seek self (failed t) own other listed h = cc
    seek self (answered ps) own other listed h =
        let (p, first, ordinary) = finish-issued id (target id ps) h in
        record {
          self = self;
          list = ps;
          process = p;
          own = own;
          other = ground arith;
          listed = listed;
          first = first;
          ordinary = ordinary;
        }

    go : (a : Answer ℕ) → d.connection_id ≡ a → check_self id d a ≡ issued id → IsAllowed d id
    go (failed t) own h = cc
    go (answered self) own h = elim (Bool-cases (id == self)) [
      | inl e ↦ absurd (ground arith)
      | inr e ↦ seek self d.processes own e refl (ground arith)
    ]

-- Kill hands the id to KillConnection if and only if the own connection id and the process list
-- were read, the id is not the own one, and the first process of the list with the id exists and
-- passes every safety check.
pub kill-issued : (d : Database) (id : ℕ) → (kill d id ≡ issued id) ↔ IsAllowed d id
unfolding kill check_self search finish
kill-issued d id = (
  kill-IsAllowed d id,
  λ a.
      let safe = (check_safety-IsOrdinary a.process).1 a.ordinary in
      let apart : (id == a.self) ≡ false = let n = a.other in ground arith in
      rw (a.own, apart, a.listed, a.first, finish, safe) refl,
)
