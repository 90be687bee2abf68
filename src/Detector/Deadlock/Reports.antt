-- ===== src/Detector/Deadlock/Reports.antt =====
-- deadlock.go: when a deadlock is reported again.
use mysqlmonitoring.Prelude.{
  ◌≡◌, ◌≢◌, ◌∙◌, refl, sym, ap, ◌↔◌, inl, inr, ◌==◌, ==_iff, Bool, true, some, List, [], ◌∷◌, In,
  any_of, if◌then◌else◌, arith, Bool-cases, str_eq_iff,
}
use mysqlmonitoring.Db.{Process, DeadlockTransaction, DeadlockInfo, Snapshot}
use mysqlmonitoring.Detector.Deadlock.{DeadlockDetector, any_alive, issue_of, report, detect}

any_of_iff :
    {A : Type 0} (p : A → Bool) (xs : List A)
    → any_of p xs ≡ true ↔ ((x : A) × In x xs × (p x ≡ true))
any_of_iff p [] = ((λ e. cc), λ r. absurd (r.1))
any_of_iff p (x ∷ xs) = elim (Bool-cases (p x)) [
  | inl e ↦ rw e ((λ _. (x, inl refl, e)), λ r. refl)
  | inr e ↦
      let rest = any_of_iff p xs in
      rw e (
        (λ h. let (y, m, t) = rest.0 h in (y, inr m, t)),
        λ r. elim (r.1) [ inl same ↦ cc (e, same, r.2) | inr m ↦ rest.1 (r.0, m, r.2) ],
      )
]

-- A participant of the deadlock is in the process list.
abbrev pub IsAlive : Snapshot → DeadlockInfo → Type 0
IsAlive snapshot dl =
    (trx : DeadlockTransaction) × (p : Process) × In trx dl.transactions
    × In p snapshot.processes
    × (p.id ≡ trx.thread_id)

any_alive-IsAlive :
    (snapshot : Snapshot) (dl : DeadlockInfo)
    → any_alive snapshot.processes dl.transactions ≡ true ↔ IsAlive snapshot dl
unfolding any_alive
any_alive-IsAlive snapshot dl =
    let outer =
      any_of_iff (λ trx. any_of (λ p. p.id == trx.thread_id) snapshot.processes) dl.transactions in
    (
      (λ e.
          let (trx, m, t) = outer.0 e in
          let (p, n, s) = (any_of_iff (λ p. p.id == trx.thread_id) snapshot.processes).0 t in
          (trx, p, m, n, (==_iff p.id trx.thread_id).0 s)),
      λ a. outer.1 (
        a.0,
        a.2,
        (any_of_iff (λ p. p.id == (a.0).thread_id) snapshot.processes).1
            (a.1, a.3, (==_iff _ _).1 (a.4)),
      ),
    )

-- Whatever was reported before, the detector then holds the timestamp of the deadlock it has seen.
report-seen :
    (d : DeadlockDetector) (s : Snapshot) (dl : DeadlockInfo)
    → (report d s (some dl)).1.last_seen_timestamp ≡ dl.timestamp
unfolding report
report-seen d s dl = ground (arith, str_eq_iff dl.timestamp d.last_seen_timestamp)

report-same :
    (d : DeadlockDetector) (s : Snapshot) (dl : DeadlockInfo)
    → dl.timestamp ≡ d.last_seen_timestamp
    → (report d s (some dl)).0
      ≡ (if any_alive s.processes dl.transactions then issue_of s dl ∷ [] else [])
unfolding report
report-same d s dl e = ground (arith, str_eq_iff dl.timestamp d.last_seen_timestamp)

report-other :
    (d : DeadlockDetector) (s : Snapshot) (dl : DeadlockInfo)
    → dl.timestamp ≢ d.last_seen_timestamp
    → report d s (some dl) ≡ (issue_of s dl ∷ [], record { last_seen_timestamp = dl.timestamp })
unfolding report
report-other d s dl n = ground (arith, str_eq_iff dl.timestamp d.last_seen_timestamp)

detect_twice :
    (d : DeadlockDetector) (s s' : Snapshot) (dl dl' : DeadlockInfo)
    → s.innodb_status.latest_deadlock ≡ some dl
    → s'.innodb_status.latest_deadlock ≡ some dl'
    → detect (detect d s).1 s' ≡ report (report d s (some dl)).1 s' (some dl')
unfolding detect
detect_twice d s s' dl dl' e e' =
    ap (report (detect d s).1 s') e' ∙ ap (λ o. report (report d s o).1 s' (some dl')) e

-- When a snapshot shows a deadlock, and the next one a deadlock with the same timestamp, then the
-- second is reported if and only if one of its participants is still in the process list.
pub detect-again :
    (d : DeadlockDetector) (s s' : Snapshot) (dl dl' : DeadlockInfo)
    → s.innodb_status.latest_deadlock ≡ some dl
    → s'.innodb_status.latest_deadlock ≡ some dl'
    → dl'.timestamp ≡ dl.timestamp
    → (In (issue_of s' dl') (detect (detect d s).1 s').0) ↔ IsAlive s' dl'
detect-again d s s' dl dl' e e' same =
    let d' = (report d s (some dl)).1 in
    let shown = report-same d' s' dl' (same ∙ sym (report-seen d s dl)) in
    rw (detect_twice d s s' dl dl' e e', shown)
      (elim (Bool-cases (any_alive s'.processes dl'.transactions)) [
        | inl t ↦ rw t ((λ _. (any_alive-IsAlive s' dl').0 t), λ _. inl refl)
        | inr f ↦ rw f ((λ m. absurd m), λ a. cc (f, (any_alive-IsAlive s' dl').1 a))
      ])

-- When a snapshot shows a deadlock, and the next one a deadlock with another timestamp, then the
-- second is reported, and its timestamp is the one that the detector then holds.
pub detect-next :
    (d : DeadlockDetector) (s s' : Snapshot) (dl dl' : DeadlockInfo)
    → s.innodb_status.latest_deadlock ≡ some dl
    → s'.innodb_status.latest_deadlock ≡ some dl'
    → dl'.timestamp ≢ dl.timestamp
    → detect (detect d s).1 s'
      ≡ (issue_of s' dl' ∷ [], record { last_seen_timestamp = dl'.timestamp })
detect-next d s s' dl dl' e e' other =
    detect_twice d s s' dl dl' e e'
    ∙ report-other (report d s (some dl)).1 s' dl' (λ q. other (q ∙ report-seen d s dl))
