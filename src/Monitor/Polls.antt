-- ===== src/Monitor/Polls.antt =====
-- monitor.go: what a poll returns, and the highest severity in it.
use mysqlmonitoring.Prelude.{
  ℕ, ◌≡◌, ◌≢◌, ◌≤◌, ◌∙◌, refl, sym, ap, ◌⊎◌, inl, inr, Option, none, some, List, [], ◌∷◌, ◌++◌, In,
  All, ltb, if◌then◌else◌, arith, Bool-cases, Str, codes,
}
use mysqlmonitoring.Db.{Answer, answered, failed, Snapshot}
use mysqlmonitoring.Detector.Issues.{Severity, info, severity_rank, Issue}
use mysqlmonitoring.Detector.LockGraph.{LockGraph, build_lock_graph}
use mysqlmonitoring.Detector.LockGraph.Cycles.{IsKeyOrder}
use mysqlmonitoring.Detector.LongTransaction
use mysqlmonitoring.Detector.DdlConflict
use mysqlmonitoring.Detector.Deadlock
use mysqlmonitoring.Detector.LockIssues
use mysqlmonitoring.Detector.LockIssues.Reports.{detect_sound}
use mysqlmonitoring.Monitor.{
  Result, Monitor, Answers, max_from, max_severity, blank_snapshot, or_none, run_detectors, give_up,
  with_processes, with_lock_waits, with_transactions, with_server_info, take_snapshot,
}

higher_le :
    (a b : Severity)
    → (severity_rank a ≤ severity_rank (if ltb (severity_rank a) (severity_rank b) then b else a))
      × (severity_rank b ≤ severity_rank (if ltb (severity_rank a) (severity_rank b) then b else a))
higher_le a b = ground arith

max_from-le :
    (max : Severity) (is : List Issue)
    → (severity_rank max ≤ severity_rank (max_from max is))
      × All (λ i. severity_rank i.severity ≤ severity_rank (max_from max is)) is
unfolding max_from
max_from-le max [] = (omega arith, tt)
max_from-le max (i ∷ is) =
    let step = higher_le max i.severity in
    let rest =
      max_from-le (if ltb (severity_rank max) (severity_rank i.severity) then i.severity else max)
        is in
    (omega (arith, step.0, rest.0), (omega (arith, step.1, rest.0), rest.1))

max_from-reached :
    (max : Severity) (is : List Issue)
    → (max_from max is ≡ max) ⊎ ((i : Issue) × In i is × (i.severity ≡ max_from max is))
unfolding max_from
max_from-reached max [] = inl refl
max_from-reached max (i ∷ is) =
    elim (Bool-cases (ltb (severity_rank max) (severity_rank i.severity))) [
      | inl e ↦ rw e (elim (max_from-reached i.severity is) [
        | inl same ↦ inr (i, inl refl, sym same)
        | inr r ↦ inr (r.0, inr r.1, r.2)
      ])
      | inr e ↦
          rw e (elim (max_from-reached max is) [
            | inl same ↦ inl same
            | inr r ↦ inr (r.0, inr r.1, r.2)
          ])
    ]

-- MaxSeverity is at least the severity of every issue, and it is INFO or the severity of some issue.
pub max_severity_lem :
    (r : Result)
    → All (λ i. severity_rank i.severity ≤ severity_rank (max_severity r)) r.issues
      × ((max_severity r ≡ info) ⊎ ((i : Issue) × In i r.issues × (i.severity ≡ max_severity r)))
unfolding max_severity
max_severity_lem r = ((max_from-le info r.issues).1, max_from-reached info r.issues)

-- One of the four calls that Snapshot needs has failed.
abbrev pub IsFailed : Answers → Type 0
IsFailed a =
    ((e : Str) × (a.server_info ≡ failed e))
    ⊎ (((e : Str) × (a.transactions ≡ failed e))
        ⊎ (((e : Str) × (a.lock_waits ≡ failed e)) ⊎ ((e : Str) × (a.processes ≡ failed e))))

-- The four calls have answered, and the snapshot holds their answers and the time.
abbrev pub IsTaken : Answers → ℕ → Snapshot → Type 0
IsTaken a now s =
    (s.time ≡ now)
    × (a.server_info ≡ answered s.server_info)
    × (a.transactions ≡ answered s.transactions)
    × (a.lock_waits ≡ answered s.lock_waits)
    × (a.processes ≡ answered s.processes)
    × (s.metadata_locks ≡ or_none a.metadata_locks)
    × (s.innodb_status ≡ a.innodb_status)

-- What the detectors say of the snapshot, one after the other.
abbrev pub IsExamined : (LockGraph → List ℕ × List ℕ) → Monitor → Monitor → Result → Type 0
IsExamined order m m' r =
    (locks : List Issue) × (LockIssues.detect m.lock_chain
        (order (build_lock_graph (r.snapshot).lock_waits)).0
        (order (build_lock_graph (r.snapshot).lock_waits)).1 r.snapshot
      ≡ some locks)
    × (r.issues
        ≡ LongTransaction.detect m.long_transaction r.snapshot
          ++ locks
          ++ DdlConflict.detect m.ddl_conflict r.snapshot
          ++ (Deadlock.detect m.deadlock r.snapshot).0)
    × (m' ≡ record m { deadlock = (Deadlock.detect m.deadlock r.snapshot).1 })

-- The keys of a graph, as FindChains and as FindCycles meet them.
abbrev pub AreKeyOrders : List ℕ × List ℕ → LockGraph → Type 0
AreKeyOrders keys g = IsKeyOrder keys.0 g × IsKeyOrder keys.1 g

abbrev pub IsOutcome :
    (LockGraph → List ℕ × List ℕ) → Monitor → Answers → ℕ → Option (Monitor × Result) → Type 0
IsOutcome order m a now o =
    (m' : Monitor) × (r : Result) × (o ≡ some (m', r))
    × ((IsFailed a × (r.error ≢ none) × (r.issues ≡ []) × (m' ≡ m))
        ⊎ ((r.error ≡ none) × IsTaken a now r.snapshot × IsExamined order m m' r))

Answer-cases :
    {A : Type 0} (a : Answer A) → ((x : A) × (a ≡ answered x)) ⊎ ((e : Str) × (a ≡ failed e))
Answer-cases (answered x) = inl (x, refl)
Answer-cases (failed e) = inr (e, refl)

give_up-IsOutcome :
    (order : LockGraph → List ℕ × List ℕ) (m : Monitor) (a : Answers) (now : ℕ) (s : Snapshot)
    (call e : Str)
    → IsFailed a
    → {o : Option (Monitor × Result)} → o ≡ give_up m s call e
    → IsOutcome order m a now o
unfolding give_up
give_up-IsOutcome order m a now s call e why p = (m, _, p, inl (why, (λ q. cc), refl, refl))

run_detectors_lem :
    (order : LockGraph → List ℕ × List ℕ) (m : Monitor) (s : Snapshot) (locks : List Issue)
    → LockIssues.detect m.lock_chain
        (order (build_lock_graph s.lock_waits)).0
        (order (build_lock_graph s.lock_waits)).1
        s
      ≡ some locks
    → run_detectors order m s
      ≡ some (
        record m { deadlock = (Deadlock.detect m.deadlock s).1 },
        record {
          snapshot = s;
          issues =
              LongTransaction.detect m.long_transaction s
              ++ locks
              ++ DdlConflict.detect m.ddl_conflict s
              ++ (Deadlock.detect m.deadlock s).0;
          error = none;
        },
      )
unfolding run_detectors
run_detectors_lem order m s locks e = rw (e, run_detectors) refl

run_detectors-IsOutcome :
    (order : LockGraph → List ℕ × List ℕ) (m : Monitor) (a : Answers) (now : ℕ) (s : Snapshot)
    → ((g : LockGraph) → AreKeyOrders (order g) g)
    → IsTaken a now s
    → {o : Option (Monitor × Result)} → o ≡ run_detectors order m s
    → IsOutcome order m a now o
run_detectors-IsOutcome order m a now s keys taken p =
    let k = order (build_lock_graph s.lock_waits) in
    let (locks, e, _) = detect_sound m.lock_chain k.0 k.1 s (keys _).0 in
    (_, _, p ∙ run_detectors_lem order m s locks e, inr (refl, taken, (locks, e, refl, refl)))

-- When FindChains and FindCycles each meet the keys of the lock graph in some order, which need not
-- be the same, Snapshot returns. Either one of
-- the four calls that it needs has failed, and it returns an error and no issue and leaves the
-- detectors as they were; or all have answered, the snapshot holds the answers, and the issues are
-- those of the four detectors one after the other, of which only the last has changed.
pub take_snapshot-IsOutcome :
    (order : LockGraph → List ℕ × List ℕ) (m : Monitor) (a : Answers) (now : ℕ)
    → ((g : LockGraph) → AreKeyOrders (order g) g)
    → IsOutcome order m a now (take_snapshot order m a now)
unfolding take_snapshot with_server_info with_transactions with_lock_waits with_processes
take_snapshot-IsOutcome order m a now keys = elim (Answer-cases a.server_info) [
  | inr (t, e) ↦
      give_up-IsOutcome order m a now _ (codes "server info") t (inl (t, e))
        (ap (with_server_info order m a (blank_snapshot now)) e)
  | inl (i, e1) ↦
      let s1 = record (blank_snapshot now) { server_info = i } in
      let p1 = ap (with_server_info order m a (blank_snapshot now)) e1 in
      elim (Answer-cases a.transactions) [
        | inr (t, e) ↦
            give_up-IsOutcome order m a now _ (codes "transactions") t (inr (inl (t, e)))
              (p1 ∙ ap (with_transactions order m a s1) e)
        | inl (ts, e2) ↦
            let s2 = record s1 { transactions = ts } in
            let p2 = p1 ∙ ap (with_transactions order m a s1) e2 in
            elim (Answer-cases a.lock_waits) [
              | inr (t, e) ↦
                  give_up-IsOutcome order m a now _ (codes "lock waits") t (inr (inr (inl (t, e))))
                    (p2 ∙ ap (with_lock_waits order m a s2) e)
              | inl (ws, e3) ↦
                  let s3 = record s2 { lock_waits = ws } in
                  let p3 = p2 ∙ ap (with_lock_waits order m a s2) e3 in
                  elim (Answer-cases a.processes) [
                    | inr (t, e) ↦
                        give_up-IsOutcome order m a now _ (codes "processes") t
                          (inr (inr (inr (t, e)))) (p3 ∙ ap (with_processes order m a s3) e)
                    | inl (ps, e4) ↦
                        run_detectors-IsOutcome order m a now _ keys
                          (refl, e1, e2, e3, e4, refl, refl)
                          (p3 ∙ ap (with_processes order m a s3) e4)
                  ]
            ]
      ]
]
