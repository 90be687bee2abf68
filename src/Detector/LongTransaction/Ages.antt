-- ===== src/Detector/LongTransaction/Ages.antt =====
-- long_transaction.go: which transactions are reported, and how severely.
use mysqlmonitoring.Prelude.{
  ◌≡◌, ◌≢◌, ◌∙◌, ap, refl, ◌↔◌, ◌⊎◌, inl, inr, ◌==◌, ==_iff, true, List, [], ◌∷◌, In, arith,
  Bool-cases, subst,
}
use mysqlmonitoring.Prelude.Int.{ltb_ℤ, ◌≤ℤ◌}
use mysqlmonitoring.Db.{Transaction, Snapshot}
use mysqlmonitoring.Detector.Issues.{Severity, warning, critical, Issue}
use mysqlmonitoring.Detector.LongTransaction.{
  LongTransactionDetector, age, severity_of, issue_of, detect_from, detect,
}

-- The transaction has begun, and is at least as old as the warning threshold.
abbrev pub IsLong : LongTransactionDetector → Snapshot → Transaction → Type 0
IsLong d snapshot trx = (trx.trx_started ≢ 0) × (d.warning_threshold ≤ℤ age snapshot trx)

-- The severity is critical from the critical threshold on, and warning below it.
abbrev pub IsGraded : LongTransactionDetector → Snapshot → Transaction → Severity → Type 0
IsGraded d snapshot trx severity =
    ((severity ≡ critical) × (d.critical_threshold ≤ℤ age snapshot trx))
    ⊎ ((severity ≡ warning) × (ltb_ℤ (age snapshot trx) d.critical_threshold ≡ true))

issue_of-IsGraded :
    (d : LongTransactionDetector) (snapshot : Snapshot) (trx : Transaction)
    → IsGraded d snapshot trx (issue_of d snapshot trx).severity
unfolding issue_of severity_of
issue_of-IsGraded d snapshot trx =
    elim (Bool-cases (ltb_ℤ (age snapshot trx) d.critical_threshold)) [
      | inl e ↦ inr (rw e refl, e)
      | inr e ↦ inl (rw e refl, ground arith)
    ]

abbrev Reported : LongTransactionDetector → Snapshot → List Transaction → Issue → Type 0
Reported d snapshot trxs i =
    (trx : Transaction) × In trx trxs × IsLong d snapshot trx × (i ≡ issue_of d snapshot trx)

-- What one more transaction changes, when it is passed over and when it is reported.
Reported-skip :
    (d : LongTransactionDetector) (snapshot : Snapshot) (trx : Transaction)
    (rest : List Transaction) (i : Issue)
    → (IsLong d snapshot trx → ⊥)
    → Reported d snapshot rest i ↔ Reported d snapshot (trx ∷ rest) i
Reported-skip d snapshot trx rest i short = (
  (λ r. (r.0, inr r.1, r.2, r.3)),
  λ r. elim (r.1) [
    | inl same ↦ absurd (short (subst (IsLong d snapshot) same r.2))
    | inr m ↦ (r.0, m, r.2, r.3)
  ],
)

Reported-keep :
    (d : LongTransactionDetector) (snapshot : Snapshot) (trx : Transaction)
    (rest : List Transaction) (i : Issue)
    → IsLong d snapshot trx
    → ((i ≡ issue_of d snapshot trx) ⊎ Reported d snapshot rest i)
      ↔ Reported d snapshot (trx ∷ rest) i
Reported-keep d snapshot trx rest i long = (
  (λ m. elim m [ inl is ↦ (trx, inl refl, long, is) | inr r ↦ (r.0, inr r.1, r.2, r.3) ]),
  λ r. elim (r.1) [
    | inl same ↦ inl (r.3 ∙ ap (issue_of d snapshot) same)
    | inr m ↦ inr (r.0, m, r.2, r.3)
  ],
)

in-detect_from :
    (d : LongTransactionDetector) (snapshot : Snapshot) (trxs : List Transaction) (i : Issue)
    → In i (detect_from d snapshot trxs) ↔ Reported d snapshot trxs i
unfolding detect_from
in-detect_from d snapshot [] i = ((λ m. absurd m), λ r. absurd (r.1))
in-detect_from d snapshot (trx ∷ rest) i =
    let both = in-detect_from d snapshot rest i in
    let skip = Reported-skip d snapshot trx rest i in
    let keep = Reported-keep d snapshot trx rest i in
    elim (Bool-cases (trx.trx_started == 0)) [
      | inl e ↦
          let short = skip (λ l. l.0 ((==_iff trx.trx_started 0).0 e)) in
          rw e ((λ m. short.0 (both.0 m)), λ r. both.1 (short.1 r))
      | inr e ↦ elim (Bool-cases (ltb_ℤ (age snapshot trx) d.warning_threshold)) [
        | inl f ↦
            let short = skip (λ l. ground (arith, l.1)) in
            rw (e, f) ((λ m. short.0 (both.0 m)), λ r. both.1 (short.1 r))
        | inr f ↦
            let long = keep ((λ z. ground arith), ground arith) in
            rw (e, f)
              (
                (λ m. long.0 (elim m [ inl is ↦ inl is | inr t ↦ inr (both.0 t) ])),
                λ r. elim (long.1 r) [ inl is ↦ inl is | inr t ↦ inr (both.1 t) ],
              )
      ]
    ]

-- Detect reports an issue exactly if it is that of some transaction of the snapshot that has begun
-- and is at least as old as the warning threshold; its severity is critical if that transaction is
-- at least as old as the critical threshold, and warning otherwise.
pub in-detect :
    (d : LongTransactionDetector) (snapshot : Snapshot) (i : Issue)
    → In i (detect d snapshot) ↔ (
        (trx : Transaction) × In trx snapshot.transactions
        × IsLong d snapshot trx
        × (i ≡ issue_of d snapshot trx)
        × IsGraded d snapshot trx i.severity)
unfolding detect
in-detect d snapshot i =
    let both = in-detect_from d snapshot snapshot.transactions i in
    (
      (λ m.
          let (trx, inside, long, is) = both.0 m in
          (trx, inside, long, is, rw is (issue_of-IsGraded d snapshot trx))),
      λ r. both.1 (r.0, r.1, r.2, r.3),
    )
