-- ===== src/Explain/Safe/Stripped.antt =====
-- safe.go: what stripLeading leaves of a statement.
use mysqlmonitoring.Prelude.{
  ℕ, zero, suc, ◌+◌, ◌≤◌, ◌<◌, ◌≡◌, ◌∙◌, refl, sym, ap, ◌⊎◌, inl, inr, false, some, [], ◌∷◌, ◌++◌,
  append_assoc, length, length-drop, drop, arith, Bool-cases, Option-cases, append-nil, Str, codes,
  has_prefix, is_space, trim_left,
}
use mysqlmonitoring.Explain.Safe.{after, Round, next, return, go_on, round, strip, strip_leading}

-- `r` is what is left of `s` after some first part of it.
abbrev pub IsRest : Str → Str → Type 0
IsRest s r = (front : Str) × (s ≡ front ++ r)

IsRest-trans : (s t r : Str) → IsRest s t → IsRest t r → IsRest s r
IsRest-trans s t r (f, e) (g, h) = (f ++ g, e ∙ ap (λ x. f ++ x) h ∙ sym (append_assoc f g r))

drop-IsRest : (n : ℕ) (s : Str) → IsRest s (drop n s)
drop-IsRest zero s = ([], refl)
drop-IsRest (suc n) [] = ([], refl)
drop-IsRest (suc n) (c ∷ s) = let (f, e) = drop-IsRest n s in (c ∷ f, ap (λ x. c ∷ x) e)

trim_left-IsRest : (s : Str) → IsRest s (trim_left s) × (length (trim_left s) ≤ length s)
unfolding trim_left
trim_left-IsRest [] = (([], refl), omega arith)
trim_left-IsRest (c ∷ s) = elim (Bool-cases (is_space c)) [
  | inl e ↦
      let ((f, p), n) = trim_left-IsRest s in rw e ((c ∷ f, ap (λ x. c ∷ x) p), omega (arith, n))
  | inr e ↦ rw e (([], refl), omega arith)
]

after-IsRest :
    (d : ℕ) (sub s r : Str) → after (d ∷ sub) s ≡ some r → IsRest s r × (length r < length s)
unfolding after
after-IsRest d sub [] r e = cc
after-IsRest d sub (c ∷ s) r e = elim (Bool-cases (has_prefix (c ∷ s) (d ∷ sub))) [
  | inl t ↦
      let same : drop (length sub) s ≡ r = ground arith in
      let (f, p) = drop-IsRest (length sub) s in
      rw (← same) ((c ∷ f, ap (λ x. c ∷ x) p), omega (arith, length-drop (length sub) s))
  | inr t ↦
      let ((f, p), n) = after-IsRest d sub s r (ground arith) in
      ((c ∷ f, ap (λ x. c ∷ x) p), omega (arith, n))
]

-- The text begins with neither a blank nor a comment.
pub record IsBare (s : Str) : Type 0 where
  pub trimmed : trim_left s ≡ s
  pub no_block : has_prefix s (codes "/*") ≡ false
  pub no_line : has_prefix s (codes "--") ≡ false
  pub no_hash : has_prefix s (codes "#") ≡ false

trim_left_twice : (s : Str) → trim_left (trim_left s) ≡ trim_left s
unfolding trim_left
trim_left_twice [] = refl
trim_left_twice (c ∷ s) = ground (arith, trim_left_twice s)

nothing-IsBare : IsBare []
unfolding trim_left has_prefix
nothing-IsBare = record { trimmed = refl; no_block = refl; no_line = refl; no_hash = refl }

-- A round goes on with a shorter rest of the text, or returns a bare rest of it.
abbrev IsRound : Str → Round → Type 0
IsRound sql o =
    ((r : Str) × (o ≡ next r) × IsRest sql r × (length r < length sql))
    ⊎ ((r : Str) × (o ≡ return r) × IsRest sql r × IsBare r)

go_on-IsRound : (sql sub : Str) (d : ℕ) → IsRound sql (go_on (after (d ∷ sub) (trim_left sql)))
unfolding go_on
go_on-IsRound sql sub d =
    let (rest, short) = trim_left-IsRest sql in
    elim (Option-cases (after (d ∷ sub) (trim_left sql))) [
      | inl e ↦ inr ([], rw e refl, (sql, sym (append-nil sql)), nothing-IsBare)
      | inr (r, e) ↦
          let (inside, less) = after-IsRest d sub (trim_left sql) r e in
          inl (
            r,
            rw e refl,
            IsRest-trans sql (trim_left sql) r rest inside,
            omega (arith, short, less),
          )
    ]

round-IsRound : (sql : Str) → IsRound sql (round sql)
unfolding round
round-IsRound sql = elim (Bool-cases (has_prefix (trim_left sql) (codes "/*"))) [
  | inl e ↦ rw (e, round) (go_on-IsRound sql (codes "/") b'*')
  | inr e ↦ elim (Bool-cases (has_prefix (trim_left sql) (codes "--"))) [
    | inl f ↦ rw (e, f, round) (go_on-IsRound sql [] 10)
    | inr f ↦ elim (Bool-cases (has_prefix (trim_left sql) (codes "#"))) [
      | inl g ↦ rw (e, f, g, round) (go_on-IsRound sql [] 10)
      | inr g ↦ inr (
        trim_left sql,
        rw (e, f, g, round) refl,
        (trim_left-IsRest sql).0,
        record { trimmed = trim_left_twice sql; no_block = e; no_line = f; no_hash = g },
      )
    ]
  ]
]

strip-IsRest :
    (fuel : ℕ) (sql : Str)
    → length sql < fuel
    → (r : Str) × (strip fuel sql ≡ some r) × IsRest sql r × IsBare r
unfolding strip
strip-IsRest zero sql h = absurd (omega arith)
strip-IsRest (suc fuel) sql h = elim (round-IsRound sql) [
  | inl (t, e, rest, less) ↦
      let (r, found, inside, bare) = strip-IsRest fuel t (omega arith) in
      (r, rw (e, strip) found, IsRest-trans sql t r rest inside, bare)
  | inr (r, e, rest, bare) ↦ (r, rw (e, strip) refl, rest, bare)
]

-- The loop of stripLeading ends on every text, and it leaves a rest of the text that begins with
-- neither a blank nor the start of a comment.
pub strip_leading-IsRest :
    (sql : Str) → (r : Str) × (strip_leading sql ≡ some r) × IsRest sql r × IsBare r
unfolding strip_leading
strip_leading-IsRest sql = strip-IsRest (length sql + 1) sql (omega arith)
