-- ===== src/Collector/AppTag/Pairs.antt =====
-- apptag.go: the pairs of a comment's body.
use mysqlmonitoring.Prelude.{
  ℕ, ◌≡◌, ◌∙◌, ap, sym, In, ==_iff, ◌&&◌, refl, Bool, false, not, none, some, List, [], ◌∷◌, ◌++◌,
  arith, Str, Bool-cases, ◌==◌, append_assoc, append-nil, ◌⊎◌, inl, inr,
}
use mysqlmonitoring.Detector.Issues.{join}
use mysqlmonitoring.Collector.AppTag.{
  split_from, split_pairs, split_kv, comma, quote, backslash, equals,
}

join_step :
    (b : ℕ) (s : Str) (ts : List Str)
    → ¬ (ts ≡ [])
    → join (b ∷ []) (s ∷ ts) ≡ s ++ b ∷ join (b ∷ []) ts
unfolding join
join_step b s [] h = absurd (h refl)
join_step b s (t ∷ ts) h = append_assoc s (b ∷ []) (join (b ∷ []) (t ∷ ts))

split_from-some :
    (escaped in_quotes : Bool) (cur s : Str) → ¬ (split_from escaped in_quotes cur s ≡ [])
unfolding split_from
split_from-some escaped in_quotes cur [] = λ e. ground arith
split_from-some escaped in_quotes cur (c ∷ s) =
    let toggled = split_from-some (c == backslash) (not in_quotes) (cur ++ c ∷ []) s in
    let rest = split_from-some (c == backslash) in_quotes (cur ++ c ∷ []) s in λ e. ground arith

join-split_from :
    (escaped in_quotes : Bool) (cur s : Str)
    → join (comma ∷ []) (split_from escaped in_quotes cur s) ≡ cur ++ s
unfolding split_from join
join-split_from escaped in_quotes cur [] = sym (append-nil cur)
join-split_from escaped in_quotes cur (c ∷ s) =
    let toggled = join-split_from (c == backslash) (not in_quotes) (cur ++ c ∷ []) s in
    let rest = join-split_from (c == backslash) in_quotes (cur ++ c ∷ []) s in
    let next = join-split_from (c == backslash) in_quotes [] s in
    let piece = split_from-some (c == backslash) in_quotes [] s in
    let first : join (comma ∷ []) (cur ∷ split_from (c == backslash) in_quotes [] s)
        ≡ cur ++ comma ∷ join (comma ∷ []) (split_from (c == backslash) in_quotes [] s) =
      join_step comma cur (split_from (c == backslash) in_quotes [] s) piece in
    let whole : (cur ++ c ∷ []) ++ s ≡ cur ++ c ∷ s = append_assoc cur (c ∷ []) s in
    let is_comma = ==_iff c comma in
    elim (Bool-cases (c == quote && not escaped)) [
      | inl e ↦ rw e (toggled ∙ whole)
      | inr e ↦ elim (Bool-cases (c == comma && not in_quotes)) [
        | inl f ↦
            let same : c ≡ comma = ground arith in
            let shut : cur ++ comma ∷ join (comma ∷ []) (split_from (c == backslash) in_quotes [] s)
                ≡ cur ++ c ∷ s =
              ap (λ t. cur ++ comma ∷ t) next ∙ ap (λ d. cur ++ d ∷ s) (sym same) in
            rw (e, f) (first ∙ shut)
        | inr f ↦ rw (e, f) (rest ∙ whole)
      ]
    ]

-- The pieces that splitPairs cuts the body of a comment into, put together with commas, are the
-- body again: nothing is lost at a cut, whatever the quotes.
pub join-split_pairs : (body : Str) → join (comma ∷ []) (split_pairs body) ≡ body
unfolding split_pairs
join-split_pairs body = join-split_from false false [] body

-- Not one of the bytes of a text is `b`.
pub Free : ℕ → Str → Type 0
Free b s = ¬ (In b s)

Free-step : (c : ℕ) (s : Str) → ¬ (c ≡ equals) → Free equals s → Free equals (c ∷ s)
unfolding Free
Free-step c s h k (inl e) = h (sym e)
Free-step c s h k (inr m) = k m

-- splitKV gives none exactly for a pair without an equals sign; the key and the value it gives are
-- what stands before and behind the first one.
pub split_kv-IsFirst :
    (pair : Str)
    → ((split_kv pair ≡ none) × Free equals pair)
      ⊎ ((kv : Str × Str) × (split_kv pair ≡ some kv)
          × (pair ≡ kv.0 ++ equals ∷ kv.1)
          × Free equals kv.0)
unfolding split_kv Free
split_kv-IsFirst [] = inl (refl, λ m. m)
split_kv-IsFirst (c ∷ s) =
    let first = ==_iff c equals in
    elim (Bool-cases (c == equals)) [
      | inl e ↦ inr (([], s), rw e refl, ap (λ d. d ∷ s) (first.0 e), λ m. m)
      | inr e ↦ elim (split_kv-IsFirst s) [
        | inl r ↦ inl (rw (e, r.0) refl, Free-step c s (λ f. ground arith) r.1)
        | inr r ↦ inr (
          (c ∷ r.0.0, r.0.1),
          rw (e, r.1) refl,
          ap (λ t. c ∷ t) r.2,
          Free-step c r.0.0 (λ f. ground arith) r.3,
        )
      ]
    ]
