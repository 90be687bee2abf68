-- ===== src/Tui/Rows/Durations.antt =====
-- issues.go: parseDuration reads what the detectors' formatDuration writes.
use mysqlmonitoring.Prelude.{
  ℕ, zero, suc, ◌+◌, ◌*◌, ◌-◌, ◌/◌, ◌%◌, ◌^◌, ◌<◌, ◌≡◌, ◌∙◌, ap, refl, Bool, List, true, false,
  ◌&&◌, ◌||◌, leb, ◌≤◌, Option, none, some, [], ◌∷◌, ◌++◌, ltb, if◌then◌else◌, arith, append_assoc,
  Bool-cases, inl, inr, Str,
}
use mysqlmonitoring.Prelude.Int.{pos}
use mysqlmonitoring.Detector.Issues.{
  digits, show, seconds, format_seconds, format_duration, powers, highest, missing, whole_seconds,
}
use mysqlmonitoring.Tui.Text.{is_digit, unit, or_zero, is_int64, duration_from, parse_duration}

digit_yes : (d : ℕ) → d < 10 → is_digit (48 + d) ≡ true
digit_yes d h = ground arith

digit_value : (d : ℕ) → 48 + d - 48 ≡ d
digit_value d = omega arith

duration_from-digit :
    (num : Option ℕ) (total d : ℕ) (s : Str)
    → d < 10
    → duration_from num total ((48 + d) ∷ s) ≡ duration_from (some (10 * or_zero num + d)) total s
unfolding duration_from
duration_from-digit none total d s h = rw (digit_yes d h, digit_value d) refl
duration_from-digit (some n) total d s h = rw (digit_yes d h, digit_value d) refl

duration_from-digits :
    (fuel n total : ℕ) (s : Str)
    → n < fuel
    → duration_from none total (digits fuel n s) ≡ duration_from (some n) total s
duration_from-digits zero n total s h = absurd (omega arith)
duration_from-digits (suc fuel) n total s h = elim (Bool-cases (ltb n 10)) [
  | inl e ↦
      rw (digits, e)
        (duration_from-digit none total n s (ground arith)
          ∙ ap (λ m. duration_from (some m) total s) (omega arith))
  | inr e ↦
      rw (digits, e)
        (duration_from-digits fuel (n / 10) total ((48 + n % 10) ∷ s) (ground arith)
          ∙ duration_from-digit (some (n / 10)) total (n % 10) s (omega arith)
          ∙ ap (λ m. duration_from (some m) total s) (omega arith))
]

-- A part of the text: a number and its unit.
duration_from-part :
    (n total c u : ℕ) (s : Str)
    → n < 2 ^ 63
    → is_digit c ≡ false
    → unit c ≡ some u
    → duration_from none total (digits (n + 1) n (c ∷ s)) ≡ duration_from none (total + n * u) s
unfolding duration_from
duration_from-part n total c u s h d e =
    let small : is_int64 n ≡ true = ground arith in
    let step : duration_from (some n) total (c ∷ s) ≡ duration_from none (total + n * u) s =
      rw (duration_from, d, e, small) (ap (λ v. duration_from none (total + n * or_zero v) s) e) in
    duration_from-digits (n + 1) n total (c ∷ s) (omega arith) ∙ step

digits-append : (fuel n : ℕ) (s t : Str) → digits fuel n s ++ t ≡ digits fuel n (s ++ t)
digits-append zero n s t = refl
digits-append (suc fuel) n s t = elim (Bool-cases (ltb n 10)) [
  | inl e ↦ rw (digits, e) refl
  | inr e ↦ rw (digits, e) (digits-append fuel (n / 10) ((48 + n % 10) ∷ s) t)
]

one_part : (n c : ℕ) → show n ++ c ∷ [] ≡ digits (n + 1) n (c ∷ [])
unfolding show
one_part n c = digits-append (n + 1) n [] (c ∷ [])

two_parts :
    (m n c d : ℕ)
    → show m ++ c ∷ [] ++ show n ++ d ∷ [] ≡ digits (m + 1) m (c ∷ digits (n + 1) n (d ∷ []))
unfolding show
two_parts m n c d =
    append_assoc (show m ++ c ∷ []) (show n) (d ∷ [])
    ∙ append_assoc (show m) (c ∷ []) (show n ++ d ∷ [])
    ∙ ap (λ t. show m ++ c ∷ t) (one_part n d)
    ∙ digits-append (m + 1) m [] (c ∷ digits (n + 1) n (d ∷ []))

-- The seconds that formatDuration writes: past an hour it leaves them out.
abbrev pub kept_seconds : ℕ → ℕ
kept_seconds total = if ltb total 3600 then total else total / 60 * 60

read_seconds :
    (total : ℕ)
    → total < 2 ^ 63
    → duration_from none 0 (format_seconds (pos total)) ≡ some (kept_seconds total)
unfolding show duration_from
read_seconds total h = elim (Bool-cases (ltb total 60)) [
  | inl e ↦
      let short : ltb total 3600 ≡ true = ground arith in
      rw (e, short)
        (ap (duration_from none 0) (one_part total 115)
          ∙ duration_from-part total 0 115 1 [] h refl refl
          ∙ ap some (omega arith))
  | inr e ↦ elim (Bool-cases (ltb (total / 60) 60)) [
    | inl f ↦
        let short : ltb total 3600 ≡ true = ground arith in
        rw (e, f, short)
          (ap (duration_from none 0) (two_parts (total / 60) (total % 60) 109 115)
            ∙ duration_from-part (total / 60) 0 109 60 _ (omega arith) refl refl
            ∙ duration_from-part (total % 60) _ 115 1 [] (omega arith) refl refl
            ∙ ap some (omega arith))
    | inr f ↦
        let long : ltb total 3600 ≡ false = ground arith in
        rw (e, f, long)
          (ap (duration_from none 0) (two_parts (total / 60 / 60) (total / 60 % 60) 104 109)
            ∙ duration_from-part (total / 60 / 60) 0 104 3600 _ (omega arith) refl refl
            ∙ duration_from-part (total / 60 % 60) _ 109 60 [] (omega arith) refl refl
            ∙ ap some (omega arith))
  ]
]

-- No power of two is between 2^23 and 2^24.
abbrev all_apart : List ℕ → Bool
all_apart [] = true
all_apart (p ∷ ps) = (leb p (2 ^ 23) || leb (2 ^ 24) p) && all_apart ps

highest-low : (ps : List ℕ) (s : ℕ) → all_apart ps ≡ true → s < 2 ^ 24 → highest ps s ≤ 2 ^ 23
unfolding highest
highest-low [] s h l = omega arith
highest-low (p ∷ ps) s h l = let rest = highest-low ps s (ground arith) l in ground arith

missing-high : (nsec : ℕ) → nsec < 10 ^ 9 → 2 ^ 23 < missing nsec
missing-high nsec h = omega arith

not_reached : (m p : ℕ) → p ≤ 2 ^ 23 → 2 ^ 23 < m → leb m p ≡ false
not_reached m p l h = ground arith

-- Below 2^24 seconds, which is some 194 days, the float64 of a duration does not reach the next
-- second.
whole_seconds-exact : (d : ℕ) → d < 2 ^ 24 * 10 ^ 9 → whole_seconds d ≡ d / 10 ^ 9
unfolding whole_seconds
whole_seconds-exact d h =
    let low = highest-low (powers 34) (d / 10 ^ 9) refl (omega arith) in
    let high = missing-high (d % 10 ^ 9) (omega arith) in
    rw
      (
        whole_seconds,
        not_reached (missing (d % 10 ^ 9)) (highest (powers 34) (d / 10 ^ 9)) low high,
      )
      refl

-- parseDuration reads back what formatDuration writes of a duration from 0 to below 2^24 seconds,
-- where its float64 is exact enough: its whole seconds, and from an hour on its whole minutes.
pub parse_duration-format_duration :
    (d : ℕ)
    → d < 2 ^ 24 * 10 ^ 9
    → parse_duration (format_duration (pos d)) ≡ seconds (pos (kept_seconds (d / 10 ^ 9)))
unfolding parse_duration format_duration
parse_duration-format_duration d h =
    rw
      (
        format_duration,
        whole_seconds-exact d h,
        parse_duration,
        read_seconds (d / 10 ^ 9) (omega arith),
      )
      refl
