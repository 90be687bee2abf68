-- ===== src/Collector/Waits/Buckets.antt =====
-- waits.go: what the buckets of a poll hold.
use mysqlmonitoring.Prelude.{
  ℕ, ◌+◌, ◌≡◌, false, Option, none, some, List, [], ◌∷◌, if◌then◌else◌, All, str_eq,
}
use mysqlmonitoring.Series.Sample.{WaitClass}
use mysqlmonitoring.Collector.Digest.{minus}
use mysqlmonitoring.Collector.Waits.{
  WaitRow, WaitBaseline, Baselines, class_eq, find, baseline_of, bucket_class, is_reset,
}

-- What a row adds to a counter of the bucket of class `d`, by its baseline from before the poll.
abbrev pub gain_at : (WaitBaseline → ℕ) → WaitClass → WaitRow → Option WaitBaseline → ℕ
gain_at counter d r none = 0
gain_at counter d r (some prev) =
    if is_reset prev (baseline_of r)
    then 0
    else if class_eq (bucket_class r.event_name) d
    then minus (counter (baseline_of r)) (counter prev)
    else 0

abbrev pub total_gain : (WaitBaseline → ℕ) → WaitClass → Baselines → List WaitRow → ℕ
total_gain counter d bs [] = 0
total_gain counter d bs (r ∷ rs) =
    gain_at counter d r (find r.event_name bs) + total_gain counter d bs rs

-- No two rows have the same event name.
abbrev pub Distinct : List WaitRow → Type 0
Distinct [] = Unit {0}
Distinct (r ∷ rs) = All (λ q. str_eq r.event_name q.event_name ≡ false) rs × Distinct rs
