-- ===== src/Insights/Engine/Capacity.antt =====
-- insights.go: the sizes that New chooses.
use mysqlmonitoring.Prelude.{ℕ, ◌+◌, ◌*◌, ◌/◌, ◌≤◌, ◌<◌, arith}
use mysqlmonitoring.Prelude.Int.{ℤ, pos, pos_part}
use native.Mathlib.Nat.{lt-div-mul-add}
use mysqlmonitoring.Insights.Engine.{Config, or_default, with_defaults, sample_cap}

or_default-positive : (x : ℤ) (n : ℕ) → 0 < n → 0 < pos_part (or_default x (pos n))
or_default-positive x n h = ground arith

mul_mono : (a b c : ℕ) → a ≤ b → a * c ≤ b * c
mul_mono a b c h = grind arith

at_least : (cfg : Config) → pos_part cfg.window / pos_part cfg.poll_interval + 1 ≤ sample_cap cfg
unfolding sample_cap
at_least cfg = ground arith

eight : (cfg : Config) → 8 ≤ sample_cap cfg
unfolding sample_cap
eight cfg = ground arith

-- With the defaults that New fills in, a ring has at least 8 places, and as many polls as it has
-- places span more than the window.
pub sample_cap-covers :
    (cfg : Config)
    → (8 ≤ sample_cap (with_defaults cfg))
      × (pos_part (with_defaults cfg).window
          < sample_cap (with_defaults cfg) * pos_part (with_defaults cfg).poll_interval)
unfolding sample_cap
sample_cap-covers cfg =
    let c = with_defaults cfg in
    let positive = or_default-positive cfg.poll_interval 10000000000 (omega arith) in
    let quotient : pos_part c.window
        < pos_part c.window / pos_part c.poll_interval * pos_part c.poll_interval
          + pos_part c.poll_interval =
      lt-div-mul-add positive in
    let scaled = mul_mono _ _ (pos_part c.poll_interval) (at_least c) in (eight c, grind arith)
