-- ===== src/Series/Sink/Tests.antt =====
-- Runs of a sink of two places.
use mysqlmonitoring.Prelude.{ℕ, ◌≡◌, List, [], ◌∷◌, filter_by}
use mysqlmonitoring.Prelude.Int.{pos}
use mysqlmonitoring.Series.Ring.{clamp_capacity}
use mysqlmonitoring.Series.Ring.Spec.{keep_last}
use mysqlmonitoring.Series.Ring.History.{append_all}
use mysqlmonitoring.Series.Sample.{DigestSample, no_digest_sample, digest_sample}
use mysqlmonitoring.Series.Sink.{new_ring_sink, range}
use mysqlmonitoring.Series.Sink.Window.{not_older, range-append_all}

abbrev sample_at : ℕ → DigestSample
sample_at t = record no_digest_sample { time = t }

abbrev samples : List DigestSample
samples = sample_at 10 ∷ sample_at 20 ∷ sample_at 30 ∷ []

abbrev window : ℕ
window = 30

range-append_all_example :
    range ⦃s = digest_sample⦄
      (append_all (new_ring_sink ⦃s = digest_sample⦄ (pos 2)) samples)
      35
      (pos 10)
    ≡ filter_by
        (λ v. not_older 35 (pos 10) (digest_sample.sample_time v))
        (keep_last (clamp_capacity (pos 2)) samples)
range-append_all_example = range-append_all digest_sample (pos 2) samples 35 (pos 10)
