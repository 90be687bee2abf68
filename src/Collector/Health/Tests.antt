-- ===== src/Collector/Health/Tests.antt =====
-- Runs of the health collector.
use mysqlmonitoring.Prelude.{◌≡◌, [], ◌∷◌, codes}
use mysqlmonitoring.Db.{answered, failed, HealthVitals, replica_role, slave_dialect}
use mysqlmonitoring.Collector.Health.{
  HealthSource, new_health_collector, no_vitals, poll, latest_of,
}
use mysqlmonitoring.Collector.Health.Runs.{poll_all, vitals_or, asked, poll-poll_all}

abbrev vitals : HealthVitals
vitals = record no_vitals { time = 10; aborted_clients = 4 }

-- The role is not known at the first poll, and the vitals fail at the second.
abbrev first : HealthSource
first = record {
  probe_replica = failed (codes "denied");
  health_vitals = λ probe n. answered vitals;
}

abbrev second : HealthSource
second = record {
  probe_replica = answered (record { role = replica_role; dialect = slave_dialect });
  health_vitals = λ probe n. failed (codes "timeout");
}

poll-poll_all_example :
    ((poll (poll_all new_health_collector (first ∷ [])) second).1 ≡ asked (first ∷ []) second)
    × (latest_of (poll (poll_all new_health_collector (first ∷ [])) second).0
        ≡ vitals_or
            (latest_of (poll_all new_health_collector (first ∷ [])))
            (asked (first ∷ []) second))
poll-poll_all_example = poll-poll_all (first ∷ []) second
