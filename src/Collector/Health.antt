-- ===== src/Collector/Health.antt =====
-- internal/collector/health.go: the collector of the server's health. What the source answers to a
-- probe is an argument, and what it answers to HealthVitals is a function of the probe and of the
-- prior count of aborted clients, as the interface has it.
pub mod Runs
mod Tests
use mysqlmonitoring.Prelude.{ℕ, Bool, true, false, Option, none, some, Str, if◌then◌else◌}
use mysqlmonitoring.Db.{
  Answer, answered, failed, HealthVitals, ReplicaProbe, unknown_dialect, unknown_role,
}

pub record HealthCollector : Type 0 where
  pub probe : ReplicaProbe
  pub probed : Bool
  pub prior : HealthVitals
  pub latest : HealthVitals

abbrev pub no_probe : ReplicaProbe
no_probe = record { role = unknown_role; dialect = unknown_dialect }

abbrev pub no_vitals : HealthVitals
no_vitals = record {
  time = 0;
  uptime_seconds = 0;
  threads_running = 0;
  threads_connected = 0;
  pages_dirty = 0;
  pages_total = 0;
  read_requests = 0;
  reads = 0;
  aborted_clients = 0;
  aborted_clients_delta = 0;
  replica = none;
}

abbrev pub new_health_collector : HealthCollector
new_health_collector = record {
  probe = no_probe;
  probed = false;
  prior = no_vitals;
  latest = no_vitals;
}

-- What the source would answer during one poll.
pub record HealthSource : Type 0 where
  pub probe_replica : Answer ReplicaProbe
  pub health_vitals : ReplicaProbe → ℕ → Answer HealthVitals

-- The first block of Poll, with the call of ProbeReplica.
pub ensure_probe : HealthCollector → Answer ReplicaProbe → HealthCollector
ensure_probe h (answered probe) = if h.probed then h else record h { probe = probe; probed = true }
ensure_probe h (failed e) = h

-- The end of Poll, for the answer of HealthVitals.
pub keep : HealthCollector → Answer HealthVitals → HealthCollector × Answer HealthVitals
keep h (failed e) = (h, failed e)
keep h (answered v) = (record h { prior = v; latest = v }, answered v)

-- Poll; beside an error it returns the zero vitals.
pub poll : HealthCollector → HealthSource → HealthCollector × Answer HealthVitals
poll h source =
    let h' = ensure_probe h source.probe_replica in
    keep h' (source.health_vitals h'.probe h'.prior.aborted_clients)

-- ReplicaProbe
pub replica_probe : HealthCollector → ReplicaProbe
replica_probe h = if h.probed then h.probe else no_probe

-- Latest
pub latest_of : HealthCollector → HealthVitals
latest_of h = h.latest
