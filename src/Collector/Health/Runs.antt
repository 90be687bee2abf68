-- ===== src/Collector/Health/Runs.antt =====
-- health.go: what a run of polls leaves.
use mysqlmonitoring.Prelude.{
  ◌≡◌, ◌∙◌, ap₂, refl, Bool, true, false, Option, none, some, List, [], ◌∷◌, arith, Bool-cases, inl,
  inr,
}
use mysqlmonitoring.Db.{Answer, answered, failed, HealthVitals, ReplicaProbe}
use mysqlmonitoring.Collector.Health.{
  HealthCollector, HealthSource, new_health_collector, no_probe, ensure_probe, keep, poll,
  replica_probe, latest_of,
}

-- A sequence of polls.
pub poll_all : HealthCollector → List HealthSource → HealthCollector
poll_all h [] = h
poll_all h (source ∷ sources) = poll_all (poll h source).0 sources

abbrev pub answer_of : Answer ReplicaProbe → Option ReplicaProbe → Option ReplicaProbe
answer_of (answered probe) o = some probe
answer_of (failed e) o = o

-- The first successful answer to a probe, or `o` when there is none.
abbrev pub first_probe : List HealthSource → Option ReplicaProbe → Option ReplicaProbe
first_probe [] o = o
first_probe (source ∷ sources) o = answer_of source.probe_replica (first_probe sources o)

abbrev pub or_none : Option ReplicaProbe → ReplicaProbe
or_none none = no_probe
or_none (some probe) = probe

keep-probe :
    (h : HealthCollector) (a : Answer HealthVitals)
    → ((keep h a).0.probed ≡ h.probed) × ((keep h a).0.probe ≡ h.probe)
unfolding keep
keep-probe h (answered v) = (refl, refl)
keep-probe h (failed e) = (refl, refl)

-- The probe that a poll leaves, by what it found and what the source would answer.
abbrev probe_after : Bool → ReplicaProbe → Option ReplicaProbe → ReplicaProbe
probe_after true probe o = probe
probe_after false probe o = or_none o

replica_probe_lem : (h : HealthCollector) → replica_probe h ≡ probe_after h.probed h.probe none
unfolding replica_probe
replica_probe_lem h = elim (Bool-cases h.probed) [
  | inl e ↦ rw (replica_probe, e) refl
  | inr e ↦ rw (replica_probe, e) refl
]

ensure_probe-after :
    (h : HealthCollector) (a : Answer ReplicaProbe) (o : Option ReplicaProbe)
    → probe_after (ensure_probe h a).probed (ensure_probe h a).probe o
      ≡ probe_after h.probed h.probe (answer_of a o)
unfolding ensure_probe
ensure_probe-after h (answered probe) o = elim (Bool-cases h.probed) [
  | inl e ↦ rw (ensure_probe, e) refl
  | inr e ↦ rw (ensure_probe, e) refl
]
ensure_probe-after h (failed e) o = refl

poll_all-probe :
    (h : HealthCollector) (sources : List HealthSource) (o : Option ReplicaProbe)
    → probe_after (poll_all h sources).probed (poll_all h sources).probe o
      ≡ probe_after h.probed h.probe (first_probe sources o)
unfolding poll_all poll
poll_all-probe h [] o = refl
poll_all-probe h (source ∷ sources) o =
    let h' = ensure_probe h source.probe_replica in
    let kept = keep-probe h' (source.health_vitals h'.probe h'.prior.aborted_clients) in
    let same : probe_after (poll h source).0.probed (poll h source).0.probe (first_probe sources o)
        ≡ probe_after h'.probed h'.probe (first_probe sources o) =
      rw (kept.0, kept.1) refl in
    poll_all-probe (poll h source).0 sources o
    ∙ same
    ∙ ensure_probe-after h source.probe_replica (first_probe sources o)

-- The role of the server is asked for until an answer comes, and then no more: after any polls,
-- ReplicaProbe gives the first answer to a probe, or the unknown role if each has failed.
pub replica_probe-poll_all :
    (sources : List HealthSource)
    → replica_probe (poll_all new_health_collector sources) ≡ or_none (first_probe sources none)
replica_probe-poll_all sources =
    replica_probe_lem (poll_all new_health_collector sources)
    ∙ poll_all-probe new_health_collector sources none

-- The fields that a poll relies on: an unprobed collector has the unknown probe, and the vitals to
-- compare with are those that Latest shows.
abbrev IsValid : HealthCollector → Type 0
IsValid h = (h.probe ≡ probe_after h.probed h.probe none) × (h.prior ≡ h.latest)

ensure_probe-IsValid :
    (h : HealthCollector) (a : Answer ReplicaProbe) → IsValid h → IsValid (ensure_probe h a)
unfolding ensure_probe
ensure_probe-IsValid h (answered probe) v = elim (Bool-cases h.probed) [
  | inl e ↦ rw (ensure_probe, e) (refl, v.1)
  | inr e ↦ rw (ensure_probe, e) (refl, v.1)
]
ensure_probe-IsValid h (failed e) v = v

keep-IsValid : (h : HealthCollector) (a : Answer HealthVitals) → IsValid h → IsValid (keep h a).0
unfolding keep
keep-IsValid h (answered v) w = (w.0, refl)
keep-IsValid h (failed e) w = w

poll_all-IsValid :
    (h : HealthCollector) (sources : List HealthSource) → IsValid h → IsValid (poll_all h sources)
unfolding poll_all poll
poll_all-IsValid h [] v = v
poll_all-IsValid h (source ∷ sources) v =
    let h' = ensure_probe h source.probe_replica in
    poll_all-IsValid (poll h source).0 sources (
      keep-IsValid h' (source.health_vitals h'.probe h'.prior.aborted_clients)
        (ensure_probe-IsValid h source.probe_replica v))

abbrev pub vitals_or : HealthVitals → Answer HealthVitals → HealthVitals
vitals_or v (answered w) = w
vitals_or v (failed e) = v

keep-answer :
    (h : HealthCollector) (a : Answer HealthVitals)
    → ((keep h a).1 ≡ a) × ((keep h a).0.latest ≡ vitals_or h.latest a)
unfolding keep
keep-answer h (answered v) = (refl, refl)
keep-answer h (failed e) = (refl, refl)

ensure_probe-latest :
    (h : HealthCollector) (a : Answer ReplicaProbe) → (ensure_probe h a).latest ≡ h.latest
unfolding ensure_probe
ensure_probe-latest h (answered probe) = ground arith
ensure_probe-latest h (failed e) = refl

-- What the source answers after the polls of the other sources, to a call with the first answer to
-- a probe and the aborted clients that Latest shows.
abbrev pub asked : List HealthSource → HealthSource → Answer HealthVitals
unfolding latest_of
asked sources source =
    source.health_vitals (or_none (first_probe sources (answer_of source.probe_replica none)))
      (latest_of (poll_all new_health_collector sources)).aborted_clients

-- After any polls, a poll asks for the vitals with the first answer that these polls and its own
-- probe have got (or the unknown role), and with the aborted clients that Latest shows. It returns
-- what is answered; Latest is then the answer, or as before if that is an error.
pub poll-poll_all :
    (sources : List HealthSource) (source : HealthSource)
    → ((poll (poll_all new_health_collector sources) source).1 ≡ asked sources source)
      × (latest_of (poll (poll_all new_health_collector sources) source).0
          ≡ vitals_or (latest_of (poll_all new_health_collector sources)) (asked sources source))
unfolding poll latest_of
poll-poll_all sources source =
    let h = poll_all new_health_collector sources in
    let h' = ensure_probe h source.probe_replica in
    let valid =
      ensure_probe-IsValid h source.probe_replica
        (poll_all-IsValid new_health_collector sources (refl, refl)) in
    let probe =
      valid.0
      ∙ ensure_probe-after h source.probe_replica none
      ∙ poll_all-probe new_health_collector sources (answer_of source.probe_replica none) in
    let same = ensure_probe-latest h source.probe_replica in
    let kept = keep-answer h' (source.health_vitals h'.probe h'.prior.aborted_clients) in
    let call : source.health_vitals h'.probe h'.prior.aborted_clients ≡ asked sources source =
      ap₂ (λ (p : ReplicaProbe) (v : HealthVitals). source.health_vitals p v.aborted_clients) probe
        (valid.1 ∙ same) in
    (kept.0 ∙ call, kept.1 ∙ ap₂ vitals_or same call)
