-- ===== src/Series/Registry.antt =====
-- internal/series/registry.go: the per-digest series, with a cap that evicts by load. Each method
-- is one step: all but Append hold the mutex throughout, and one collector calls Append. The map is
-- an association list. Go iterates over a map in no fixed order, so the eviction takes the order of
-- its loop as an argument.
pub mod Minimum
pub mod Evict
pub mod Entries
pub mod Invariant
pub mod Load
mod Tests
use mysqlmonitoring.Prelude.{
  ℕ, ◌+◌, ◌%◌, ◌^◌, Bool, true, false, not, ◌&&◌, Option, none, some, List, [], ◌∷◌, length, map,
  filter_by, ltb, leb, if◌then◌else◌, Str, str_eq,
}
use mysqlmonitoring.Prelude.Int.{ℤ, pos, pos_part, ltb_ℤ, ◌-ℤ◌}
use mysqlmonitoring.Series.Ring.{RingBuffer}
use mysqlmonitoring.Series.Sink
use mysqlmonitoring.Series.Sample.{DigestKey, key_eq, DigestSample, digest_sample}

pub record RegistryConfig : Type 0 where
  pub max_digests : ℤ
  pub sample_capacity : ℤ
  pub new_digest_protection : ℤ

pub default_registry_config : RegistryConfig
default_registry_config = record {
  max_digests = pos 2000;
  sample_capacity = pos 720;
  new_digest_protection = pos 30000000000;
}

pub record DigestEntry : Type 0 where
  pub key : DigestKey
  pub text : Str
  pub first_seen : ℕ
  pub sink : RingBuffer DigestSample
  pub load_picos : ℕ

pub record Registry : Type 0 where
  pub cfg : RegistryConfig
  pub entries : List DigestEntry
  pub evicted : ℕ

-- NewRegistry
pub new_registry : RegistryConfig → Registry
unfolding default_registry_config
new_registry cfg = record {
  cfg = record {
    max_digests = if ltb_ℤ (pos 0) cfg.max_digests then cfg.max_digests else d.max_digests;
    sample_capacity =
        if ltb_ℤ (pos 0) cfg.sample_capacity then cfg.sample_capacity else d.sample_capacity;
    new_digest_protection =
        if ltb_ℤ cfg.new_digest_protection (pos 0) then pos 0 else cfg.new_digest_protection;
  };
  entries = [];
  evicted = 0;
}
  where
    d : RegistryConfig
    d = default_registry_config

-- Get, and the look-up of the map.
pub find : DigestKey → List DigestEntry → Option DigestEntry
find k [] = none
find k (e ∷ es) = if key_eq e.key k then some e else find k es

-- A write through the pointer that the map holds for the key.
pub update : DigestKey → (DigestEntry → DigestEntry) → List DigestEntry → List DigestEntry
update k f [] = []
update k f (e ∷ es) = if key_eq e.key k then f e ∷ es else e ∷ update k f es

-- delete(r.entries, key)
pub delete : DigestKey → List DigestEntry → List DigestEntry
delete k es = filter_by (λ e. not (key_eq e.key k)) es

-- FirstSeen.After(now - NewDigestProtection)
pub is_protected : Registry → ℕ → DigestEntry → Bool
unfolding ◌-ℤ◌
is_protected r now e = ltb_ℤ (pos now -ℤ r.cfg.new_digest_protection) (pos e.first_seen)

-- The variables of the loop of evictOldestLowestLoadLocked; the loads and times that it keeps
-- beside them are those of the entries.
pub record Candidates : Type 0 where
  pub victim : Option DigestEntry
  pub fallback : Option DigestEntry

pub older : DigestEntry → Option DigestEntry → Option DigestEntry
older e none = some e
older e (some f) = if ltb e.first_seen f.first_seen then some e else some f

pub lighter : DigestEntry → Option DigestEntry → Option DigestEntry
lighter e none = some e
lighter e (some v) = if ltb e.load_picos v.load_picos then some e else some v

pub scan : Registry → ℕ → List DigestEntry → Candidates → Candidates
scan r now [] c = c
scan r now (e ∷ es) c = scan r now es (record {
  victim = if is_protected r now e then c.victim else lighter e c.victim;
  fallback = older e c.fallback;
})

pub choose : Candidates → Option DigestEntry
choose c = elim c.victim [ some v ↦ some v | none ↦ c.fallback ]

-- evictOldestLowestLoadLocked, whose loop meets the entries in the order `order`.
pub evict : List DigestEntry → Registry → ℕ → Registry
evict order r now = elim (choose (scan r now order (record { victim = none; fallback = none }))) [
  | none ↦ r
  | some v ↦ record r { entries = delete v.key r.entries; evicted = (r.evicted + 1) % 2 ^ 64 }
]

abbrev set_text : Str → DigestEntry → DigestEntry
set_text text e = if not (str_eq text []) && str_eq e.text [] then record e { text = text } else e

-- Touch, when the key is new: room is made first, then the entry is added.
pub make_room : List DigestEntry → Registry → ℕ → Registry
make_room order r now =
    if leb (pos_part r.cfg.max_digests) (length r.entries) then evict order r now else r

pub new_entry : Registry → ℕ → DigestKey → Str → DigestEntry
new_entry r now k text = record {
  key = k;
  text = text;
  first_seen = now;
  sink = Sink.new_ring_sink r.cfg.sample_capacity;
  load_picos = 0;
}

-- Touch: the entry for the key is in the map afterwards.
pub touch : List DigestEntry → Registry → ℕ → DigestKey → Str → Registry
touch order r now k text = elim (find k r.entries) [
  | some e ↦ record r { entries = update k (set_text text) r.entries }
  | none ↦
      let r' = make_room order r now in record r' { entries = new_entry r now k text ∷ r'.entries }
]

-- Append: the entry is touched, then its sink and its load are written through its pointer.
pub append : List DigestEntry → Registry → DigestKey → Str → DigestSample → Registry
append order r k text s =
    let r' = touch order r s.time k text in
    record r' {
      entries =
          update k
            (λ e. record e {
              sink = Sink.append e.sink s;
              load_picos = (e.load_picos + s.sum_timer_wait_delta) % 2 ^ 64;
            })
            r'.entries;
    }

pub len : Registry → ℕ
len r = length r.entries

-- Snapshot, which gives the entries in no fixed order.
pub snapshot : Registry → List DigestEntry
snapshot r = r.entries

-- Evicted
pub evicted_total : Registry → ℕ
evicted_total r = r.evicted
