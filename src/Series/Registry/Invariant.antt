-- ===== src/Series/Registry/Invariant.antt =====
-- registry.go: the invariant of the map under Touch and Append.
use mysqlmonitoring.Prelude.{
  ℕ, ◌<◌, ◌≡◌, refl, inl, inr, List, [], ◌∷◌, In, leb, Bool-cases, Option-cases, arith, length, Str,
}
use mysqlmonitoring.Prelude.Int.{pos_part}
use mysqlmonitoring.Series.Ring.Spec
use mysqlmonitoring.Series.Sink.Window.{new_ring_sink-IsValid, append-IsValid}
use mysqlmonitoring.Series.Sample.{DigestKey, DigestSample, digest_sample}
use mysqlmonitoring.Series.Registry.{
  Registry, RegistryConfig, DigestEntry, new_registry, find, update, delete, evict, touch, append,
  set_text, make_room, new_entry,
}
use mysqlmonitoring.Series.Registry.Evict.{IsOrder, evict-IsVictim}
use mysqlmonitoring.Series.Registry.Entries.{
  Absent, IsValid, find-none, Absent-filter_by, Distinct-filter_by, All-filter_by, Distinct-update,
  length-update, All-update, length-delete-lt,
}

-- NewRegistry gives a valid registry whatever the configuration.
pub new_registry-IsValid : (cfg : RegistryConfig) → IsValid (new_registry cfg)
unfolding new_registry
new_registry-IsValid cfg = ground arith

-- The registry as it is when Touch admits a new key: it has room.
abbrev HasRoom : Registry → Type 0
HasRoom r = length r.entries < pos_part r.cfg.max_digests

evict-HasRoom :
    (order : List DigestEntry) (r : Registry) (now : ℕ) (e₀ : DigestEntry)
    → IsOrder order r.entries
    → In e₀ r.entries
    → IsValid r
    → IsValid (evict order r now)
      × HasRoom (evict order r now)
      × ((evict order r now).cfg ≡ r.cfg)
      × ((k : DigestKey) → Absent k r.entries → Absent k (evict order r now).entries)
unfolding delete
evict-HasRoom order r now e₀ same m h =
    let (v, inside, _, result) = evict-IsVictim order r now e₀ same m in
    rw result (
      record {
        cap_pos = h.cap_pos;
        bounded = omega (arith, length-delete-lt v r.entries inside, h.bounded);
        distinct = Distinct-filter_by _ r.entries h.distinct;
        rings = All-filter_by _ _ r.entries h.rings;
      },
      omega (arith, length-delete-lt v r.entries inside, h.bounded),
      refl,
      λ k a. Absent-filter_by k _ r.entries a,
    )

some_entry : (es : List DigestEntry) → 0 < length es → (e : DigestEntry) × In e es
some_entry [] h = absurd (omega arith)
some_entry (e ∷ es) h = (e, inl refl)

-- After room is made the registry is valid, below its cap, with the same configuration, and no key
-- came in.
pub record Roomy (r r' : Registry) : Type 0 where
  pub valid : IsValid r'
  pub room : HasRoom r'
  pub cfg : r'.cfg ≡ r.cfg
  pub absent : (k : DigestKey) → Absent k r.entries → Absent k r'.entries

pub make_room-Roomy :
    (order : List DigestEntry) (r : Registry) (now : ℕ)
    → IsOrder order r.entries
    → IsValid r
    → Roomy r (make_room order r now)
unfolding make_room
make_room-Roomy order r now same h =
    elim (Bool-cases (leb (pos_part r.cfg.max_digests) (length r.entries))) [
      | inl e ↦
          let (e₀, m) = some_entry r.entries (ground (arith, h.cap_pos)) in
          let (valid, room, cfg, absent) = evict-HasRoom order r now e₀ same m h in
          rw e (record { valid = valid; room = room; cfg = cfg; absent = absent })
      | inr e ↦ rw e (record { valid = h; room = ground arith; cfg = refl; absent = λ k a. a })
    ]

set_text-key : (text : Str) (e : DigestEntry) → (set_text text e).key ≡ e.key
set_text-key text e = ground arith

set_text-sink :
    (text : Str) (e : DigestEntry) → Spec.IsValid e.sink → Spec.IsValid (set_text text e).sink
set_text-sink text e v = ground arith

admit-IsValid :
    (r : Registry) (e : DigestEntry)
    → Absent e.key r.entries
    → Spec.IsValid e.sink
    → HasRoom r
    → IsValid r
    → IsValid (record r { entries = e ∷ r.entries })
admit-IsValid r e a ring room h = record {
  cap_pos = h.cap_pos;
  bounded = omega arith;
  distinct = (a, h.distinct);
  rings = (ring, h.rings);
}

pub update-IsValid :
    (k : DigestKey) (f : DigestEntry → DigestEntry) (r : Registry)
    → ((e : DigestEntry) → (f e).key ≡ e.key)
    → ((e : DigestEntry) → Spec.IsValid e.sink → Spec.IsValid (f e).sink)
    → IsValid r
    → IsValid (record r { entries = update k f r.entries })
update-IsValid k f r same ring h = record {
  cap_pos = h.cap_pos;
  bounded = omega (arith, length-update k f r.entries, h.bounded);
  distinct = Distinct-update k f r.entries same h.distinct;
  rings = All-update _ k f r.entries ring h.rings;
}

-- Touch keeps the invariant, in whatever order its eviction meets the entries.
pub touch-IsValid :
    (order : List DigestEntry) (r : Registry) (now : ℕ) (k : DigestKey) (text : Str)
    → IsOrder order r.entries
    → IsValid r
    → IsValid (touch order r now k text)
unfolding touch new_entry
touch-IsValid order r now k text same h = elim (Option-cases (find k r.entries)) [
  | inl e ↦
      let roomy = make_room-Roomy order r now same h in
      rw (e, touch)
        (admit-IsValid (make_room order r now) (new_entry r now k text)
          (roomy.absent k (find-none k r.entries e))
          (new_ring_sink-IsValid digest_sample r.cfg.sample_capacity) roomy.room roomy.valid)
  | inr (x, e) ↦
      rw (e, touch)
        (update-IsValid k (set_text text) r (λ x. set_text-key text x)
          (λ x v. set_text-sink text x v) h)
]

-- Append keeps the invariant.
pub append-Registry_IsValid :
    (order : List DigestEntry) (r : Registry) (k : DigestKey) (text : Str) (s : DigestSample)
    → IsOrder order r.entries
    → IsValid r
    → IsValid (append order r k text s)
unfolding append
append-Registry_IsValid order r k text s same h =
    update-IsValid k _ (touch order r s.time k text) (λ e. refl)
      (λ e v. append-IsValid digest_sample e.sink s v) (touch-IsValid order r s.time k text same h)
