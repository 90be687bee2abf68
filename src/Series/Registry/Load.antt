-- ===== src/Series/Registry/Load.antt =====
-- registry.go: what Touch and Append do to the entry of a key and to the others, and what LoadPicos
-- adds up.
use mysqlmonitoring.Prelude.{
  ℕ, ◌+◌, ◌%◌, ◌^◌, ◌≤◌, ◌<◌, ◌≡◌, ◌∙◌, refl, ◌⊎◌, inl, inr, true, false, Option, none, some, List,
  [], ◌∷◌, map, Option-cases, arith, length, Str,
}
use mysqlmonitoring.Prelude.Int.{pos_part}
use mysqlmonitoring.Series.Ring.History.{append_all}
use mysqlmonitoring.Series.Sink
use mysqlmonitoring.Series.Sample.{DigestKey, DigestSample, key_eq, key_eq_iff, digest_sample}
use mysqlmonitoring.Series.Registry.{
  Registry, DigestEntry, find, evict, touch, append, set_text, make_room, new_entry, choose, scan,
}
use mysqlmonitoring.Series.Registry.Entries.{find-update, find-delete}

-- What Touch makes of the entry that it found.
abbrev pub touched : Registry → ℕ → DigestKey → Str → Option DigestEntry → DigestEntry
touched r now k text (some e) = set_text text e
touched r now k text none = new_entry r now k text

-- What Append then writes into it.
abbrev pub written : DigestSample → DigestEntry → DigestEntry
written s e = record e {
  sink = Sink.append ⦃s = digest_sample⦄ e.sink s;
  load_picos = (e.load_picos + s.sum_timer_wait_delta) % 2 ^ 64;
}

set_text-key : (text : Str) (e : DigestEntry) → (set_text text e).key ≡ e.key
set_text-key text e = ground arith

set_text-rest :
    (text : Str) (e : DigestEntry)
    → ((set_text text e).load_picos ≡ e.load_picos)
      × ((set_text text e).sink ≡ e.sink)
      × ((set_text text e).first_seen ≡ e.first_seen)
set_text-rest text e = ground arith

key_eq_refl : (k : DigestKey) → key_eq k k ≡ true
key_eq_refl k = (key_eq_iff k k).1 refl

pub find-touch :
    (order : List DigestEntry) (r : Registry) (now : ℕ) (k : DigestKey) (text : Str)
    → find k (touch order r now k text).entries ≡ some (touched r now k text (find k r.entries))
unfolding touch find new_entry
find-touch order r now k text = elim (Option-cases (find k r.entries)) [
  | inl e ↦ rw (e, touch) (ground (arith, key_eq_refl k))
  | inr (x, e) ↦
      rw (e, touch, find-update k k (set_text text) r.entries (set_text-key text))
        (rw (key_eq_refl k, e))
]

-- Append leaves the key tracked, whatever it evicts: with the entry that was there, or a new one,
-- and the sample written into it.
pub find-append :
    (order : List DigestEntry) (r : Registry) (k : DigestKey) (text : Str) (s : DigestSample)
    → find k (append order r k text s).entries
      ≡ some (written s (touched r s.time k text (find k r.entries)))
unfolding append
find-append order r k text s =
    find-update k k (written s) (touch order r s.time k text).entries (λ e. refl)
    ∙ rw (key_eq_refl k, find-touch order r s.time k text)

find-evict :
    (order : List DigestEntry) (r : Registry) (now : ℕ) (j : DigestKey)
    → (find j (evict order r now).entries ≡ find j r.entries)
      ⊎ (find j (evict order r now).entries ≡ none)
unfolding evict
find-evict order r now j =
    elim (Option-cases (choose (scan r now order (record { victim = none; fallback = none })))) [
      | inl e ↦ inl (rw (e, evict))
      | inr (v, e) ↦ rw (e, evict) (ground (arith, find-delete j v.key r.entries))
    ]

find-make_room :
    (order : List DigestEntry) (r : Registry) (now : ℕ) (j : DigestKey)
    → find j (make_room order r now).entries ≡ find j r.entries
      ⊎ (find j (make_room order r now).entries ≡ none)
        × (pos_part r.cfg.max_digests ≤ length r.entries)
unfolding make_room
find-make_room order r now j = ground (arith, find-evict order r now j)

find-touch_other :
    (order : List DigestEntry) (r : Registry) (now : ℕ) (k j : DigestKey) (text : Str)
    → key_eq k j ≡ false
    → find j (touch order r now k text).entries ≡ find j r.entries
      ⊎ (find j (touch order r now k text).entries ≡ none)
        × (pos_part r.cfg.max_digests ≤ length r.entries)
unfolding touch find new_entry
find-touch_other order r now k j text ne = ground (
  arith,
  find-make_room order r now j,
  find-update j k (set_text text) r.entries (set_text-key text),
)

-- Touch and Append of one key leave the entry of another as it was, or it was evicted because the
-- map was at its cap.
pub find-append_other :
    (order : List DigestEntry) (r : Registry) (k j : DigestKey) (text : Str) (s : DigestSample)
    → key_eq k j ≡ false
    → find j (append order r k text s).entries ≡ find j r.entries
      ⊎ (find j (append order r k text s).entries ≡ none)
        × (pos_part r.cfg.max_digests ≤ length r.entries)
unfolding append
find-append_other order r k j text s ne =
    rw (find-update j k (written s) (touch order r s.time k text).entries (λ e. refl), ne)
      (find-touch_other order r s.time k j text ne)

-- A call of Append for one key.
pub record Write : Type 0 where
  pub order : List DigestEntry
  pub text : Str
  pub sample : DigestSample

pub append_each : Registry → DigestKey → List Write → Registry
append_each r k [] = r
append_each r k (w ∷ ws) = append_each (append w.order r k w.text w.sample) k ws

abbrev pub samples : List Write → List DigestSample
samples = map λ w. w.sample

abbrev pub total_wait : List Write → ℕ
total_wait [] = 0
total_wait (w ∷ ws) = w.sample.sum_timer_wait_delta + total_wait ws

abbrev pub IsLoaded : Registry → DigestKey → DigestEntry → List Write → Type 0
IsLoaded r k e ws =
    (e' : DigestEntry) × (find k (append_each r k ws).entries ≡ some e')
    × (e'.load_picos ≡ (e.load_picos + total_wait ws) % 2 ^ 64)
    × (e'.sink ≡ append_all e.sink (samples ws))
    × (e'.first_seen ≡ e.first_seen)

-- Appends to a tracked key leave it tracked, with the same first-seen time: LoadPicos grows by the
-- wait of every appended sample, modulo 2^64, also of those that the ring has since overwritten, and
-- the ring holds what the appends leave in it.
pub load-append_each :
    (r : Registry) (k : DigestKey) (e : DigestEntry) (ws : List Write)
    → find k r.entries ≡ some e
    → e.load_picos < 2 ^ 64
    → IsLoaded r k e ws
unfolding append_each append_all Sink.append
load-append_each r k e [] h small = (e, h, omega arith, refl, refl)
load-append_each r k e (w ∷ ws) h small =
    let here = find-append w.order r k w.text w.sample in
    let same = set_text-rest w.text e in
    let (e', found, load, ring, seen) =
      load-append_each (append w.order r k w.text w.sample) k (written w.sample (set_text w.text e))
        ws (here ∙ rw h) (omega arith) in
    (e', found, load ∙ rw same.0 (omega arith), ring ∙ rw same.1, seen ∙ same.2)
