-- ===== src/Series/Registry/Tests.antt =====
-- Runs of a registry with room for one digest.
use mysqlmonitoring.Prelude.{
  ℕ, ◌+◌, ◌%◌, ◌^◌, ◌≡◌, refl, inl, false, List, [], ◌∷◌, In, codes, Str, str_eq, arith,
}
use mysqlmonitoring.Prelude.Int.{pos}
use mysqlmonitoring.Series.Sample.{DigestKey, key_eq, DigestSample, no_digest_sample}
use mysqlmonitoring.Series.Registry.{
  RegistryConfig, DigestEntry, Registry, new_registry, find, update, delete, append, touch,
  new_entry, evict, make_room, scan, choose, is_protected, lighter, older,
}
use mysqlmonitoring.Series.Registry.Evict.{IsVictim, evict-IsVictim}
use mysqlmonitoring.Series.Registry.Entries.{IsValid}
use mysqlmonitoring.Series.Registry.Invariant.{new_registry-IsValid, append-Registry_IsValid}
use mysqlmonitoring.Series.Registry.Load.{Write, IsLoaded, load-append_each}

abbrev small : RegistryConfig
small = record { max_digests = pos 1; sample_capacity = pos 2; new_digest_protection = pos 5 }

abbrev key_of : Str → DigestKey
key_of d = record { schema = codes "shop"; digest = d }

abbrev first_key : DigestKey
first_key = key_of (codes "d1")

abbrev second_key : DigestKey
second_key = key_of (codes "d2")

abbrev sample_at : ℕ → ℕ → DigestSample
sample_at t wait = record no_digest_sample { time = t; sum_timer_wait_delta = wait }

-- The registry after one append for the first key.
abbrev one : Registry
one = append [] (new_registry small) first_key (codes "SELECT 1") (sample_at 10 100)

one-IsValid : IsValid one
unfolding new_registry
one-IsValid =
    append-Registry_IsValid [] (new_registry small) first_key (codes "SELECT 1") (sample_at 10 100)
      (λ e. ((λ m. m), λ m. m)) (new_registry-IsValid small)

abbrev first_entry : DigestEntry
first_entry = record {
  key = first_key;
  text = codes "SELECT 1";
  first_seen = 10;
  sink = record { buf = sample_at 10 100 ∷ no_digest_sample ∷ []; head = 1; full = false };
  load_picos = 100;
}

-- The second key evicts the first.
evicted_test : (append one.entries one second_key (codes "SELECT 2") (sample_at 20 7)).evicted ≡ 1
unfolding append touch find new_registry make_room new_entry update evict scan choose is_protected
    lighter older delete key_eq str_eq
evicted_test = refl

append-Registry_IsValid_example :
    IsValid (append one.entries one second_key (codes "SELECT 2") (sample_at 20 7))
append-Registry_IsValid_example =
    append-Registry_IsValid one.entries one second_key (codes "SELECT 2") (sample_at 20 7)
      (λ e. ((λ m. m), λ m. m)) one-IsValid

abbrev filled : Registry
filled = record { cfg = small; entries = first_entry ∷ []; evicted = 0 }

evict-IsVictim_example :
    (v : DigestEntry) × In v filled.entries
    × IsVictim filled 20 filled.entries v
    × (evict filled.entries filled 20 ≡ record filled {
      entries = delete v.key filled.entries;
      evicted = (filled.evicted + 1) % 2 ^ 64;
    })
evict-IsVictim_example =
    evict-IsVictim filled.entries filled 20 first_entry (λ e. ((λ m. m), λ m. m)) (inl refl)

abbrev writes : List Write
writes =
    record { order = []; text = []; sample = sample_at 11 50 }
    ∷ record { order = []; text = []; sample = sample_at 12 60 }
    ∷ record { order = []; text = []; sample = sample_at 13 70 }
    ∷ []

load-append_each_example : IsLoaded filled first_key first_entry writes
unfolding find key_eq str_eq
load-append_each_example = load-append_each filled first_key first_entry writes refl (omega arith)
