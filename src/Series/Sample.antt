-- ===== src/Series/Sample.antt =====
-- internal/series/sample.go. A time is its number of nanoseconds since Go's zero time, so the zero
-- time is 0; a duration is an integer number of nanoseconds; counters are uint64 values.
use mysqlmonitoring.Prelude.{
  ℕ, ◌&&◌, Bool, true, false, List, [], ◌∷◌, Str, codes, str_eq, str_eq_iff, ◌≡◌, ◌↔◌, arith,
}
use mysqlmonitoring.Prelude.Int.{ℤ}

pub record DigestKey : Type 0 where
  pub schema : Str
  pub digest : Str

-- `==` on keys, as the maps compare them.
unfoldable pub key_eq : DigestKey → DigestKey → Bool
key_eq a b = str_eq a.schema b.schema && str_eq a.digest b.digest

pub key_eq_iff : (a b : DigestKey) → (key_eq a b ≡ true) ↔ (a ≡ b)
unfolding key_eq
key_eq_iff a b = ground (arith, str_eq_iff a.schema b.schema, str_eq_iff a.digest b.digest)

pub record DigestSample : Type 0 where
  pub time : ℕ
  pub interval : ℤ
  pub exec_count_delta : ℕ
  pub sum_timer_wait_delta : ℕ
  pub sum_lock_time_delta : ℕ
  pub sum_rows_examined_delta : ℕ
  pub sum_rows_sent_delta : ℕ
  pub sum_no_index_used_delta : ℕ
  pub sum_created_tmp_disk_tables_delta : ℕ
  pub sum_sort_merge_passes_delta : ℕ

pub data WaitClass : Type 0 where
  other_class cpu_class io_class lock_class sync_class network_class : WaitClass

-- AllWaitClasses, in display order.
abbrev pub all_wait_classes : List WaitClass
all_wait_classes = cpu_class ∷ io_class ∷ lock_class ∷ sync_class ∷ network_class ∷ other_class ∷ []

-- WaitClass.String
pub class_name : WaitClass → Str
class_name cpu_class = codes "CPU"
class_name io_class = codes "IO"
class_name lock_class = codes "Lock"
class_name sync_class = codes "Sync"
class_name network_class = codes "Network"
class_name other_class = codes "Other"

pub record WaitSample : Type 0 where
  pub time : ℕ
  pub interval : ℤ
  pub wait_class : WaitClass
  pub count_delta : ℕ
  pub sum_timer_wait_delta : ℕ
  pub cpu_observations : ℕ
  pub cpu_ticks : ℕ

pub record SessionSample : Type 0 where
  pub time : ℕ
  pub processlist_id : ℕ
  pub digest : Str
  pub schema : Str
  pub app_tag : Str
  pub user : Str
  pub host : Str
  pub event_name : Str
  pub executing : Bool

-- A Go value's zero, with which `make` fills a buffer.
abbrev pub no_digest_sample : DigestSample
no_digest_sample = record {
  time = 0;
  interval = ℤ.pos 0;
  exec_count_delta = 0;
  sum_timer_wait_delta = 0;
  sum_lock_time_delta = 0;
  sum_rows_examined_delta = 0;
  sum_rows_sent_delta = 0;
  sum_no_index_used_delta = 0;
  sum_created_tmp_disk_tables_delta = 0;
  sum_sort_merge_passes_delta = 0;
}

abbrev pub no_wait_sample : WaitSample
no_wait_sample = record {
  time = 0;
  interval = ℤ.pos 0;
  wait_class = other_class;
  count_delta = 0;
  sum_timer_wait_delta = 0;
  cpu_observations = 0;
  cpu_ticks = 0;
}

abbrev pub no_session_sample : SessionSample
no_session_sample = record {
  time = 0;
  processlist_id = 0;
  digest = [];
  schema = [];
  app_tag = [];
  user = [];
  host = [];
  event_name = [];
  executing = false;
}

-- SampleTime and the zero value, as the sinks ask for them (the Sample interface).
pub record Sample (A : Type 0) : Type 0 where
  pub sample_time : A → ℕ
  pub blank : A

instance abbrev pub digest_sample : Sample DigestSample
digest_sample = record { sample_time = λ s. s.time; blank = no_digest_sample }

instance abbrev pub wait_sample : Sample WaitSample
wait_sample = record { sample_time = λ s. s.time; blank = no_wait_sample }

instance abbrev pub session_sample : Sample SessionSample
session_sample = record { sample_time = λ s. s.time; blank = no_session_sample }
