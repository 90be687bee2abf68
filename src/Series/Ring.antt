-- ===== src/Series/Ring.antt =====
-- internal/series/ring.go: a ring buffer that overwrites its oldest entry when it is full.
-- `blank` is Go's zero value of the element type: `make` fills the buffer with it. A read or write
-- out of range, a panic in Go, reads `blank` or writes nothing here.
pub mod Spec
pub mod Reading
pub mod Contents
pub mod History
mod Tests
use mysqlmonitoring.Prelude.{
  ℕ, zero, suc, ◌+◌, ◌-◌, ◌%◌, ◌≡◌, Bool, true, false, List, [], ◌∷◌, length, get_or, set,
  replicate, ◌==◌, if◌then◌else◌,
}
use mysqlmonitoring.Prelude.Int.{ℤ, pos, pos_part, ltb_ℤ}

pub record RingBuffer {ℓ} (A : Type ℓ) : Type ℓ where
  pub buf : List A
  pub head : ℕ
  pub full : Bool

-- The capacity that NewRingBuffer allocates for the one it is asked for.
abbrev pub clamp_capacity : ℤ → ℕ
clamp_capacity capacity = if ltb_ℤ capacity (pos 1) then 1 else pos_part capacity

module _ {ℓ} {A : Type ℓ} (blank : A) where
  -- NewRingBuffer
  pub new_ring_buffer : ℤ → RingBuffer A
  new_ring_buffer capacity = record {
    buf = replicate (clamp_capacity capacity) blank;
    head = 0;
    full = false;
  }

module _ {ℓ} {A : Type ℓ} where
  pub cap : RingBuffer A → ℕ
  cap r = length r.buf

  pub len : RingBuffer A → ℕ
  len r = if r.full then length r.buf else r.head

  pub append : RingBuffer A → A → RingBuffer A
  append r v =
      let buf' = set r.buf r.head v in
      let head' = r.head + 1 in
      if head' == length r.buf
      then record { buf = buf'; head = 0; full = true }
      else record { buf = buf'; head = head'; full = r.full }

  pub reset : RingBuffer A → RingBuffer A
  reset r = record r { head = 0; full = false }

module _ {ℓ} {A : Type ℓ} (blank : A) where
  -- The loop of All with every yield accepted: `n` rounds are left, and `i` is the next one.
  pub read_from : List A → ℕ → ℕ → ℕ → List A
  read_from buf start i zero = []
  read_from buf start i (suc n) =
      get_or buf ((start + i) % length buf) blank ∷ read_from buf start (i + 1) n

  pub all : RingBuffer A → List A
  unfolding len
  all r = let n = len r in if n == 0 then [] else read_from r.buf (if r.full then r.head else 0) 0 n

  -- Newest: the item and whether there is one.
  pub newest : RingBuffer A → A × Bool
  unfolding len
  newest r =
      if len r == 0
      then (blank, false)
      else (get_or r.buf (if r.head == 0 then length r.buf - 1 else r.head - 1) blank, true)
