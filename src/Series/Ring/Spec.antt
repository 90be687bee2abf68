-- ===== src/Series/Ring/Spec.antt =====
-- ring.go: the invariant, and the list that a buffer stands for.
use mysqlmonitoring.Prelude.{ℕ, ◌-◌, ◌<◌, List, ◌++◌, length, take, drop, if◌then◌else◌}
use mysqlmonitoring.Series.Ring.{RingBuffer}

-- The write position is inside the storage.
abbrev pub IsValid {ℓ} : {A : Type ℓ} → RingBuffer A → Type 0
IsValid r = r.head < length r.buf

-- The specification: what a buffer of `n` places keeps of a history.
abbrev pub keep_last {ℓ} : {A : Type ℓ} → ℕ → List A → List A
keep_last n xs = drop (length xs - n) xs

-- The retained items, oldest first, read off the two parts of the storage.
abbrev pub contents {ℓ} : {A : Type ℓ} → RingBuffer A → List A
contents r = if r.full then drop r.head r.buf ++ take r.head r.buf else take r.head r.buf
