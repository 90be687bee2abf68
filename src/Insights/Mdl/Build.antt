-- ===== src/Insights/Mdl/Build.antt =====
-- mdl.go: what BuildMDL puts into the queue of a table.
use mysqlmonitoring.Prelude.{
  ℕ, suc, ◌+◌, ◌≡◌, ◌∙◌, refl, sym, ap, inl, inr, Bool, true, false, ◌&&◌, Option, none, some, List,
  [], ◌∷◌, ◌++◌, map, if◌then◌else◌, In, filter_by, arith, Bool-cases, Option-cases, append_assoc,
  append-nil, Str, codes, str_eq, str_eq_iff,
}
use mysqlmonitoring.Prelude.Sort.{sort_stable, sort_stable-IsSorted, In-sort_stable}
use mysqlmonitoring.Db.{MetadataLock}
use mysqlmonitoring.Insights.Mdl.{
  MdlEntry, MdlQueue, Groups, is_table_lock, group_key, entry_of, count_up, count_of, add_entry,
  new_queue, add_to_group, group, find_group, waits_longer, sort_queue, sorted_queues, more_pending,
  build_mdl,
}
use mysqlmonitoring.Insights.Mdl.Queue.{IsQueued}

-- A lock on the table whose key is `k`.
abbrev pub is_on : Str → MetadataLock → Bool
is_on k ml = is_table_lock ml && str_eq (group_key ml) k

-- The entries of the locks on `k` that have the status, in the order of the rows.
abbrev pub entries_on : Str → Str → List MetadataLock → List MdlEntry
entries_on k status mls =
    map entry_of (filter_by (λ ml. is_on k ml && str_eq ml.lock_status status) mls)

abbrev pending_of : Option MdlQueue → List MdlEntry
pending_of none = []
pending_of (some q) = q.pending

abbrev granted_of : Option MdlQueue → List MdlEntry
granted_of none = []
granted_of (some q) = q.granted

abbrev counts_of : Option MdlQueue → List (Str × ℕ)
counts_of none = []
counts_of (some q) = q.by_lock_type

-- What one lock does to the group with the key `k`.
abbrev or_new : MetadataLock → Option MdlQueue → MdlQueue
or_new ml none = new_queue ml
or_new ml (some q) = q

abbrev with_lock : Str → MetadataLock → Option MdlQueue → Option MdlQueue
with_lock k ml o = if is_on k ml then some (add_entry (or_new ml o) (entry_of ml)) else o

find_group-add_to_group :
    (k : Str) (ml : MetadataLock) (gs : Groups)
    → find_group k (add_to_group ml gs) ≡ (
        if str_eq (group_key ml) k
        then some (add_entry (or_new ml (find_group k gs)) (entry_of ml))
        else find_group k gs)
unfolding find_group add_to_group
find_group-add_to_group k ml [] = refl
find_group-add_to_group k ml ((j, q) ∷ gs) = ground (
  arith,
  str_eq_iff j (group_key ml),
  str_eq_iff j k,
  str_eq_iff (group_key ml) k,
  find_group-add_to_group k ml gs,
)

find_group-step :
    (k : Str) (ml : MetadataLock) (gs : Groups)
    → find_group k (if is_table_lock ml then add_to_group ml gs else gs)
      ≡ with_lock k ml (find_group k gs)
find_group-step k ml gs = ground (arith, find_group-add_to_group k ml gs)

abbrev count_pending : Str → List MdlEntry → ℕ
count_pending t [] = 0
count_pending t (e ∷ es) =
    if str_eq e.lock_type t then suc (count_pending t es) else count_pending t es

-- No status is both.
one_status : (s : Str) → str_eq s (codes "PENDING") ≡ true → str_eq s (codes "GRANTED") ≡ false
unfolding str_eq
one_status s h = rw ((str_eq_iff s (codes "PENDING")).0 h)

pending-with_lock :
    (k : Str) (ml : MetadataLock) (o : Option MdlQueue)
    → pending_of (with_lock k ml o) ≡ (
        if is_on k ml && str_eq ml.lock_status (codes "PENDING")
        then pending_of o ++ entry_of ml ∷ []
        else pending_of o)
unfolding add_entry new_queue entry_of
pending-with_lock k ml o = ground (arith, one_status ml.lock_status)

granted-with_lock :
    (k : Str) (ml : MetadataLock) (o : Option MdlQueue)
    → granted_of (with_lock k ml o) ≡ (
        if is_on k ml && str_eq ml.lock_status (codes "GRANTED")
        then granted_of o ++ entry_of ml ∷ []
        else granted_of o)
unfolding add_entry new_queue entry_of
granted-with_lock k ml o = ground arith

-- One more row, in front of the others.
entries_on-step :
    (k status : Str) (ml : MetadataLock) (mls : List MetadataLock) (xs : List MdlEntry)
    → (if is_on k ml && str_eq ml.lock_status status then xs ++ entry_of ml ∷ [] else xs)
        ++ entries_on k status mls
      ≡ xs ++ entries_on k status (ml ∷ mls)
entries_on-step k status ml mls xs =
    elim (Bool-cases (is_on k ml && str_eq ml.lock_status status)) [
      | inl t ↦ rw t (append_assoc xs (entry_of ml ∷ []) (entries_on k status mls))
      | inr f ↦ rw f
    ]

pending-group :
    (k : Str) (mls : List MetadataLock) (gs : Groups)
    → pending_of (find_group k (group gs mls))
      ≡ pending_of (find_group k gs) ++ entries_on k (codes "PENDING") mls
unfolding group
pending-group k [] gs = sym (append-nil _)
pending-group k (ml ∷ mls) gs =
    pending-group k mls _
    ∙ rw (find_group-step k ml gs, pending-with_lock k ml (find_group k gs))
        (entries_on-step k (codes "PENDING") ml mls (pending_of (find_group k gs)))

granted-group :
    (k : Str) (mls : List MetadataLock) (gs : Groups)
    → granted_of (find_group k (group gs mls))
      ≡ granted_of (find_group k gs) ++ entries_on k (codes "GRANTED") mls
unfolding group
granted-group k [] gs = sym (append-nil _)
granted-group k (ml ∷ mls) gs =
    granted-group k mls _
    ∙ rw (find_group-step k ml gs, granted-with_lock k ml (find_group k gs))
        (entries_on-step k (codes "GRANTED") ml mls (granted_of (find_group k gs)))

count_of-count_up :
    (t u : Str) (m : List (Str × ℕ))
    → count_of t (count_up u m) ≡ (if str_eq u t then count_of t m + 1 else count_of t m)
unfolding count_of count_up
count_of-count_up t u [] = ground arith
count_of-count_up t u ((v, n) ∷ m) =
    ground (arith, count_of-count_up t u m, str_eq_iff v u, str_eq_iff v t, str_eq_iff u t)

count_pending-append :
    (t : Str) (xs ys : List MdlEntry)
    → count_pending t (xs ++ ys) ≡ count_pending t xs + count_pending t ys
count_pending-append t [] ys = omega arith
count_pending-append t (x ∷ xs) ys = ground (arith, count_pending-append t xs ys)

-- The counts of a group are those of its pending entries.
abbrev IsCounted : Option MdlQueue → Type 0
IsCounted o = (t : Str) → count_of t (counts_of o) ≡ count_pending t (pending_of o)

add_entry-IsCounted :
    (q : MdlQueue) (e : MdlEntry) (t : Str)
    → count_of t q.by_lock_type ≡ count_pending t q.pending
    → count_of t (add_entry q e).by_lock_type ≡ count_pending t (add_entry q e).pending
unfolding add_entry
add_entry-IsCounted q e t h = ground (
  arith,
  count_of-count_up t e.lock_type q.by_lock_type,
  count_pending-append t q.pending (e ∷ []),
)

with_lock-IsCounted :
    (k : Str) (ml : MetadataLock) (o : Option MdlQueue) → IsCounted o → IsCounted (with_lock k ml o)
unfolding new_queue count_of
with_lock-IsCounted k ml none h t = elim (Bool-cases (is_on k ml)) [
  | inl e ↦ rw e (add_entry-IsCounted (new_queue ml) (entry_of ml) t refl)
  | inr e ↦ rw e
]
with_lock-IsCounted k ml (some q) h t = elim (Bool-cases (is_on k ml)) [
  | inl e ↦ rw e (add_entry-IsCounted q (entry_of ml) t (h t))
  | inr e ↦ rw e (h t)
]

group-IsCounted :
    (k : Str) (mls : List MetadataLock) (gs : Groups)
    → IsCounted (find_group k gs)
    → IsCounted (find_group k (group gs mls))
unfolding group
group-IsCounted k [] gs h = h
group-IsCounted k (ml ∷ mls) gs h =
    group-IsCounted k mls _
      (rw (find_group-step k ml gs) (with_lock-IsCounted k ml (find_group k gs) h))

waits_longer_asym : (x y : MdlEntry) → waits_longer x y ≡ true → waits_longer y x ≡ false
waits_longer_asym x y h = ground arith

waits_longer_trans :
    (x y z : MdlEntry)
    → waits_longer y x ≡ false
    → waits_longer z y ≡ false
    → waits_longer z x ≡ false
waits_longer_trans x y z h k = ground arith

sorted_queues-found :
    (j : Str) (ks : List Str) (gs : Groups) (q : MdlQueue)
    → find_group j gs ≡ some q
    → sorted_queues (j ∷ ks) gs ≡ sort_queue q ∷ sorted_queues ks gs
unfolding sorted_queues
sorted_queues-found j ks gs q e = rw (e, sorted_queues)

sorted-in :
    (ks : List Str) (gs : Groups) (k : Str) (q : MdlQueue)
    → In k ks
    → find_group k gs ≡ some q
    → In (sort_queue q) (sorted_queues ks gs)
unfolding sorted_queues
sorted-in [] gs k q m e = absurd m
sorted-in (j ∷ ks) gs k q (inl i) e =
    rw (sorted_queues-found j ks gs q (ap (λ x. find_group x gs) (sym i) ∙ e)) (inl refl)
sorted-in (j ∷ ks) gs k q (inr m) e = elim (Option-cases (find_group j gs)) [
  | inl n ↦ rw (n, sorted_queues) (sorted-in ks gs k q m e)
  | inr (p, n) ↦ rw (sorted_queues-found j ks gs p n) (inr (sorted-in ks gs k q m e))
]

-- The queue of the table with the key `k`, as the rows give it.
pub record IsQueueOf (k : Str) (mls : List MetadataLock) (q : MdlQueue) : Type 0 where
  pub pending : q.pending ≡ sort_stable waits_longer (entries_on k (codes "PENDING") mls)
  pub granted : q.granted ≡ sort_stable waits_longer (entries_on k (codes "GRANTED") mls)
  pub queued : IsQueued q
  pub counts :
      (t : Str) → count_of t q.by_lock_type ≡ count_pending t (entries_on k (codes "PENDING") mls)

sort_queue-IsQueueOf :
    (k : Str) (mls : List MetadataLock) (q : MdlQueue)
    → find_group k (group [] mls) ≡ some q
    → IsQueueOf k mls (sort_queue q)
unfolding sort_queue find_group count_of
sort_queue-IsQueueOf k mls q e = record {
  pending = ap (sort_stable waits_longer) waiting;
  granted = ap (sort_stable waits_longer) (sym (ap granted_of e) ∙ granted-group k mls []);
  queued = sort_stable-IsSorted waits_longer waits_longer_asym waits_longer_trans q.pending;
  counts = λ t. (rw e at (group-IsCounted k mls [] (λ t. refl) t)) ∙ ap (count_pending t) waiting;
}
  where
    waiting : q.pending ≡ entries_on k (codes "PENDING") mls
    waiting = sym (ap pending_of e) ∙ pending-group k mls []

-- If some row is a lock on the table with the key `k`, and the loop over the grouped tables meets
-- this key, then BuildMDL returns a queue for it: its pending and its granted entries are those of
-- the rows with this key and status, the longest wait first and equal waits in the order of the
-- rows, and ByLockType counts the pending entries of each lock type.
pub build_mdl-IsQueueOf :
    (order : List Str) (mls : List MetadataLock) (k : Str) {q₀ : MdlQueue}
    → find_group k (group [] mls) ≡ some q₀
    → In k order
    → (q : MdlQueue) × In q (build_mdl order mls) × IsQueueOf k mls q
unfolding build_mdl
build_mdl-IsQueueOf order mls k {q₀} e m = (
  sort_queue q₀,
  (In-sort_stable more_pending (sort_queue q₀) (sorted_queues order (group [] mls))).1
      (sorted-in order (group [] mls) k q₀ m e),
  sort_queue-IsQueueOf k mls q₀ e,
)
