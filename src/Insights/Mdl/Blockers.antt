-- ===== src/Insights/Mdl/Blockers.antt =====
-- mdl.go: the blockers of a connection within one table's queue.
use mysqlmonitoring.Prelude.{
  ℕ, ◌≡◌, ◌≢◌, ap, sym, subst, ◌↔◌, ◌⊎◌, inl, inr, ◌==◌, Bool, true, false, not, ◌&&◌, some, List,
  [], ◌∷◌, ◌++◌, In, In-filter_by, All, arith, Bool-cases, Option-cases, str_eq, str_eq_iff,
}
use mysqlmonitoring.Insights.Mdl.{
  MdlEntry, MdlQueue, find_pending, is_self, conflicts, blockers_for, blockers_of,
}
use mysqlmonitoring.Insights.Mdl.Matrix.{IsConflict, conflicts_iff}

-- `e` is the first entry with the PID: those before it, `front`, have other PIDs.
pub record IsFirst (pid : ℕ) (es : List MdlEntry) (e : MdlEntry) : Type 0 where
  pub front : List MdlEntry
  pub back : List MdlEntry
  pub parts : es ≡ front ++ e ∷ back
  pub found : e.pid ≡ pid
  pub others : All (λ x. x.pid ≢ pid) front

find_pending-IsFirst :
    (pid : ℕ) (es : List MdlEntry) (e : MdlEntry) → find_pending pid es ≡ some e → IsFirst pid es e
unfolding find_pending
find_pending-IsFirst pid [] e h = cc
find_pending-IsFirst pid (x ∷ es) e h = elim (Bool-cases (x.pid == pid)) [
  | inl t ↦
      let same : x ≡ e = cc (rw t at h) in
      record {
        front = [];
        back = es;
        parts = ap (λ y. y ∷ es) same;
        found = subst (λ y. y.pid ≡ pid) same (ground arith);
        others = tt;
      }
  | inr f ↦
      let r = find_pending-IsFirst pid es e (rw f at h) in
      record {
        front = x ∷ r.front;
        back = r.back;
        parts = ap (λ t. x ∷ t) r.parts;
        found = r.found;
        others = ((λ q. ground arith), r.others);
      }
]

find_pending-front :
    (pid : ℕ) (front back : List MdlEntry) (e : MdlEntry)
    → e.pid ≡ pid
    → All (λ x. x.pid ≢ pid) front
    → find_pending pid (front ++ e ∷ back) ≡ some e
unfolding find_pending
find_pending-front pid [] back e h a = ground arith
find_pending-front pid (x ∷ front) back e h a =
    let rest = find_pending-front pid front back e h a.1 in ground (arith, a.0)

find_pending_iff :
    (pid : ℕ) (es : List MdlEntry) (e : MdlEntry)
    → (find_pending pid es ≡ some e) ↔ IsFirst pid es e
find_pending_iff pid es e = (
  find_pending-IsFirst pid es e,
  λ r.
      subst (λ es. find_pending pid es ≡ some e) (sym r.parts)
        (find_pending-front pid r.front r.back e r.found r.others),
)

-- The granted entry `h` blocks the pending entry `e` of the PID.
abbrev pub Blocks : ℕ → List MdlEntry → MdlEntry → MdlEntry → Type 0
Blocks pid granted h e =
    (e.lock_type ≢ [])
    × In h granted
    × (h.pid ≢ pid)
    × ((e.thread_id ≡ 0) ⊎ (h.thread_id ≢ e.thread_id))
    × IsConflict e.lock_type h.lock_type

is_self_iff :
    (pid thread_id : ℕ) (h : MdlEntry)
    → (is_self pid thread_id h ≡ false)
      ↔ ((h.pid ≢ pid) × ((thread_id ≡ 0) ⊎ (h.thread_id ≢ thread_id)))
unfolding is_self
is_self_iff pid thread_id h = ground arith

both_tests : (x y : Bool) → ((not x && y) ≡ true) ↔ ((x ≡ false) × (y ≡ true))
both_tests x y = ground arith

in_blockers_for :
    (pid : ℕ) (e h : MdlEntry) (granted : List MdlEntry)
    → In h (blockers_for pid e granted) ↔ Blocks pid granted h e
unfolding blockers_for
in_blockers_for pid e h granted = elim (Bool-cases (str_eq e.lock_type [])) [
  | inl t ↦ rw t ((λ m. absurd m), λ k. absurd (k.0 ((str_eq_iff e.lock_type []).0 t)))
  | inr f ↦
      let inside =
        In-filter_by (λ h. not (is_self pid e.thread_id h) && conflicts e.lock_type h.lock_type) h
          granted in
      let tests = both_tests (is_self pid e.thread_id h) (conflicts e.lock_type h.lock_type) in
      let self = is_self_iff pid e.thread_id h in
      let matrix = conflicts_iff e.lock_type h.lock_type in
      rw f (
        (λ m.
            let (granted, test) = inside.0 m in
            let (other, conflict) = tests.0 test in
            let (pids, threads) = self.0 other in
            (
              (λ z. cc (f, (str_eq_iff e.lock_type []).1 z)),
              granted,
              pids,
              threads,
              matrix.0 conflict,
            )),
        λ k. inside.1 (k.1, tests.1 (self.1 (k.2, k.3), matrix.1 k.4)),
      )
]

-- BlockersOf lists exactly the granted entries that belong neither to the PID nor to the thread of
-- its first pending entry, and for which that entry has to wait: its lock type is unknown to the
-- matrix, or the two types are a pair that conflicts. It lists none when the PID is not pending or
-- asks for no lock type.
pub in-blockers_of :
    (q : MdlQueue) (pid : ℕ) (h : MdlEntry)
    → In h (blockers_of q pid)
      ↔ ((e : MdlEntry) × IsFirst pid q.pending e × Blocks pid q.granted h e)
unfolding blockers_of
in-blockers_of q pid h = elim (Option-cases (find_pending pid q.pending)) [
  | inl e ↦
      rw (e, blockers_of)
        ((λ m. absurd m), λ k. let some' = (find_pending_iff pid q.pending k.0).1 k.1 in cc)
  | inr (e, found) ↦
      let both = in_blockers_for pid e h q.granted in
      rw (found, blockers_of)
        (
          (λ m. (e, find_pending-IsFirst pid q.pending e found, both.0 m)),
          λ k.
              let at_k = (find_pending_iff pid q.pending k.0).1 k.1 in
              both.1 (let same : k.0 ≡ e = cc in subst (Blocks pid q.granted h) same k.2),
        )
]
