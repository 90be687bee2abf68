-- ===== src/Tui/Updates/LockTree.antt =====
-- model.go: the cursor of the lock tree, over a poll and the keys that move it.
use mysqlmonitoring.Prelude.{
  ℕ, suc, ◌+◌, ◌≡◌, ◌∙◌, subst, refl, Bool, true, false, ◌&&◌, not, Option, none, some, List, [],
  ◌∷◌, arith, ltb, length, Bool-cases, inl, inr, ◌⊎◌, if◌then◌else◌,
}
use mysqlmonitoring.Monitor.{Result}
use mysqlmonitoring.Tui.Tree.{TreeEntry, build_tree_entries}
use mysqlmonitoring.Tui.Tree.First.{BeginsWithBlocker, build_tree_entries-Begins}
use mysqlmonitoring.Tui.Keys.{
  Key, key_k, key_j, up, down, key_kk, World, Model, blocker_before, blocker_behind,
  handle_lock_key, ask_kill, tree_entries,
}
use mysqlmonitoring.Tui.Updates.{clamp, is_blocker_at, on_result}
use mysqlmonitoring.Tui.Updates.Ranges.{snap-blocker}

tail_row :
    (e : TreeEntry) (es : List TreeEntry) (j : ℕ)
    → is_blocker_at (e ∷ es) (suc j) ≡ is_blocker_at es j
unfolding is_blocker_at
tail_row e es j = ground arith

-- A property of the rows of a part of the tree, which begins at place `i`.
abbrev Holds : (ℕ → Type 0) → List TreeEntry → ℕ → Type 0
Holds P entries i = (j : ℕ) → is_blocker_at entries j ≡ true → P (i + j)

Holds-behind :
    (P : ℕ → Type 0) (e : TreeEntry) (es : List TreeEntry) (i : ℕ)
    → Holds P (e ∷ es) i
    → Holds P es (i + 1)
unfolding is_blocker_at
Holds-behind P e es i h j b = subst P (omega arith) (h (suc j) (tail_row e es j ∙ b))

Holds-first :
    (P : ℕ → Type 0) (e : TreeEntry) (es : List TreeEntry) (i : ℕ)
    → Holds P (e ∷ es) i
    → e.is_blocker ≡ true
    → P i
unfolding is_blocker_at
Holds-first P e es i h b = subst P (omega arith) (h 0 b)

-- The search before the cursor ends at a blocker, or where it began.
before-blocker :
    (w : World) (P : ℕ → Type 0) (es : List TreeEntry) (i limit found : ℕ)
    → Holds P es i
    → P found
    → P (blocker_before w es i limit found)
unfolding blocker_before
before-blocker w P [] i limit found h p = p
before-blocker w P (e ∷ es) i limit found h p =
    before-blocker w P es (i + 1) limit (if ltb i limit && e.is_blocker then i else found)
      (Holds-behind P e es i h)
      (elim (Bool-cases (ltb i limit && e.is_blocker)) [
        | inl b ↦ rw b (Holds-first P e es i h (ground arith))
        | inr b ↦ rw b p
      ])

behind-blocker :
    (w : World) (P : ℕ → Type 0) (es : List TreeEntry) (i limit n : ℕ)
    → Holds P es i
    → blocker_behind w es i limit ≡ some n
    → P n
unfolding blocker_behind
behind-blocker w P [] i limit n h e = absurd (ground arith)
behind-blocker w P (t ∷ es) i limit n h e = elim (Bool-cases (ltb limit i && t.is_blocker)) [
  | inl b ↦ subst P (ground arith) (Holds-first P t es i h (ground arith))
  | inr b ↦ behind-blocker w P es (i + 1) limit n (Holds-behind P t es i h) (ground arith)
]

-- The cursor of the model stands on a blocker of the lock tree.
abbrev pub OnBlocker : World → Model → Type 0
OnBlocker w m = is_blocker_at (tree_entries w m) m.cursor ≡ true

up-OnBlocker :
    (w : World) (m : Model)
    → OnBlocker w m
    → is_blocker_at (tree_entries w m) (blocker_before w (tree_entries w m) 0 m.cursor m.cursor)
      ≡ true
up-OnBlocker w m p =
    let es = tree_entries w m in
    before-blocker w (λ i. is_blocker_at es i ≡ true) es 0 m.cursor m.cursor
      (λ j b. subst (λ k. is_blocker_at es k ≡ true) (omega arith) b) p

down-OnBlocker :
    (w : World) (m : Model) (i : ℕ)
    → blocker_behind w (tree_entries w m) 0 m.cursor ≡ some i
    → is_blocker_at (tree_entries w m) i ≡ true
down-OnBlocker w m i e =
    let es = tree_entries w m in
    behind-blocker w (λ i. is_blocker_at es i ≡ true) es 0 m.cursor i
      (λ j b. subst (λ k. is_blocker_at es k ≡ true) (omega arith) b) e

-- The down key's case, by what the search has found.
down_to-OnBlocker :
    (w : World) (m : Model) (o : Option ℕ)
    → blocker_behind w (tree_entries w m) 0 m.cursor ≡ o
    → OnBlocker w m
    → OnBlocker w (elim o [ none ↦ m | some i ↦ record m { cursor = i } ])
down_to-OnBlocker w m none e p = p
down_to-OnBlocker w m (some i) e p = down-OnBlocker w m i e

ask_kill-OnBlocker :
    (w : World) (m : Model) (o : Option TreeEntry) (killer : Bool)
    → OnBlocker w m
    → OnBlocker w (elim o [ none ↦ m | some e ↦ if killer then ask_kill e.pid m else m ])
ask_kill-OnBlocker w m none killer p = p
ask_kill-OnBlocker w m (some e) true p = p
ask_kill-OnBlocker w m (some e) false p = p

pub lock_key-OnBlocker :
    (w : World) (key : Key) (m : Model) → OnBlocker w m → OnBlocker w (handle_lock_key w key m)
unfolding handle_lock_key
lock_key-OnBlocker w up m p = up-OnBlocker w m p
lock_key-OnBlocker w key_k m p = up-OnBlocker w m p
lock_key-OnBlocker w down m p = down_to-OnBlocker w m _ refl p
lock_key-OnBlocker w key_j m p = down_to-OnBlocker w m _ refl p
lock_key-OnBlocker w key_kk m p = ask_kill-OnBlocker w m _ m.has_killer p
lock_key-OnBlocker w _ m p = p

some_row : (es : List TreeEntry) → is_blocker_at es 0 ≡ true → ltb 0 (length es) ≡ true
unfolding is_blocker_at
some_row [] b = absurd (ground arith)
some_row (e ∷ es) b = ground arith

on_result-OnBlocker :
    (w : World) (r : Result) (m : Model)
    → is_blocker_at (build_tree_entries w.root_order r.snapshot) 0 ≡ true
    → OnBlocker w (on_result w r m)
unfolding on_result
on_result-OnBlocker w r m b =
    let es = build_tree_entries w.root_order r.snapshot in
    let c = clamp (length es) m.cursor in
    let snapped = snap-blocker es c b in
    let row = some_row es b in
    elim (Bool-cases (ltb 0 (length es) && not (is_blocker_at es c))) [
      | inl e ↦ rw e snapped
      | inr e ↦ rw e (ground arith)
    ]

-- The keys that are pressed in the lock tree.
abbrev pub lock_keys : World → List Key → Model → Model
lock_keys w [] m = m
lock_keys w (key ∷ keys) m = lock_keys w keys (handle_lock_key w key m)

lock_keys-OnBlocker :
    (w : World) (keys : List Key) (m : Model) → OnBlocker w m → OnBlocker w (lock_keys w keys m)
lock_keys-OnBlocker w [] m p = p
lock_keys-OnBlocker w (key ∷ keys) m p =
    lock_keys-OnBlocker w keys (handle_lock_key w key m) (lock_key-OnBlocker w key m p)

first-blocker : (es : List TreeEntry) → BeginsWithBlocker es → is_blocker_at es 0 ≡ true
unfolding is_blocker_at
first-blocker [] b = absurd b
first-blocker (e ∷ es) b = b

-- After a poll the lock tree is empty, or the cursor stands on a blocker of it, and no sequence of
-- keys in the lock tree moves it to a connection that only waits.
pub lock_keys-on_result :
    (w : World) (keys : List Key) (r : Result) (m : Model)
    → (build_tree_entries w.root_order r.snapshot ≡ [])
      ⊎ OnBlocker w (lock_keys w keys (on_result w r m))
lock_keys-on_result w keys r m = elim (build_tree_entries-Begins w.root_order r.snapshot) [
  | inl e ↦ inl e
  | inr b ↦ inr (
      lock_keys-OnBlocker w keys (on_result w r m)
        (on_result-OnBlocker w r m (first-blocker (build_tree_entries w.root_order r.snapshot) b)))
]
