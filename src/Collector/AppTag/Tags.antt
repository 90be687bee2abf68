-- ===== src/Collector/AppTag/Tags.antt =====
-- apptag.go: when the parser panics, and what the tag is when it does not.
use mysqlmonitoring.Prelude.{
  ℕ, suc, ◌≡◌, ◌≤◌, subst, refl, true, false, Option, none, some, List, [], ◌∷◌, arith, Str,
  Bool-cases, Option-cases, ◌⊎◌, ◌↔◌, inl, inr, codes, has_prefix, str_eq, str_eq_iff, trim_space,
  ltb, length, if◌then◌else◌,
}
use mysqlmonitoring.Collector.AppTag.{
  CurrentStmt, Pairs, set_pair, get_pair, add_pair, add_pairs, parse_body, parse_comment, decode,
  index, slice, split_kv, split_pairs, trim_blank, parse_sql_comment, service_of, resolve_app_tag,
  or_program, app_tag_unknown,
}

not_below : (i : ℕ) → 2 ≤ i → ltb i 2 ≡ false
not_below i h = ground arith

open_shape : (s : Str) → has_prefix s (codes "/*") ≡ true → (t : Str) × (s ≡ 47 ∷ 42 ∷ t)
unfolding has_prefix
open_shape [] h = absurd (ground arith)
open_shape (c ∷ []) h = absurd (ground arith)
open_shape (c ∷ d ∷ t) h = (t, ground arith)

open_shorter : (s : Str) → has_prefix s (codes "/*/") ≡ true → has_prefix s (codes "/*") ≡ true
unfolding has_prefix
open_shorter [] h = h
open_shorter (c ∷ []) h = ground arith
open_shorter (c ∷ d ∷ t) h = ground arith

-- The end of a comment is found at byte 1 if it opens with /*/, and behind that otherwise.
index-open :
    (t : Str)
    → index (47 ∷ 42 ∷ t) (codes "*/") ≡ (
        if has_prefix t (47 ∷ [])
        then some 1
        else elim (index t (codes "*/")) [ none ↦ none | some i ↦ some (suc (suc i)) ])
unfolding index has_prefix
index-open t = ground arith

module _ (unescape : Str → Option Str) where
  parse_comment-open :
      (t : Str) → (parse_comment unescape (47 ∷ 42 ∷ t) ≡ none) ↔ (has_prefix t (47 ∷ []) ≡ true)
  unfolding parse_comment slice
  parse_comment-open t =
      rw (parse_comment, index-open t)
        (elim (Bool-cases (has_prefix t (47 ∷ []))) [
          | inl e ↦ rw e (λ x. refl, λ x. refl)
          | inr e ↦ rw e (elim (Option-cases (index t (codes "*/"))) [
            | inl f ↦ rw f (λ x. ground arith, λ x. ground arith)
            | inr (i, f) ↦
                rw (f, not_below (suc (suc i)) (omega arith)) (λ x. ground arith, λ x. ground arith)
          ])
        ])

  -- ParseSQLComment panics exactly on a text that begins with /*/ after blanks.
  pub parse_sql_comment-panics :
      (sql : Str)
      → (parse_sql_comment unescape sql ≡ none) ↔ (has_prefix (trim_blank sql) (codes "/*/") ≡ true)
  unfolding parse_sql_comment has_prefix
  parse_sql_comment-panics sql = elim (Bool-cases (has_prefix (trim_blank sql) (codes "/*"))) [
    | inl e ↦
        let shape = open_shape (trim_blank sql) e in
        let opened = parse_comment-open shape.0 in rw (e, shape.1) opened
    | inr e ↦
        let shorter = open_shorter (trim_blank sql) in rw e (λ x. ground arith, λ x. ground arith)
  ]

-- Every pair has a key and a value that are not empty.
abbrev IsNamed : Pairs → Type 0
IsNamed [] = Unit {0}
IsNamed ((k, v) ∷ out) = (str_eq k [] ≡ false) × (str_eq v [] ≡ false) × IsNamed out

abbrev AllNamed : Option Pairs → Type 0
AllNamed none = Unit {0}
AllNamed (some pairs) = IsNamed pairs

set_pair-IsNamed :
    (k v : Str) (out : Pairs)
    → str_eq k [] ≡ false
    → str_eq v [] ≡ false
    → IsNamed out
    → IsNamed (set_pair k v out)
unfolding set_pair
set_pair-IsNamed k v [] h g n = (h, g, tt)
set_pair-IsNamed k v ((j, w) ∷ out) h g n = elim (Bool-cases (str_eq j k)) [
  | inl e ↦ rw e (n.0, g, n.2)
  | inr e ↦ rw e (n.0, n.1, set_pair-IsNamed k v out h g n.2)
]

get_pair-IsNamed :
    (k v : Str) (out : Pairs) → IsNamed out → get_pair k out ≡ some v → str_eq v [] ≡ false
unfolding get_pair
get_pair-IsNamed k v [] n e = absurd (ground arith)
get_pair-IsNamed k v ((j, w) ∷ out) n e = elim (Bool-cases (str_eq j k)) [
  | inl f ↦ ground arith
  | inr f ↦ get_pair-IsNamed k v out n.2 (ground arith)
]

service_of-named :
    (stmt : CurrentStmt) (pairs : Pairs)
    → IsNamed pairs
    → (tag : Str) × (some (service_of stmt pairs) ≡ some tag)
      × (str_eq tag [] ≡ false)
      × ((get_pair (codes "service") pairs ≡ some tag)
          ⊎ ((get_pair (codes "service") pairs ≡ none)
              × (tag
                  ≡ (if str_eq stmt.program_name [] then app_tag_unknown else stmt.program_name))))
unfolding service_of str_eq
service_of-named stmt pairs n = elim (Option-cases (get_pair (codes "service") pairs)) [
  | inl e ↦ (or_program stmt, rw (service_of, e) refl, ground arith, inr (e, refl))
  | inr (v, e) ↦
      let some_v = get_pair-IsNamed (codes "service") v pairs n e in
      (v, rw (service_of, e, some_v) refl, some_v, inl e)
]

module _ (unescape : Str → Option Str) where
  add_pair-IsNamed : (pair : Str) (out : Pairs) → IsNamed out → IsNamed (add_pair unescape pair out)
  unfolding add_pair
  add_pair-IsNamed pair out n = elim (Option-cases (split_kv pair)) [
    | inl e ↦ rw (add_pair, e) n
    | inr (kv, e) ↦
        rw (add_pair, e)
          (elim (Bool-cases (str_eq (trim_space kv.0) [])) [
            | inl f ↦ rw f n
            | inr f ↦ rw f (elim (Bool-cases (str_eq (decode unescape (trim_space kv.1)) [])) [
              | inl g ↦ rw g n
              | inr g ↦
                  rw g (
                    set_pair-IsNamed (trim_space kv.0) (decode unescape (trim_space kv.1)) out f g
                      n)
            ])
          ])
  ]

  add_pairs-IsNamed :
      (pairs : List Str) (out : Pairs) → IsNamed out → IsNamed (add_pairs unescape pairs out)
  unfolding add_pairs
  add_pairs-IsNamed [] out n = n
  add_pairs-IsNamed (pair ∷ pairs) out n =
      add_pairs-IsNamed pairs (add_pair unescape pair out) (add_pair-IsNamed pair out n)

  parse_body-IsNamed : (body : Str) → IsNamed (parse_body unescape body)
  unfolding parse_body
  parse_body-IsNamed body = elim (Bool-cases (ltb 1024 (length body))) [
    | inl e ↦ rw (parse_body, e) tt
    | inr e ↦ rw (parse_body, e) (add_pairs-IsNamed (split_pairs body) [] tt)
  ]

  parse_comment-IsNamed : (s : Str) → AllNamed (parse_comment unescape s)
  unfolding parse_comment
  parse_comment-IsNamed s = elim (Option-cases (index s (codes "*/"))) [
    | inl e ↦ rw (parse_comment, e) tt
    | inr (end, e) ↦ elim (Option-cases (slice s 2 end)) [
      | inl f ↦ rw (parse_comment, e, f) tt
      | inr (body, f) ↦ rw (parse_comment, e, f) (parse_body-IsNamed body)
    ]
  ]

  parse-IsNamed : (sql : Str) → AllNamed (parse_sql_comment unescape sql)
  unfolding parse_sql_comment
  parse-IsNamed sql = elim (Bool-cases (has_prefix (trim_blank sql) (codes "/*"))) [
    | inl e ↦ rw (parse_sql_comment, e) (parse_comment-IsNamed (trim_blank sql))
    | inr e ↦ rw (parse_sql_comment, e) tt
  ]

  -- The early return for an empty text is what its empty list of pairs gives.
  resolve_app_tag-parsed :
      (stmt : CurrentStmt) (pairs : Pairs)
      → parse_sql_comment unescape stmt.sql_text ≡ some pairs
      → resolve_app_tag unescape stmt ≡ some (service_of stmt pairs)
  unfolding parse_sql_comment has_prefix trim_blank resolve_app_tag service_of get_pair str_eq
  resolve_app_tag-parsed stmt pairs e = elim (Bool-cases (str_eq stmt.sql_text [])) [
    | inl f ↦
        let empty : stmt.sql_text ≡ [] = (str_eq_iff stmt.sql_text []).0 f in
        let parsed : some [] ≡ some pairs =
          subst (λ t. parse_sql_comment unescape t ≡ some pairs) empty e in
        let no_pair : pairs ≡ [] = ground arith in rw (resolve_app_tag, f, no_pair) refl
    | inr f ↦ rw (resolve_app_tag, f, e) refl
  ]

  -- When the comment does not make ParseSQLComment panic, ResolveAppTag gives a tag that is not
  -- empty: the value of the comment's service key, or, when it has no such key, the program name,
  -- or unknown when that is empty.
  pub resolve_app_tag-named :
      (stmt : CurrentStmt) (pairs : Pairs)
      → parse_sql_comment unescape stmt.sql_text ≡ some pairs
      → (tag : Str) × (resolve_app_tag unescape stmt ≡ some tag)
        × (str_eq tag [] ≡ false)
        × ((get_pair (codes "service") pairs ≡ some tag)
            ⊎ ((get_pair (codes "service") pairs ≡ none)
                × (tag ≡ (
                    if str_eq stmt.program_name [] then app_tag_unknown else stmt.program_name))))
  resolve_app_tag-named stmt pairs e =
      let parsed : IsNamed pairs = subst AllNamed e (parse-IsNamed stmt.sql_text) in
      rw (resolve_app_tag-parsed stmt pairs e) (service_of-named stmt pairs parsed)
