-- ===== src/Messages/Log/OnRecord.antt =====
-- The one message of the log that has a thread and a key.
use clear_wright.Prelude.{
  String, ◌≡◌, inl, inr, refl, sym, ◌∙◌, arith, Bool, true, false, ◌&&◌, List, [], ◌∷◌, ◌++◌, none,
  some, map, All, Any, Bool-cases, sort_by, All-sort_by, Any-sort_by, if◌then◌else◌, ends_with,
  All-map, Any-map, All-append_last, Any-append_last, All-weaken,
}
use clear_wright.Json.{Value, Fields, get, truthy}
use clear_wright.Messages.Log.{
  LogFile, Row, rows, row_before, all_messages, same_value, keep, filtered, most_recent,
  read_messages, first_match, find_by_idempotency_key, text_or_empty,
}
use clear_wright.Messages.Log.Append.{rows_append}

module _ (p : Fields → Bool) where
  first_match-none : (ms : List Fields) → first_match p ms ≡ none → All (λ m. p m ≡ false) ms
  unfolding first_match
  first_match-none [] h = tt
  first_match-none (m ∷ ms) h = elim (Bool-cases (p m)) [
    | inl e ↦ let bad : ⊥ = ground arith in elim bad [ ]
    | inr e ↦ (e, first_match-none ms (rw (e, first_match) at h))
  ]

  -- A message that is the only one to match is the first to match.
  first_match_only :
      (x : Fields) (ms : List Fields)
      → All (λ m. p m ≡ true → m ≡ x) ms
      → Any (λ m. p m ≡ true) ms
      → first_match p ms ≡ some x
  unfolding first_match
  first_match_only x [] only m = elim m [ ]
  first_match_only x (y ∷ ms) only found = elim (Bool-cases (p y)) [
    | inl e ↦ rw (e, only.0 e) refl
    | inr e ↦ rw (e) (
        first_match_only x ms only.1
          (elim found [ inl q ↦ let bad : ⊥ = cc in elim bad [ ] | inr rest ↦ rest ]))
  ]

  first_match-keep :
      (q : Fields → Bool) (ms : List Fields)
      → first_match p (keep q ms) ≡ first_match (λ m. q m && p m) ms
  unfolding first_match keep
  first_match-keep q [] = refl
  first_match-keep q (m ∷ ms) = ground (arith, first_match-keep q ms)

-- What `find_by_idempotency_key` looks for.
abbrev pub is_post : Value → Value → Fields → Bool
is_post thread key =
    if truthy thread
    then (λ m. same_value (get m "thread_id") thread && same_value (get m "idempotency_key") key)
    else (λ m. same_value (get m "idempotency_key") key)

find-is_post :
    (files : List LogFile) (thread key : Value)
    → truthy key ≡ true
    → find_by_idempotency_key files thread key
      ≡ first_match (is_post thread key) (all_messages files)
unfolding find_by_idempotency_key read_messages filtered most_recent
find-is_post files thread key h = elim (Bool-cases (truthy thread)) [
  | inl t ↦
      rw (h, t)
        (first_match-keep (λ m. same_value (get m "idempotency_key") key)
          (λ m. same_value (get m "thread_id") thread) (all_messages files))
  | inr t ↦ rw (h, t) refl
]

-- The message is in the log, and no other one has its thread and its key.
pub record IsPosted (files : List LogFile) (thread key : Value) (m : Fields) : Type 0 where
  pub only : All (λ r. is_post thread key r.message ≡ true → r.message ≡ m) (rows files)
  pub held : Any (λ r. is_post thread key r.message ≡ true) (rows files)

-- It is then the one that is found.
pub find-IsPosted :
    (files : List LogFile) (m : Fields) (thread key : Value)
    → truthy key ≡ true
    → IsPosted files thread key m
    → find_by_idempotency_key files thread key ≡ some m
unfolding all_messages
find-IsPosted files m thread key t k =
    let p = is_post thread key in
    let sorted = sort_by row_before (rows files) in
    find-is_post files thread key t
    ∙ first_match_only p m (map (λ r. r.message) sorted)
        ((All-map (λ r. r.message) (λ x. p x ≡ true → x ≡ m) sorted).1 (
          (All-sort_by row_before (λ r. p r.message ≡ true → r.message ≡ m) (rows files)).0 k.only))
        (Any-map (λ r. r.message) (λ x. p x ≡ true) sorted
          (Any-sort_by row_before (λ r. p r.message ≡ true) (rows files) k.held))

-- A message that is written where none matches is posted.
pub written-IsPosted :
    (files : List LogFile) (m : Fields) (name : String) (thread key : Value)
    → truthy key ≡ true
    → ends_with ".json" name ≡ true
    → is_post thread key m ≡ true
    → find_by_idempotency_key files thread key ≡ none
    → IsPosted (files ++ (record { name = name; message = some m } ∷ [])) thread key m
unfolding all_messages
written-IsPosted files m name thread key t json match absent =
    let p = is_post thread key in
    let row : Row = record { at = text_or_empty (get m "at"); name = name; message = m } in
    let unmatched =
      first_match-none p (all_messages files) (sym (find-is_post files thread key t) ∙ absent) in
    let old_rows = (All-sort_by row_before (λ r. p r.message ≡ false) (rows files)).1 (
      (All-map (λ r. r.message) (λ x. p x ≡ false) (sort_by row_before (rows files))).0
        unmatched) in
    let only_old =
      All-weaken (λ r. p r.message ≡ false) (λ r. p r.message ≡ true → r.message ≡ m) (rows files)
        (λ r e f. let bad : ⊥ = cc in elim bad [ ]) old_rows in
    record {
      only = rw (rows_append files name m json) (
          All-append_last (λ r. p r.message ≡ true → r.message ≡ m) (rows files) row only_old
            (λ e. refl));
      held =
          rw (rows_append files name m json)
            (Any-append_last (λ r. p r.message ≡ true) (rows files) row match);
    }
