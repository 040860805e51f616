-- ===== src/Messages/Log/Retry.antt =====
-- A post that is repeated with its key is recorded once.
use clear_wright.Prelude.{
  ℕ, String, ◌≡◌, inl, inr, refl, arith, Bool, true, false, List, [], ◌∷◌, ◌++◌, none, some, Result,
  ok, err, Option-cases, Bool-cases, eq_refl, eq_iff, ap, Option, ◌⊎◌, ends_with, is_blank,
  All-append_last, Any-append,
}
use clear_wright.Json.{Value, str, Fields, get, truthy}
use clear_wright.Messages.Log.{
  LogFile, LogFaults, WriteError, write_message, allocated, Row, rows, same_value,
  find_by_idempotency_key, Posted, same_post, posted_new, unlocked, write_message_idempotent,
  text_or_empty,
}
use clear_wright.Messages.Log.Append.{
  IsAppended, unchanged, partial, unsynced, written, write_message-IsAppended, written_name,
  rows_append, rows_partial,
}
use clear_wright.Messages.Log.OnRecord.{is_post, IsPosted, find-IsPosted, written-IsPosted}

posted_new_ok :
    (m : Fields) (x : Result WriteError String × List LogFile) (p : Posted) (left : List LogFile)
    → posted_new m x ≡ (ok p, left)
    → (name : String) × (x ≡ (ok name, left))
unfolding posted_new
posted_new_ok m (err e, files) p left h = let bad : ⊥ = ground arith in elim bad [ ]
posted_new_ok m (ok name, files) p left h = (name, ground arith)

posted_new_left :
    (m : Fields) (x : Result WriteError String × List LogFile) → (posted_new m x).1 ≡ x.1
unfolding posted_new
posted_new_left m (err e, files) = refl
posted_new_left m (ok name, files) = refl

same_value-str : (v : Value) (s : String) → same_value v (str s) ≡ true → v ≡ str s
unfolding same_value
same_value-str (str t) s h = ap str ((eq_iff t s).0 h)
same_value-str v s h = let bad : ⊥ = cc in elim bad [ ]

matches_both :
    (thread key : String) (x : Fields)
    → is_blank thread ≡ false
    → is_post (str thread) (str key) x ≡ true
    → (get x "thread_id" ≡ str thread) × (get x "idempotency_key" ≡ str key)
matches_both thread key x tb e = (
  same_value-str (get x "thread_id") thread (ground arith),
  same_value-str (get x "idempotency_key") key (ground arith),
)

module _ (decimal : ℕ → String) where
  first_post :
      (files : List LogFile) (faults : LogFaults) (contended : Bool) (m : Fields)
      (left : List LogFile)
      → truthy (get m "idempotency_key") ≡ true
      → write_message_idempotent decimal files faults contended m
        ≡ (ok (record { message = m; is_retry = false }), left)
      → (find_by_idempotency_key files (get m "thread_id") (get m "idempotency_key") ≡ none)
        × ((name : String) × (write_message decimal files faults m ≡ (ok name, left)))
  unfolding write_message_idempotent unlocked
  first_post files faults contended m left t h =
      elim (Option-cases
        (find_by_idempotency_key files (get m "thread_id") (get m "idempotency_key"))) [
          | inr (old, f) ↦ let bad : ⊥ = ground arith in elim bad [ ]
          | inl f ↦ (
            f,
            posted_new_ok m (write_message decimal files faults m)
                (record { message = m; is_retry = false }) left (ground arith),
          )
        ]

  -- A file that holds another message, or none, leaves the message posted.
  written_other :
      (files : List LogFile) (faults : LogFaults) (m x : Fields) (thread key : Value)
      → is_post thread key x ≡ false
      → IsPosted files thread key m
      → IsPosted (write_message decimal files faults x).1 thread key m
  unfolding write_message allocated
  written_other files faults m x thread key other k =
      appended (write_message decimal files faults x)
        (write_message-IsAppended decimal files faults x)
        (λ name left w. written_name decimal files faults x (get x "message_id") name left w)
    where
      whole :
          (name : String)
          → ends_with ".json" name ≡ true
          → IsPosted (files ++ (record { name = name; message = some x } ∷ [])) thread key m
      whole name j =
          let row : Row = record { at = text_or_empty (get x "at"); name = name; message = x } in
          let added = rows_append files name x j in
          record {
            only = rw (added) (
                All-append_last (λ r. is_post thread key r.message ≡ true → r.message ≡ m)
                  (rows files) row k.only (λ e. let bad : ⊥ = cc in elim bad [ ]));
            held = rw (added) (
                Any-append (λ r. is_post thread key r.message ≡ true) (rows files) (row ∷ [])
                  k.held);
          }

      appended :
          (out : Result WriteError String × List LogFile)
          → IsAppended decimal files x out
          → ((name : String) (left : List LogFile)
              → out ≡ (ok name, left)
              → (ends_with ".json" name ≡ true)
                × (left ≡ (files ++ (record { name = name; message = some x } ∷ []))))
          → IsPosted out.1 thread key m
      appended out (unchanged e) json = k
      appended out (partial e name free) json = record {
        only = rw (rows_partial files name) k.only;
        held = rw (rows_partial files name) k.held;
      }
      appended out (unsynced e name free j) json = whole name j
      appended out (written name free) json = whole name (json name _ refl).0

  unlocked_left :
      (files : List LogFile) (faults : LogFaults) (x : Fields) (o : Option Fields)
      → ((unlocked decimal files faults x o).1 ≡ files)
        ⊎ ((unlocked decimal files faults x o).1 ≡ (write_message decimal files faults x).1)
  unfolding unlocked
  unlocked_left files faults x none = inr (posted_new_left x (write_message decimal files faults x))
  unlocked_left files faults x (some old) = elim (Bool-cases (same_post old x)) [
    | inl y ↦ inl (rw y)
    | inr y ↦ inl (rw y)
  ]

  -- A post leaves the files as they are or writes its message.
  post_left :
      (files : List LogFile) (faults : LogFaults) (contended : Bool) (x : Fields)
      → ((write_message_idempotent decimal files faults contended x).1 ≡ files)
        ⊎ ((write_message_idempotent decimal files faults contended x).1
            ≡ (write_message decimal files faults x).1)
  unfolding write_message_idempotent
  post_left files faults contended x = elim (Bool-cases (truthy (get x "idempotency_key"))) [
    | inr u ↦ inr (rw (u) (posted_new_left x (write_message decimal files faults x)))
    | inl u ↦ elim (Bool-cases contended) [
      | inl c ↦ inl (rw (u, c))
      | inr c ↦
          rw (u, c)
            (unlocked_left files faults x
              (find_by_idempotency_key files (get x "thread_id") (get x "idempotency_key")))
    ]
  ]

  -- A post of a message that is on record adds nothing.
  post_again :
      (files : List LogFile) (faults : LogFaults) (contended : Bool) (m x : Fields)
      → truthy (get x "idempotency_key") ≡ true
      → find_by_idempotency_key files (get x "thread_id") (get x "idempotency_key") ≡ some m
      → (write_message_idempotent decimal files faults contended x).1 ≡ files
  unfolding write_message_idempotent unlocked
  post_again files faults contended m x t found = elim (Bool-cases contended) [
    | inl c ↦ rw (t, c)
    | inr c ↦ elim (Bool-cases (same_post m x)) [
      | inl y ↦ rw (t, c, found, y)
      | inr y ↦ rw (t, c, found, y)
    ]
  ]

  -- Behind a post, whatever it is, the message is still posted: one of the same key and thread adds
  -- nothing.
  post-IsPosted :
      (files : List LogFile) (faults : LogFaults) (contended : Bool) (m x : Fields)
      (thread key : String)
      → is_blank thread ≡ false
      → is_blank key ≡ false
      → IsPosted files (str thread) (str key) m
      → IsPosted
          (write_message_idempotent decimal files faults contended x).1
          (str thread)
          (str key)
          m
  post-IsPosted files faults contended m x thread key tb kb k =
      elim (Bool-cases (is_post (str thread) (str key) x)) [
        | inl e ↦
            let (xt, xk) = matches_both thread key x tb e in
            let found = find-IsPosted files m (str thread) (str key) (ground arith) k in
            rw (post_again files faults contended m x (rw (xk) (ground arith)) (rw (xt, xk) found))
              k
        | inr e ↦ elim (post_left files faults contended x) [
          | inl same ↦ rw (same) k
          | inr same ↦ rw (same) (written_other files faults m x (str thread) (str key) e k)
        ]
      ]

  -- The files behind any number of posts and of writes of messages that have not both that thread and
  -- that key, with any failures.
  pub data Grows (thread key : String) (files : List LogFile) : List LogFile → Type 0 where
    start : Grows thread key files files
    then_post :
        {left : List LogFile} (faults : LogFaults) (contended : Bool) (m : Fields)
        → Grows thread key files left
        → Grows thread key files (write_message_idempotent decimal left faults contended m).1
    then_write :
        {left : List LogFile} (faults : LogFaults) (m : Fields)
        → is_post (str thread) (str key) m ≡ false
        → Grows thread key files left
        → Grows thread key files (write_message decimal left faults m).1

  Grows-IsPosted :
      (thread key : String) (m : Fields) (files left : List LogFile)
      → is_blank thread ≡ false
      → is_blank key ≡ false
      → IsPosted files (str thread) (str key) m
      → Grows thread key files left
      → IsPosted left (str thread) (str key) m
  Grows-IsPosted thread key m files _ tb kb k start = k
  Grows-IsPosted thread key m files _ tb kb k (then_post {left} faults contended x g) =
      post-IsPosted left faults contended m x thread key tb kb
        (Grows-IsPosted thread key m files left tb kb k g)
  Grows-IsPosted thread key m files _ tb kb k (then_write {left} faults x other g) =
      written_other left faults m x (str thread) (str key) other
        (Grows-IsPosted thread key m files left tb kb k g)

  -- A post with a key that was recorded as new is found by every later post with its key, thread,
  -- work item and content: whatever was posted in between, and whatever was written without that key
  -- or thread, and whatever the system calls would do, the later post adds nothing and answers with the
  -- message on record, where nothing is removed from the log in between, the thread's lock is to be
  -- had, and the key and the thread are texts that are not blank.
  pub write_message_idempotent_retry :
      (files : List LogFile) (faults later : LogFaults) (contended : Bool) (m again : Fields)
      (left now : List LogFile) (key thread : String)
      → get m "idempotency_key" ≡ str key
      → is_blank key ≡ false
      → get m "thread_id" ≡ str thread
      → is_blank thread ≡ false
      → get again "idempotency_key" ≡ str key
      → get again "thread_id" ≡ str thread
      → same_post m again ≡ true
      → write_message_idempotent decimal files faults contended m
        ≡ (ok (record { message = m; is_retry = false }), left)
      → Grows thread key left now
      → write_message_idempotent decimal now later false again
        ≡ (ok (record { message = m; is_retry = true }), now)
  unfolding write_message_idempotent unlocked same_value allocated write_message
  write_message_idempotent_retry files faults later contended m again left now key thread mk kb mt
        tb ak at same h g =
      let keyed : truthy (get m "idempotency_key") ≡ true = ground arith in
      let (absent, (name, w)) = first_post files faults contended m left keyed h in
      let (json, eq) = written_name decimal files faults m (get m "message_id") name left w in
      let match : is_post (str thread) (str key) m ≡ true =
        ground (arith, eq_refl key, eq_refl thread) in
      let posted =
        written-IsPosted files m name (str thread) (str key) (ground arith) json match
          (rw (mk, mt) at absent) in
      let still = Grows-IsPosted thread key m left now tb kb (rw (eq) posted) g in
      let found = find-IsPosted now m (str thread) (str key) (ground arith) still in
      ground (arith, found)
