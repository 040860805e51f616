-- ===== src/Messages/Log.antt =====
-- The message log: the files of a queue's communications directory, and how
-- tools/clearwright_message.py writes, reads and repeats messages. A step that holds a lock is one
-- step. The order of `os.listdir` is that of the list; nothing depends on it. A time that is no text
-- sorts as the empty one, and values that are no texts are unequal but for `None`; `build_message`
-- writes neither.
pub mod Append
pub mod OnRecord
pub mod Retry
use clear_wright.Prelude.{
  ℕ, String, suc, zero, ◌-◌, Bool, true, false, not, ◌&&◌, ◌||◌, List, [], ◌∷◌, ◌++◌, Option, none,
  some, str_eq, if◌then◌else◌, ◌==◌, any, length, text_ltb, ends_with, concat, sort_by, map, Result,
  ok, err,
}
use clear_wright.Json.{Value, null, str, Fields, get, truthy}

-- A file of the directory; one that cannot be read or parsed has no message.
pub record LogFile : Type 0 where
  pub name : String
  pub message : Option Fields

pub data WriteError : Type 0 where
  no_message_id maintenance_in_progress create_failed write_failed no_free_name : WriteError

-- Whether an archive operation holds the queue, and which system calls fail: the creation of the
-- file, the writing of its text, and what follows the last byte, such as `fsync`.
pub record LogFaults : Type 0 where
  pub in_maintenance : Bool
  pub create : Bool
  pub write : Bool
  pub sync : Bool

unfoldable pub is_taken : String → List LogFile → Bool
is_taken name files = any (λ f. str_eq f.name name) files

module _ (decimal : ℕ → String) where
  candidate_name : String → ℕ → String
  candidate_name base attempt =
      if attempt == 0
      then concat base ".json"
      else concat base (concat "-" (concat (decimal attempt) ".json"))

  -- The first name that no file has; the second number is that of the attempts left.
  unfoldable pub free_name : List LogFile → String → ℕ → ℕ → Option String
  unfolding candidate_name
  free_name files base attempt zero = none
  free_name files base attempt (suc left) = elim (is_taken (candidate_name base attempt) files) [
    | true ↦ free_name files base (suc attempt) left
    | false ↦ some (candidate_name base attempt)
  ]

  -- An interrupted write leaves a file that cannot be parsed, and a failure behind the last byte the
  -- whole message.
  created :
      List LogFile → LogFaults → Fields → Option String → Result WriteError String × List LogFile
  created files faults m none = (err no_free_name, files)
  created files faults m (some name) =
      if faults.write
      then (err write_failed, files ++ (record { name = name; message = none } ∷ []))
      else if faults.sync
      then (err write_failed, files ++ (record { name = name; message = some m } ∷ []))
      else (ok name, files ++ (record { name = name; message = some m } ∷ []))

  pub allocated :
      List LogFile → LogFaults → Fields → Value → Result WriteError String × List LogFile
  unfolding created
  allocated files faults m (str base) =
      if faults.in_maintenance
      then (err maintenance_in_progress, files)
      else if faults.create
      then (err create_failed, files)
      else created files faults m (free_name files base 0 1000)
  allocated files faults m _ = (err no_message_id, files)

  unfoldable pub write_message :
      List LogFile → LogFaults → Fields → Result WriteError String × List LogFile
  unfolding allocated
  write_message files faults m = allocated files faults m (get m "message_id")

pub record Row : Type 0 where
  pub at : String
  pub name : String
  pub message : Fields

pub text_or_empty : Value → String
text_or_empty (str s) = s
text_or_empty _ = ""

add_row : LogFile → Option Fields → List Row → List Row
unfolding text_or_empty
add_row f none rest = rest
add_row f (some m) rest =
    if ends_with ".json" f.name
    then record { at = text_or_empty (get m "at"); name = f.name; message = m } ∷ rest
    else rest

unfoldable pub rows : List LogFile → List Row
unfolding add_row
rows [] = []
rows (f ∷ fs) = add_row f f.message (rows fs)

unfoldable pub row_before : Row → Row → Bool
row_before a b = text_ltb a.at b.at || (str_eq a.at b.at && text_ltb a.name b.name)

unfoldable pub all_messages : List LogFile → List Fields
all_messages files = map (λ r. r.message) (sort_by row_before (rows files))

-- `a == b`
unfoldable pub same_value : Value → Value → Bool
same_value null null = true
same_value (str s) (str t) = str_eq s t
same_value _ _ = false

unfoldable pub keep : (Fields → Bool) → List Fields → List Fields
keep p [] = []
keep p (m ∷ ms) = let rest = keep p ms in if p m then m ∷ rest else rest

-- The filter of a key, where a value is given.
unfoldable pub filtered : String → Value → List Fields → List Fields
filtered key v ms = if truthy v then keep (λ m. same_value (get m key) v) ms else ms

drop : ℕ → List Fields → List Fields
drop zero ms = ms
drop (suc n) [] = []
drop (suc n) (m ∷ ms) = drop n ms

-- `messages[-limit:]`
unfoldable pub most_recent : Option ℕ → List Fields → List Fields
unfolding drop
most_recent none ms = ms
most_recent (some n) ms = if n == 0 then ms else drop (length ms - n) ms

unfoldable pub read_messages : List LogFile → Value → Value → Option ℕ → List Fields
read_messages files packet_id thread_id limit =
    most_recent limit
      (filtered "thread_id" thread_id (filtered "packet_id" packet_id (all_messages files)))

unfoldable pub first_match : (Fields → Bool) → List Fields → Option Fields
first_match p [] = none
first_match p (m ∷ ms) = let rest = first_match p ms in if p m then some m else rest

unfoldable pub find_by_message_id : List LogFile → Value → Value → Option Fields
find_by_message_id files thread_id id =
    first_match (λ m. same_value (get m "message_id") id) (read_messages files null thread_id none)

unfoldable pub find_by_idempotency_key : List LogFile → Value → Value → Option Fields
find_by_idempotency_key files thread_id key =
    if truthy key
    then first_match (λ m. same_value (get m "idempotency_key") key)
        (read_messages files null thread_id none)
    else none

pub data PostError : Type 0 where
  lock_contended : PostError
  idempotency_conflict : Fields → PostError
  not_written : WriteError → PostError

-- The message that is on record, and whether it was there before.
pub record Posted : Type 0 where
  pub message : Fields
  pub is_retry : Bool

unfoldable pub same_post : Fields → Fields → Bool
same_post a b =
    same_value (get a "work_item_id") (get b "work_item_id")
    && same_value (get a "message") (get b "message")

posted_new :
    Fields → Result WriteError String × List LogFile → Result PostError Posted × List LogFile
posted_new m (err e, files) = (err (not_written e), files)
posted_new m (ok name, files) = (ok (record { message = m; is_retry = false }), files)

module _ (decimal : ℕ → String) where
  unlocked :
      List LogFile → LogFaults → Fields → Option Fields → Result PostError Posted × List LogFile
  unfolding posted_new
  unlocked files faults m none = posted_new m (write_message decimal files faults m)
  unlocked files faults m (some old) =
      if same_post old m
      then (ok (record { message = old; is_retry = true }), files)
      else (err (idempotency_conflict old), files)

  -- `contended` says that the thread's lock is not to be had in time.
  unfoldable pub write_message_idempotent :
      List LogFile → LogFaults → Bool → Fields → Result PostError Posted × List LogFile
  unfolding unlocked posted_new
  write_message_idempotent files faults contended m =
      let key = get m "idempotency_key" in
      if truthy key
      then (if contended
          then (err lock_contended, files)
          else unlocked files faults m (find_by_idempotency_key files (get m "thread_id") key))
      else posted_new m (write_message decimal files faults m)
