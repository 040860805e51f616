-- ===== src/Alf/Journal.antt =====
-- The writes of one journalled operation: staged bytes that are applied in turn, in a commit and
-- again in a recovery (`_apply_staged_write` of tools/clearwright_alf.py, and the loops over it). The
-- files are a function from targets to contents. `json.loads` and `sha256` are parameters; the
-- check that a target lies under the root of the store is not modelled.
pub mod Recovery
pub mod Recover
use clear_wright.Prelude.{
  ℕ, String, zero, suc, ◌+◌, Bool, true, false, ◌&&◌, List, [], ◌∷◌, Option, none, some, str_eq,
  if◌then◌else◌, ◌==◌, length, Result, ok, err, concat,
}
use clear_wright.Json.{Value, str, Fields, get}
use clear_wright.Messages.Log.{same_value}
use clear_wright.Alf.Findings.{at_entry}
use clear_wright.Alf.Lines.{whole_part, complete_lines, valid_records}

pub record Codec : Type 0 where
  pub parse : String → Option Fields
  pub sha256 : String → String

-- A staged write: the bytes of a line for a chained file, its newline included, with its place in
-- the chain, counted from 0, and the hash of the line before; or the bytes of a file, with the hash of what they replace, if anything.
pub data Staged : Type 0 where
  append_line : String → String → ℕ → String → Staged
  replace_file : String → String → Option String → Staged

-- IntegrityHalt
pub data Halt : Type 0 where
  append_divergence replace_divergence : String → Halt

abbrev pub Files : Type 0
Files = String → Option String

abbrev pub target : Staged → String
target (append_line t bytes place prev) = t
target (replace_file t bytes old) = t

unfoldable pub content : Option String → String
content none = ""
content (some s) = s

-- SENTINEL
abbrev pub sentinel : String
sentinel = "0000000000000000000000000000000000000000000000000000000000000000"

unfoldable pub hash_of : Fields → Value
hash_of r = get r "line_sha256"

unfoldable pub nth : ℕ → List Fields → Option Fields
nth n [] = none
nth zero (r ∷ rs) = some r
nth (suc n) (r ∷ rs) = nth n rs

unfoldable pub head_hash : List Fields → Value
head_hash [] = str sentinel
head_hash (r ∷ []) = hash_of r
head_hash (r ∷ (q ∷ rs)) = head_hash (q ∷ rs)

unfoldable pub stands : Option Fields → Option Fields → Bool
stands (some r) (some q) = same_value (hash_of r) (hash_of q)
stands _ _ = false

module _ (codec : Codec) where
  unfoldable pub records : String → List Fields
  records s = valid_records codec.parse (complete_lines s)

  -- The line stands in its place.
  unfoldable pub is_appended : String → ℕ → String → Bool
  unfolding stands nth hash_of
  is_appended bytes place s = stands (nth place (records s)) (codec.parse bytes)

  unfoldable pub appended : String → String → ℕ → String → String → Result Halt (Option String)
  unfolding head_hash same_value
  appended t bytes place prev s =
      if is_appended bytes place s
      then ok (some s)
      else if length (records s) == place && same_value (head_hash (records s)) (str prev)
      then ok (some (concat s bytes))
      else err (append_divergence t)

  unfoldable pub is_replaced : String → Option String → Bool
  is_replaced bytes none = false
  is_replaced bytes (some s) = str_eq (codec.sha256 s) (codec.sha256 bytes)

  unfoldable pub matches_old : Option String → Option String → Bool
  matches_old none none = true
  matches_old (some h) (some s) = str_eq (codec.sha256 s) h
  matches_old _ _ = false

  unfoldable pub replaced :
      String → String → Option String → Option String → Result Halt (Option String)
  unfolding is_replaced matches_old
  replaced t bytes old s =
      if is_replaced bytes s
      then ok s
      else if matches_old old s
      then ok (some bytes)
      else err (replace_divergence t)

  -- What a write makes of its target; a torn tail is cut off before a line is appended.
  unfoldable pub new_content : Staged → Option String → Result Halt (Option String)
  unfolding appended replaced content
  new_content (append_line t bytes place prev) s =
      appended t bytes place prev (whole_part (content s))
  new_content (replace_file t bytes old) s = replaced t bytes old s

  unfoldable pub with_content : Files → String → Result Halt (Option String) → Result Halt Files
  with_content f t (err e) = err e
  with_content f t (ok s) = ok (at_entry f t s)

  unfoldable pub apply_staged_write : Files → Staged → Result Halt Files
  unfolding with_content
  apply_staged_write f w = with_content f (target w) (new_content w (f (target w)))

  -- The writes in turn; the first that diverges halts.
  unfoldable pub apply_staged_writes : Files → List Staged → Result Halt Files
  apply_staged_writes f [] = ok f
  apply_staged_writes f (w ∷ ws) = elim (apply_staged_write f w) [
    | err e ↦ err e
    | ok g ↦ apply_staged_writes g ws
  ]
