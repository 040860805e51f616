-- ===== src/Alf/Journal/Recover.antt =====
-- The recovery of what a crash has interrupted (`recover` of tools/clearwright_alf.py), from the
-- records of a journal whose chain is sound. Links between directories are not modelled, and neither
-- are the files of a recovery that halts.
pub mod Complete
use clear_wright.Prelude.{
  ℕ, String, Bool, true, false, not, List, [], ◌∷◌, ◌++◌, Option, none, some, map, elem, str_eq,
  Result, ok, err, refuse_if, ◌>>=◌, ◌>>◌, any,
}
use clear_wright.Alf.Paths.{safe_id, safe_rel}
use clear_wright.Alf.Journal.{
  Codec, Staged, append_line, replace_file, Halt, Files, apply_staged_write,
}

-- What an entry expects of its target.
pub data Expected : Type 0 where
  in_chain : ℕ → String → Expected
  over : Option String → Expected

pub record Entry : Type 0 where
  pub target_path : String
  pub staged_file : String
  pub content_sha256 : String
  pub expected : Expected

pub record Begin : Type 0 where
  pub op_id : String
  pub staged_writes : List Entry

pub data JournalEvent : Type 0 where
  op_begin : Begin → JournalEvent
  op_commit : String → JournalEvent

-- The staged bytes of an operation, by the name of the file.
abbrev pub Staging : Type 0
Staging = String → String → Option String

pub data RecoverError : Type 0 where
  unsafe_staged_file unsafe_target missing corrupt : String → RecoverError
  diverged : Halt → RecoverError

unfoldable pub staged_of : String → Expected → String → Staged
staged_of t (in_chain place prev) bytes = append_line t bytes place prev
staged_of t (over old) bytes = replace_file t bytes old

unfoldable pub commits : JournalEvent → String → Bool
commits (op_begin b) id = false
commits (op_commit c) id = str_eq c id

unfoldable pub is_committed : List JournalEvent → String → Bool
unfolding commits
is_committed events id = any (λ e. commits e id) events

unfoldable pub begins : List JournalEvent → List Begin
begins [] = []
begins (op_begin b ∷ es) = b ∷ begins es
begins (op_commit c ∷ es) = begins es

module _ (codec : Codec) where
  unfoldable pub found : String → Option String → Result RecoverError String
  found name none = err (missing name)
  found name (some bytes) = ok bytes

  unfoldable pub halted : Result Halt Files → Result RecoverError Files
  halted (err h) = err (diverged h)
  halted (ok f) = ok f

  unfoldable pub is_unsafe : Option (List String) → Bool
  is_unsafe none = true
  is_unsafe (some parts) = false

  unfoldable pub replay_entry : Staging → String → Files → Entry → Result RecoverError Files
  unfolding found halted is_unsafe
  replay_entry staging id f e = do
    refuse_if (not (safe_id e.staged_file)) (unsafe_staged_file e.staged_file)
    refuse_if (is_unsafe (safe_rel e.target_path)) (unsafe_target e.target_path)
    bytes ← found e.staged_file (staging id e.staged_file)
    refuse_if (not (str_eq (codec.sha256 bytes) e.content_sha256)) (corrupt e.staged_file)
    halted (apply_staged_write codec f (staged_of e.target_path e.expected bytes))

  unfoldable pub replay : Staging → String → Files → List Entry → Result RecoverError Files
  replay staging id f [] = ok f
  replay staging id f (e ∷ es) = elim (replay_entry staging id f e) [
    | err x ↦ err x
    | ok g ↦ replay staging id g es
  ]

  -- The files behind the recovery, and the operations it completed.
  unfoldable pub recover_ops :
      Staging → (String → Bool) → Files → List Begin → Result RecoverError (Files × List String)
  recover_ops staging committed f [] = ok (f, [])
  recover_ops staging committed f (b ∷ bs) = elim (committed b.op_id) [
    | true ↦ recover_ops staging committed f bs
    | false ↦ do
      g ← replay staging b.op_id f b.staged_writes
      rest ← recover_ops staging committed g bs
      ok (rest.0, b.op_id ∷ rest.1)
  ]

  unfoldable pub commit_events :
      List JournalEvent → Files × List String → Files × (List JournalEvent × List String)
  commit_events events (f, ids) = (f, (events ++ map op_commit ids, ids))

  unfoldable pub recover :
      Staging
      → Files
      → List JournalEvent
      → Result RecoverError (Files × (List JournalEvent × List String))
  unfolding commit_events
  recover staging f events = do
    done ← recover_ops staging (is_committed events) f (begins events)
    ok (commit_events events done)
