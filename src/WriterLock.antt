-- ===== src/WriterLock.antt =====
-- The writer lock of a queue root (tools/clearwright_writer_lock.py): write tokens, and the
-- exclusive flag of an archive operation. Each operation here runs under the registry lock, so it is
-- one step. The operating system and `os.path` are parameters.
pub mod Override
pub mod Exclusion
pub mod Recovery
pub mod Removal
use clear_wright.Prelude.{
  ℕ, String, Bool, true, false, not, ◌&&◌, ◌||◌, List, [], ◌∷◌, ◌++◌, Option, none, some, str_eq,
  leb, ltb, ◌==◌, if◌then◌else◌, Result, ok, err, is_blank, is_empty, concat,
}

-- A recorded owner; no start time is none.
pub record Owner : Type 0 where
  pub pid : ℕ
  pub host : String
  pub proc_start : Option String

-- What the process table tells: `none` where it cannot tell. `exited` is the signaled process
-- object with an exit time, on Windows.
pub record Processes : Type 0 where
  pub this_host : String
  pub pid_exists : ℕ → Option Bool
  pub exited : ℕ → Bool
  pub start_time : ℕ → Option String

pub data Liveness : Type 0 where
  live dead indeterminate : Liveness

same_start : Option String → Option String → Liveness
same_start none recorded = indeterminate
same_start (some t) none = indeterminate
same_start (some t) (some recorded) = if str_eq t recorded then live else dead

existing : Processes → Owner → Option Bool → Liveness
unfolding same_start
existing os o none = indeterminate
existing os o (some false) = dead
existing os o (some true) =
    if os.exited o.pid then dead else same_start (os.start_time o.pid) o.proc_start

unfoldable pub liveness : Processes → Owner → Liveness
unfolding existing
liveness os o =
    if o.pid == 0 || not (str_eq o.host os.this_host)
    then indeterminate
    else existing os o (os.pid_exists o.pid)

abbrev pub is_dead : Liveness → Bool
is_dead dead = true
is_dead _ = false

pub record Token : Type 0 where
  pub token_id : String
  pub owner : Owner

pub record Flag : Type 0 where
  pub opid : String
  pub nonce : String
  pub owner : Owner
  pub pending_path : Option String

-- What can be read of an object that is no record with the right types.
pub record Fragment : Type 0 where
  pub opid : Option String
  pub nonce : Option String
  pub owner : Option Owner

-- The flag file: absent, no JSON object, an object without the right types, or a record.
pub data FlagFile : Type 0 where
  absent unreadable : FlagFile
  malformed : Fragment → FlagFile
  held : Flag → FlagFile

pub record Registry : Type 0 where
  pub flag : FlagFile
  pub tokens : List Token

pub data LockError : Type 0 where
  maintenance_in_progress exclusive_already_held tokens_remain : LockError

-- `os.path` on the pending path, the files of the archive, and which writes succeed.
pub record Disk : Type 0 where
  pub pid_max : ℕ
  pub is_abs : String → Bool
  pub basename : String → String
  pub in_archive : String → Bool
  pub is_file : String → Bool
  pub archive_has_pending_journal : Bool
  pub record_written : Bool
  pub flag_removed : Bool

-- `_flag_identity_ok`, of a record with the right types
unfoldable pub flag_identity_ok : Disk → Owner → Bool
flag_identity_ok disk o =
    not (o.pid == 0)
    && (leb o.pid disk.pid_max
        && (not (is_blank o.host)
            && elim o.proc_start [ none ↦ false | some s ↦ not (is_blank s) ]))

pub data Pending : Type 0 where
  no_claim invalid outstanding resolved : Pending

pending_claim : Disk → String → String → Pending
pending_claim disk opid path =
    if is_blank path || is_blank opid
    then invalid
    else if not (disk.is_abs path)
    then invalid
    else if not (str_eq (disk.basename path) (concat "pending-" (concat opid ".json")))
    then invalid
    else if not (disk.in_archive path)
    then invalid
    else if disk.is_file path
    then outstanding
    else resolved

-- `_pending_path_state`
unfoldable pub pending_path_state : Disk → Flag → Pending
unfolding pending_claim
pending_path_state disk f = elim f.pending_path [
  | none ↦ no_claim
  | some path ↦ pending_claim disk f.opid path
]

-- What the claim says of an interrupted archive operation; an invalid claim is never honored.
interrupted : Disk → Pending → Bool
interrupted disk no_claim = disk.archive_has_pending_journal
interrupted disk invalid = true
interrupted disk outstanding = true
interrupted disk resolved = false

-- The flag may be removed: its holder is dead and left no archive operation unfinished.
unfoldable pub recoverable : Processes → Disk → Flag → Bool
unfolding interrupted
recoverable os disk f =
    flag_identity_ok disk f.owner
    && (is_dead (liveness os f.owner) && not (interrupted disk (pending_path_state disk f)))

-- `_recover_stale_exclusive_locked`, by the flag that it leaves
unfoldable pub recover_stale_exclusive : Processes → Disk → FlagFile → FlagFile
recover_stale_exclusive os disk absent = absent
recover_stale_exclusive os disk unreadable = unreadable
recover_stale_exclusive os disk (malformed x) = malformed x
recover_stale_exclusive os disk (held f) =
    if recoverable os disk f && (disk.record_written && disk.flag_removed) then absent else held f

abbrev pub is_absent : FlagFile → Bool
is_absent absent = true
is_absent _ = false

unfoldable pub acquire_write_token :
    Processes → Disk → Registry → Token → Result LockError String × Registry
acquire_write_token os disk r token =
    let flag = recover_stale_exclusive os disk r.flag in
    if is_absent flag
    then (ok token.token_id, record { flag = flag; tokens = token ∷ r.tokens })
    else (err maintenance_in_progress, record r { flag = flag })

unfoldable pub without : String → List Token → List Token
without id [] = []
without id (t ∷ ts) = let rest = without id ts in if str_eq t.token_id id then rest else t ∷ rest

unfoldable pub release_write_token : Registry → String → Registry
release_write_token r token_id = record r { tokens = without token_id r.tokens }

-- The tokens whose owner is not confirmed dead.
unfoldable pub remaining : Processes → List Token → List Token
remaining os [] = []
remaining os (t ∷ ts) =
    let rest = remaining os ts in if is_dead (liveness os t.owner) then rest else t ∷ rest

-- The sweep: the files of dead tokens are removed, where `removable` says that this succeeds.
unfoldable pub swept : Processes → (String → Bool) → List Token → List Token
swept os removable [] = []
swept os removable (t ∷ ts) =
    let rest = swept os removable ts in
    if is_dead (liveness os t.owner) && removable t.token_id then rest else t ∷ rest

-- One turn of the loop of `acquire_exclusive`; with `tokens_remain` it tries again until its
-- deadline.
unfoldable pub acquire_exclusive :
    Processes → Disk → Registry → Flag → (String → Bool) → Result LockError Flag × Registry
acquire_exclusive os disk r new removable =
    let flag = recover_stale_exclusive os disk r.flag in
    let kept = swept os removable r.tokens in
    if not (is_absent flag)
    then (err exclusive_already_held, record r { flag = flag })
    else if is_empty (remaining os r.tokens)
    then (ok new, record { flag = held new; tokens = kept })
    else (err tokens_remain, record { flag = flag; tokens = kept })

is_same : Option String → String → Bool
is_same none s = false
is_same (some t) s = str_eq t s

owns : FlagFile → String → String → Bool
unfolding is_same
owns (held f) opid nonce = str_eq f.opid opid && str_eq f.nonce nonce
owns (malformed x) opid nonce = is_same x.opid opid && is_same x.nonce nonce
owns _ opid nonce = false

unfoldable pub release_exclusive : Disk → Registry → String → String → Registry
unfolding owns
release_exclusive disk r opid nonce =
    if owns r.flag opid nonce && disk.flag_removed then record r { flag = absent } else r
