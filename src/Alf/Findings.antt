-- ===== src/Alf/Findings.antt =====
-- The findings store: heads, their revision logs, the attribution ledger and the dispositions, and the
-- operations of tools/clearwright_alf_synth.py and tools/clearwright_alf_review.py on them. A commit
-- of an operation is one step: Journal follows its writes. A revision's hash is left to Chain.
-- `sha256`, the ids that are made of it, the format of an entry id and the clock are parameters.
pub mod Attribute
pub mod Dispose
pub mod Steps
use clear_wright.Prelude.{
  ℕ, String, suc, ◌+◌, Bool, true, false, not, ◌&&◌, ◌||◌, List, [], ◌∷◌, ◌++◌, Option, none, some,
  str_eq, if◌then◌else◌, length, any, Result, ok, err,
}
use clear_wright.Json.{Value, null, bool, int, str, Fields, end, get, set, truthy}
use clear_wright.Alf.{number_at, is_text}

pub record Revision : Type 0 where
  pub revision_no : ℕ
  pub revised_at : String
  pub revising_actor : String
  pub reason : String
  pub finding : Fields

-- A line of the attribution ledger.
pub record Attribution : Type 0 where
  pub attribution_id : String
  pub occurrence_id : String
  pub entry_id : String
  pub attribution_type : String
  pub run_id : String

-- A line of the dispositions.
pub record Disposition : Type 0 where
  pub entry_id : String
  pub target_status : String
  pub operator_message_id : String

pub record FindingStore : Type 0 where
  pub last_seq : ℕ
  pub heads : String → Option Fields
  pub history : String → List Revision
  pub ledger : List Attribution
  pub dispositions : List Disposition

pub data AlfError : Type 0 where
  no_finding illegal_transition message_not_found not_an_operator_message not_after_revision
        not_named replayed incomplete_deferral no_history unsafe_entry_id unsafe_message_id :
      AlfError
  promotion_gate : List String → AlfError

pub record Host : Type 0 where
  pub now : String
  pub entry_id : ℕ → String
  pub attribution_id : String → String → String → String

-- The store with one entry's head and log replaced.
unfoldable pub at_entry {ℓ} : {A : Type ℓ} → (String → A) → String → A → String → A
at_entry f id a k = if str_eq id k then a else f k

-- The lines that an update appends beside the revision.
pub data Line : Type 0 where
  no_line : Line
  attributed : Attribution → Line
  disposed : Disposition → Line

unfoldable pub with_line : Line → FindingStore → FindingStore
with_line no_line s = s
with_line (attributed a) s = record s { ledger = s.ledger ++ (a ∷ []) }
with_line (disposed d) s = record s { dispositions = s.dispositions ++ (d ∷ []) }

-- What an update makes of a head.
pub record Produced : Type 0 where
  pub finding : Fields
  pub reason : String
  pub line : Line

-- `revisions[-1]`
unfoldable pub last_revision : List Revision → Option Revision
last_revision [] = none
last_revision (r ∷ []) = some r
last_revision (r ∷ (s ∷ rs)) = last_revision (s ∷ rs)

unfoldable pub next_number : Option Revision → ℕ
next_number none = 1
next_number (some r) = suc r.revision_no

module _ (h : Host) where
  unfoldable pub stamped : String → Fields → Fields
  stamped id f = set (set f "entry_id" (str id)) "alf_record_version" (int 1)

  -- The revision, the head and the line of a commit.
  unfoldable pub commit_revision : FindingStore → String → String → Produced → FindingStore
  unfolding next_number stamped
  commit_revision s id actor p =
      let revision : Revision = record {
        revision_no = next_number (last_revision (s.history id));
        revised_at = h.now;
        revising_actor = actor;
        reason = p.reason;
        finding = stamped id p.finding;
      } in
      with_line p.line (record s {
        heads = at_entry s.heads id (some (stamped id p.finding));
        history = at_entry s.history id (s.history id ++ (revision ∷ []));
      })

  unfoldable pub committed :
      FindingStore
      → String
      → String
      → Result AlfError (Option Produced)
      → Result AlfError (Option Produced) × FindingStore
  committed s id actor (err e) = (err e, s)
  committed s id actor (ok none) = (ok none, s)
  committed s id actor (ok (some p)) = (ok (some p), commit_revision s id actor p)

  -- `_atomic_finding_update`: no product is a no-op.
  unfoldable pub atomic_finding_update :
      FindingStore
      → String
      → String
      → (Option Fields → Result AlfError (Option Produced))
      → Result AlfError (Option Produced) × FindingStore
  unfolding committed
  atomic_finding_update s id actor produce = committed s id actor (produce (s.heads id))

  -- `create_finding`: the next id, a first revision and a head. The log of an id that was allocated
  -- by a crashed creation would be kept.
  unfoldable pub create_finding : FindingStore → String → Fields → String × FindingStore
  unfolding stamped
  create_finding s actor f =
      let n = suc s.last_seq in
      let id = h.entry_id n in
      let head = set (set f "alf_record_version" (int 1)) "entry_id" (str id) in
      let revision : Revision = record {
        revision_no = 1;
        revised_at = h.now;
        revising_actor = actor;
        reason = "created";
        finding = head;
      } in
      (
        id,
        record s {
          last_seq = n;
          heads = at_entry s.heads id (some head);
          history = at_entry s.history id (s.history id ++ (revision ∷ []));
        },
      )

  unfoldable pub updated : (Fields → Fields) → Option Fields → Result AlfError (Option Produced)
  updated mutate none = err no_finding
  updated mutate (some f) =
      ok (some (record { finding = mutate f; reason = "update"; line = no_line }))

  unfoldable pub update_finding :
      FindingStore → String → (Fields → Fields) → Result AlfError (Option Produced) × FindingStore
  unfolding updated
  update_finding s id mutate = atomic_finding_update s id "alf-synth" (updated mutate)

unfoldable pub finding_of : Option Revision → Option Fields
finding_of none = none
finding_of (some r) = some r.finding

-- `rebuild_head`, no finding where there is no log
unfoldable pub rebuild_head : FindingStore → String → Option Fields
unfolding finding_of
rebuild_head s id = finding_of (last_revision (s.history id))
