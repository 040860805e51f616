-- ===== src/WriterLock/Removal.antt =====
-- How the flag of another process may go.
use clear_wright.Prelude.{◌≡◌, ◌≢◌, ◌⊎◌, true, false, List, some}
use clear_wright.Json.{Value, null, str, Fields, get}
use clear_wright.Messages.Log.{LogFile, find_by_message_id, same_value}
use clear_wright.WriterLock.{
  Processes, Liveness, live, Flag, FlagFile, Registry, Disk, no_claim, resolved, flag_identity_ok,
  pending_path_state, release_exclusive,
}
use clear_wright.WriterLock.Override.{holder}
use clear_wright.WriterLock.Recovery.{IsGone}

-- The holder is gone and left no archive operation unfinished, and the removal is on record.
pub record IsRecovered (os : Processes) (disk : Disk) (f : Flag) : Type 0 where
  pub sound : flag_identity_ok disk f.owner ≡ true
  pub gone : IsGone os f.owner
  pub finished :
      (pending_path_state disk f ≡ resolved)
      ⊎ ((pending_path_state disk f ≡ no_claim) × (disk.archive_has_pending_journal ≡ false))
  pub on_record : disk.record_written ≡ true

-- An inbound message of the operator asks for it, and the holder of the flag that was read was not
-- known to be alive.
pub record IsOverridden (files : List LogFile) (id : Value) (os : Processes) (seen : FlagFile)
    : Type 0 where
  pub message : Fields
  pub found : find_by_message_id files null id ≡ some message
  pub operator : same_value (get message "actor") (str "OPERATOR-0001") ≡ true
  pub inbound : same_value (get message "direction") (str "inbound") ≡ true
  pub holding : Liveness
  pub read : holder os seen ≡ some holding
  pub not_live : holding ≢ live

-- The three ways in which a flag goes.
pub data Removal (s t : Processes × Registry) (f : Flag) : Type 0 where
  recovered : (disk : Disk) → IsRecovered s.0 disk f → Removal s t f
  released : (disk : Disk) → t.1 ≡ release_exclusive disk s.1 f.opid f.nonce → Removal s t f
  forced :
      (files : List LogFile) (id : Value) (os : Processes) (seen : FlagFile)
      → IsOverridden files id os seen
      → Removal s t f
