-- ===== src/WriterLock/Override.antt =====
-- The operator's override of the exclusive flag: `apply_override` of tools/clearwright_archive.py, and
-- the removal that it calls, which holds no lock.
use clear_wright.Prelude.{
  Bool, true, false, not, ◌||◌, List, Option, none, some, if◌then◌else◌, Result, err, refuse_if,
  ◌>>◌,
}
use clear_wright.Json.{Value, null, str, Fields, get}
use clear_wright.Messages.Log.{LogFile, find_by_message_id, same_value}
use clear_wright.WriterLock.{
  Processes, Liveness, live, indeterminate, liveness, FlagFile, absent, unreadable, malformed, held,
  Disk,
}

pub data OverrideError : Type 0 where
  not_authorized no_flag owner_live not_recorded : OverrideError

-- What `liveness` says of the holder that the flag names; none where there is no flag to read.
unfoldable pub holder : Processes → FlagFile → Option Liveness
holder os absent = none
holder os unreadable = none
holder os (malformed x) = elim x.owner [ none ↦ some indeterminate | some o ↦ some (liveness os o) ]
holder os (held f) = some (liveness os f.owner)

unfoldable pub is_live : Liveness → Bool
is_live live = true
is_live _ = false

unfoldable pub override_authority : Option Fields → Result OverrideError (Unit {0})
override_authority none = err not_authorized
override_authority (some m) =
    refuse_if
      (not (same_value (get m "actor") (str "OPERATOR-0001"))
        || not (same_value (get m "direction") (str "inbound")))
      not_authorized

unfoldable pub preemptible : Option Liveness → Result OverrideError (Unit {0})
unfolding is_live
preemptible none = err no_flag
preemptible (some l) = refuse_if (is_live l) owner_live

-- The checks before the removal, by the flag that they read, and the durable record of the override,
-- where `recorded` says that it was written.
unfoldable pub override_checks :
    Processes → List LogFile → FlagFile → Value → Bool → Result OverrideError (Unit {0})
unfolding override_authority preemptible
override_checks os files seen id recorded = do
  override_authority (find_by_message_id files null id)
  preemptible (holder os seen)
  refuse_if (not recorded) not_recorded

-- `force_clear_exclusive_for_override`: whatever flag is there by then.
unfoldable pub force_clear_exclusive_for_override : Disk → FlagFile → FlagFile
force_clear_exclusive_for_override disk flag = if disk.flag_removed then absent else flag
