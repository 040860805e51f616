-- ===== src/Queue/Lifecycle.antt =====
-- Completing or failing a claimed packet: the mutating half of tools/clearwright_lifecycle.py.
pub mod Keys
pub mod Laws
use clear_wright.Prelude.{
  String, Bool, true, false, not, ◌||◌, List, [], ◌∷◌, ◌++◌, Option, none, some, str_eq, elem,
  is_empty, if◌then◌else◌, Result, ok, err, ◌>>=◌, ◌>>◌, refuse_if, concat, is_blank, strip,
}
use clear_wright.Json.{Value, str, obj, arr, Items, nil, cons, Fields, end, field, get, set}
use clear_wright.Packet.{FilePath, validate, validate_queue_path}
use clear_wright.Queue.{
  Host, Fs, Faults, Exit, success, dry_run_pass, refused, invalid_source, wrong_directory,
  path_mismatch, wrong_status, invalid_result, blank_argument, append_audit, load_packet, run_move,
}
use clear_wright.Queue.Claim.{or_default, sibling}

-- The two terminal transitions.
pub data Ending : Type 0 where
  completed failed : Ending

unfoldable pub ending_status : Ending → String
ending_status completed = "DONE"
ending_status failed = "FAILED"

unfoldable pub ending_dir : Ending → String
ending_dir completed = "clearance_done"
ending_dir failed = "clearance_failed"

with_results : Fields → Option Fields → Fields
with_results event none = event
with_results event (some results) = set event "results" (obj results)

-- The audit event of the transition; `reason` and `results` are left out where they are empty.
transition_event : String → String → String → String → String → Option Fields → Value
unfolding with_results
transition_event now status dir actor reason results =
    let start = field "at" (str now) (field "event" (str status) (field "actor" (str actor) end)) in
    let told =
      if is_blank reason
      then set start "note" (str (concat "Completed and moved to " dir))
      else set (set start "reason" (str reason)) "note"
          (str (concat "Failed and moved to " (concat dir (concat ": " reason)))) in
    obj (with_results told results)

unfoldable pub build_transition :
    Fields → String → Ending → Option String → String → Option Fields → String → Fields
unfolding transition_event
build_transition p name ending actor reason results now =
    let moved =
      set
        (set (set p "status" (str (ending_status ending))) "source_path"
          (str (concat (ending_dir ending) (concat "/" name))))
        "updated_at" (str now) in
    append_audit moved (
      transition_event now (ending_status ending) (ending_dir ending) (or_default actor "operator")
        reason results)

abbrev pub is_in_progress : Value → Bool
is_in_progress (str s) = str_eq s "IN_PROGRESS"
is_in_progress _ = false

module _ (h : Host) where
  -- Steps 1 to 6.
  unfoldable pub prepare_transition :
      Fs h
      → Faults h
      → FilePath
      → Ending
      → Option String
      → String
      → Option Fields
      → String
      → Result Exit Fields
  prepare_transition fs faults path ending actor reason results now = do
    p ← load_packet h fs faults.read path
    let errors = validate p
    refuse_if (not (is_empty errors)) (refused (invalid_source errors))
    refuse_if (not (str_eq path.dir "clearance_in_progress")) (refused (wrong_directory path.dir))
    let path_errors = validate_queue_path path (get p "status") none
    refuse_if (not (is_empty path_errors)) (refused (path_mismatch path_errors))
    refuse_if (not (is_in_progress (get p "status"))) (refused (wrong_status (get p "status")))
    let result = build_transition p path.name ending actor reason results now
    let dest = sibling path (ending_dir ending)
    let post = validate result ++ validate_queue_path dest (get result "status") none
    refuse_if (not (is_empty post)) (refused (invalid_result post))
    ok result

  unfoldable pub transition :
      Fs h
      → Faults h
      → FilePath
      → Ending
      → Option String
      → Bool
      → String
      → Option Fields
      → String
      → Exit × Fs h
  transition fs faults path ending actor dry_run reason results now =
      run_move h fs faults path (sibling path (ending_dir ending)) dry_run
        (prepare_transition fs faults path ending actor reason results now)

-- The flags of `complete`; one that was not given is the empty text or the empty list.
pub record ResultFlags : Type 0 where
  pub summary : String
  pub verification : String
  pub changed_files : List String
  pub findings : String

add_text : Fields → String → String → Fields
add_text results key text =
    if is_blank (strip text) then results else set results key (str (strip text))

stripped_files : List String → Items
stripped_files [] = nil
stripped_files (f ∷ fs) =
    let rest = stripped_files fs in if is_blank (strip f) then rest else cons (str (strip f)) rest

add_files : Fields → Items → Fields
add_files results nil = results
add_files results files = set results "changed_files" (arr files)

or_none : Fields → Option Fields
or_none end = none
or_none results = some results

unfoldable pub build_results : ResultFlags → Option Fields
unfolding add_text stripped_files add_files or_none
build_results flags =
    let a = add_text end "summary" flags.summary in
    let b = add_text a "verification" flags.verification in
    let c = add_files b (stripped_files flags.changed_files) in
    or_none (add_text c "findings" flags.findings)

module _ (h : Host) where
  unfoldable pub cmd_complete :
      Fs h → Faults h → FilePath → Option String → Bool → ResultFlags → String → Exit × Fs h
  cmd_complete fs faults path actor dry_run flags now =
      transition h fs faults path completed actor dry_run "" (build_results flags) now

  unfoldable pub cmd_fail :
      Fs h → Faults h → FilePath → Option String → Bool → String → String → Exit × Fs h
  cmd_fail fs faults path actor dry_run reason now =
      if is_blank (strip reason)
      then (refused (blank_argument "--reason"), fs)
      else transition h fs faults path failed actor dry_run (strip reason) none now
