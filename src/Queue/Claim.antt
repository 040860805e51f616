-- ===== src/Queue/Claim.antt =====
-- Claiming a packet: tools/clearwright_claim.py.
pub mod Keys
pub mod Laws
use clear_wright.Prelude.{
  String, Bool, true, false, not, ◌||◌, List, [], ◌∷◌, ◌++◌, Option, none, some, str_eq, elem,
  is_empty, if◌then◌else◌, Result, ok, err, ◌>>=◌, ◌>>◌, refuse_if, concat, is_blank,
}
use clear_wright.Json.{Value, str, Fields, end, field, get, set}
use clear_wright.Packet.{FilePath, validate, validate_queue_path}
use clear_wright.Queue.{
  Host, Fs, Faults, Exit, dry_run_pass, refused, invalid_source, wrong_directory, path_mismatch,
  wrong_status, invalid_result, audit_extended, load_packet, run_move,
}

-- `claimant or "system"`; an empty claimant is as good as none.
abbrev pub or_default : Option String → String → String
or_default none d = d
or_default (some s) d = if is_blank s then d else s

set_claimant : Fields → Option String → String → Fields
set_claimant p none now = p
set_claimant p (some who) now =
    if is_blank who then p else set (set p "claimed_by" (str who)) "claimed_at" (str now)

claim_event : Option String → String → Value
claim_event claimant now = Value.obj (
    field "at" (str now) (
      field "event" (str "IN_PROGRESS") (
        field "actor" (str (or_default claimant "system")) (
          field "note" (str "Claimed from clearance_outbox and moved to clearance_in_progress")
            end))))

keep_audit : Fields → Option Value → Fields
keep_audit p none = p
keep_audit p (some audit) = set p "audit_json" audit

-- The packet as claimed. Its audit history is extended only where it has one.
unfoldable pub build_claimed : Fields → String → Option String → String → Fields
unfolding set_claimant claim_event keep_audit
build_claimed p name claimant now =
    let moved =
      set (set p "status" (str "IN_PROGRESS")) "source_path"
        (str (concat "clearance_in_progress/" name)) in
    let claimed = set_claimant (set moved "updated_at" (str now)) claimant now in
    keep_audit claimed (audit_extended (get claimed "audit_json") (claim_event claimant now))

abbrev pub is_claimable : Value → Bool
is_claimable (str s) = elem s ("RTA" ∷ "IN_REVIEW" ∷ "RFI_PENDING" ∷ "CTA" ∷ [])
is_claimable _ = false

-- The sibling queue directory under the same queue root.
abbrev pub sibling : FilePath → String → FilePath
sibling path dir = record path { dir = dir }

module _ (h : Host) where
  -- Steps 1 to 6: everything that is checked before the file system is touched.
  unfoldable pub prepare_claim :
      Fs h → Faults h → FilePath → Option String → String → Result Exit Fields
  prepare_claim fs faults path claimant now = do
    p ← load_packet h fs faults.read path
    let errors = validate p
    refuse_if (not (is_empty errors)) (refused (invalid_source errors))
    refuse_if (not (str_eq path.dir "clearance_outbox")) (refused (wrong_directory path.dir))
    let path_errors = validate_queue_path path (get p "status") none
    refuse_if (not (is_empty path_errors)) (refused (path_mismatch path_errors))
    refuse_if (not (is_claimable (get p "status"))) (refused (wrong_status (get p "status")))
    let claimed = build_claimed p path.name claimant now
    let dest = sibling path "clearance_in_progress"
    let post = validate claimed ++ validate_queue_path dest (get claimed "status") none
    refuse_if (not (is_empty post)) (refused (invalid_result post))
    ok claimed

  -- `claim`: the exit of the tool and the file system that it leaves.
  unfoldable pub claim : Fs h → Faults h → FilePath → Option String → Bool → String → Exit × Fs h
  claim fs faults path claimant dry_run now =
      run_move h fs faults path (sibling path "clearance_in_progress") dry_run
        (prepare_claim fs faults path claimant now)
