-- ===== src/Queue/Lifecycle/Laws.antt =====
-- What completing or failing a packet does to the queue, on each of its exits.
use clear_wright.Prelude.{
  String, ◌≡◌, ◌≢◌, ap, ◌⊎◌, inl, inr, Bool, true, false, Option, none, some, arith, eq_iff,
  is_empty, is_empty-nil, ok, err, Result-cases,
}
use clear_wright.Json.{Value, str, Fields, get}
use clear_wright.Packet.{FilePath, validate}
use clear_wright.Packet.Rules.{IsWellFormed, validate-IsWellFormed}
use clear_wright.Queue.{Host, Fs, Faults, Exit, success, refused, Refusal, update, load_packet}
use clear_wright.Queue.Store.{load_packet_err, OnDisk, Stops, run_success, run_refused, run_keeps}
use clear_wright.Queue.Claim.{sibling}
use clear_wright.Queue.Lifecycle.{
  Ending, completed, failed, ending_dir, build_transition, is_in_progress, prepare_transition,
  transition,
}

-- A claimed packet in its directory.
pub record IsActive (path : FilePath) (p : Fields) : Type 0 where
  pub well_formed : IsWellFormed p
  pub in_progress : path.dir ≡ "clearance_in_progress"
  pub status : get p "status" ≡ str "IN_PROGRESS"

status_in_progress : (v : Value) → is_in_progress v ≡ true → v ≡ str "IN_PROGRESS"
status_in_progress (str s) h = ground (arith, eq_iff s "IN_PROGRESS")
status_in_progress _ h = cc

ending_apart :
    (path : FilePath) (e : Ending)
    → path.dir ≡ "clearance_in_progress"
    → path ≢ sibling path (ending_dir e)
unfolding ending_dir
ending_apart path completed d q =
    ground (arith, eq_iff "clearance_in_progress" "clearance_done", ap (λ (x : FilePath). x.dir) q)
ending_apart path failed d q =
    ground
      (arith, eq_iff "clearance_in_progress" "clearance_failed", ap (λ (x : FilePath). x.dir) q)

module _ (h : Host) (fs : Fs h) (faults : Faults h) (path : FilePath) (e : Ending)
    (actor : Option String) (reason : String) (results : Option Fields) (now : String) where
  abbrev built : Fields → Fields
  built p = build_transition p path.name e actor reason results now

  abbrev dest : FilePath
  dest = sibling path (ending_dir e)

  prepare_transition_tests :
      {c : Fields} (p : Fields)
      → load_packet h fs faults.read path ≡ ok p
      → prepare_transition h fs faults path e actor reason results now ≡ ok c
      → (is_empty (validate p) ≡ true)
        × (path.dir ≡ "clearance_in_progress")
        × (is_in_progress (get p "status") ≡ true)
        × (c ≡ built p)
  unfolding prepare_transition
  prepare_transition_tests p l q = ground (arith, eq_iff path.dir "clearance_in_progress")

  prepare_transition_ok :
      {c : Fields}
      → prepare_transition h fs faults path e actor reason results now ≡ ok c
      → (p : Fields) × (load_packet h fs faults.read path ≡ ok p) × IsActive path p × (c ≡ built p)
  unfolding prepare_transition
  prepare_transition_ok q = elim (Result-cases (load_packet h fs faults.read path)) [
    | inr (x, l) ↦ ground arith
    | inl (p, l) ↦
        let (valid, dir, status, made) = prepare_transition_tests p l q in
        let active : IsActive path p = record {
          well_formed = (validate-IsWellFormed p).0 (is_empty-nil _ valid);
          in_progress = dir;
          status = status_in_progress _ status;
        } in
        (p, l, active, made)
  ]

  prepare_transition_err :
      (x : Exit) → prepare_transition h fs faults path e actor reason results now ≡ err x → Stops x
  unfolding prepare_transition
  prepare_transition_err x q = elim (Result-cases (load_packet h fs faults.read path)) [
    | inr (y, l) ↦ inl (load_packet_err h fs faults.read path (ground arith))
    | inl (p, l) ↦ inr (ground arith)
  ]

  -- A transition that succeeds took a well-formed packet with status IN_PROGRESS out of the
  -- in-progress directory, wrote it with its terminal status where no file stood (DONE in
  -- clearance_done, FAILED in clearance_failed), and touched no other file.
  pub transition_success :
      (transition h fs faults path e actor false reason results now).0 ≡ success
      → (p : Fields) × (load_packet h fs faults.read path ≡ ok p)
        × IsActive path p
        × (fs dest ≡ none)
        × ((transition h fs faults path e actor false reason results now).1
            ≡ update (update fs dest (some (h.dump (built p)))) path none)
  unfolding transition
  transition_success q =
      let (c, l, _, free, after) =
        run_success h fs faults path dest false _ prepare_transition_err q in
      let (p, loaded, active, made) = prepare_transition_ok l in
      (p, loaded, active, free, rw (← made) after)

  -- A refused transition leaves every file as it was, unless removing a partial file failed.
  pub transition_refused :
      (dry_run : Bool) (r : Refusal) (q : FilePath)
      → faults.cleanup ≡ false
      → (transition h fs faults path e actor dry_run reason results now).0 ≡ refused r
      → (transition h fs faults path e actor dry_run reason results now).1 q ≡ fs q
  unfolding transition
  transition_refused dry_run r q c x = run_refused h fs faults path dest dry_run _ r q c x

  -- Whatever system call fails, an active packet is not lost: its file stands as it was, or the
  -- transition succeeded and the terminal directory holds a packet that the validators accept.
  pub transition_keeps :
      (dry_run : Bool)
      → path.dir ≡ "clearance_in_progress"
      → ((transition h fs faults path e actor dry_run reason results now).1 path ≡ fs path)
        ⊎ (((transition h fs faults path e actor dry_run reason results now).0 ≡ success)
            × ((p : Fields) × OnDisk h
                  (transition h fs faults path e actor dry_run reason results now).1
                  dest
                  p))
  unfolding transition
  transition_keeps dry_run d =
      run_keeps h fs faults path dest dry_run _ (ending_apart path e d) prepare_transition_err
