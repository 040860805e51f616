-- ===== src/Queue/Claim/Laws.antt =====
-- What a claim does to the queue, on each of its exits.
use clear_wright.Prelude.{
  String, ◌≡◌, ◌≢◌, refl, ap, ◌⊎◌, inl, inr, Bool, true, false, [], ◌∷◌, Option, none, some, arith,
  eq_iff, is_empty, is_empty-nil, append-eq-nil, ok, err, is_blank, Result-cases,
}
use clear_wright.Json.{Value, str, Fields, get, truthy}
use clear_wright.Packet.{FilePath, queue_status, validate, validate_queue_path}
use clear_wright.Packet.Moves.{placed}
use clear_wright.Packet.Rules.{IsWellFormed, validate-IsWellFormed}
use clear_wright.Queue.{
  Host, RoundTrips, Fs, Faults, Exit, success, refused, Refusal, update, load_packet, run_move,
}
use clear_wright.Queue.Store.{
  load_packet_err, packet_ok-nil, move_complete, OnDisk, Stops, run_success, run_refused, run_keeps,
}
use clear_wright.Queue.Claim.{build_claimed, is_claimable, sibling, prepare_claim, claim}
use clear_wright.Queue.Claim.Keys.{
  build_claimed-AgreeOff, status-build_claimed, build_claimed-IsWellFormed,
}

outbox_placed :
    (path : FilePath) (v : Value)
    → path.dir ≡ "clearance_outbox"
    → is_claimable v ≡ true
    → validate_queue_path path v none ≡ []
unfolding queue_status
outbox_placed path (str s) d c =
    placed path (str s) s ("RTA" ∷ "IN_REVIEW" ∷ "RFI_PENDING" ∷ "CTA" ∷ []) (rw d) refl c
outbox_placed path _ d c = cc

active_placed :
    (path : FilePath)
    → validate_queue_path (sibling path "clearance_in_progress") (str "IN_PROGRESS") none ≡ []
unfolding queue_status
active_placed path =
    placed (sibling path "clearance_in_progress") (str "IN_PROGRESS") "IN_PROGRESS"
      ("IN_PROGRESS" ∷ []) refl refl refl

-- A packet that is ready for a claim: well formed, in the outbox, in a claimable status, with a
-- clearance lease.
pub record IsReady (path : FilePath) (p : Fields) : Type 0 where
  pub well_formed : IsWellFormed p
  pub in_outbox : path.dir ≡ "clearance_outbox"
  pub claimable : is_claimable (get p "status") ≡ true
  pub leased : truthy (get p "clearance_expires_at") ≡ true

module _ (h : Host) (fs : Fs h) (faults : Faults h) (path : FilePath) (claimant : Option String)
    (now : String) where
  -- The tests that a claim passes before it touches the file system.
  prepare_claim_tests :
      {c : Fields} (p : Fields)
      → load_packet h fs faults.read path ≡ ok p
      → prepare_claim h fs faults path claimant now ≡ ok c
      → (is_empty (validate p) ≡ true)
        × (path.dir ≡ "clearance_outbox")
        × (is_claimable (get p "status") ≡ true)
        × ((validate c ≡ []) × (c ≡ build_claimed p path.name claimant now))
  unfolding prepare_claim
  prepare_claim_tests p l e = ground (
    arith,
    eq_iff path.dir "clearance_outbox",
    is_empty-nil (validate (build_claimed p path.name claimant now)),
    append-eq-nil (validate (build_claimed p path.name claimant now)),
  )

  prepare_claim_ok :
      {c : Fields}
      → prepare_claim h fs faults path claimant now ≡ ok c
      → (p : Fields) × (load_packet h fs faults.read path ≡ ok p)
        × IsReady path p
        × (c ≡ build_claimed p path.name claimant now)
  unfolding prepare_claim
  prepare_claim_ok {c} e = elim (Result-cases (load_packet h fs faults.read path)) [
    | inr (x, l) ↦ ground arith
    | inl (p, l) ↦
        let (valid, outbox, claimable, (after, built)) = prepare_claim_tests p l e in
        let claimed = build_claimed p path.name claimant now in
        let agree = build_claimed-AgreeOff p path.name claimant now in
        let lease =
          ((validate-IsWellFormed claimed).0 (rw (← built) after)).leased
            (inr (status-build_claimed p path.name claimant now)) in
        let ready : IsReady path p = record {
          well_formed = (validate-IsWellFormed p).0 (is_empty-nil _ valid);
          in_outbox = outbox;
          claimable = claimable;
          leased = rw (agree.at "clearance_expires_at" refl) at lease;
        } in
        (p, l, ready, built)
  ]

  prepare_claim_err : (e : Exit) → prepare_claim h fs faults path claimant now ≡ err e → Stops e
  unfolding prepare_claim
  prepare_claim_err e q = elim (Result-cases (load_packet h fs faults.read path)) [
    | inr (x, l) ↦ inl (load_packet_err h fs faults.read path (ground arith))
    | inl (p, l) ↦ inr (ground arith)
  ]

  -- A claim that succeeds took a well-formed packet with a claimable status and a clearance lease
  -- out of the outbox, wrote it as claimed where no file stood, and touched no other file.
  pub claim_success :
      (claim h fs faults path claimant false now).0 ≡ success
      → (p : Fields) × (load_packet h fs faults.read path ≡ ok p)
        × IsReady path p
        × (fs (sibling path "clearance_in_progress") ≡ none)
        × ((claim h fs faults path claimant false now).1
            ≡ update
                (update fs
                  (sibling path "clearance_in_progress")
                  (some (h.dump (build_claimed p path.name claimant now))))
                path
                none)
  unfolding claim
  claim_success e =
      let (c, q, _, free, after) = run_success h fs faults path _ false _ prepare_claim_err e in
      let (p, l, ready, built) = prepare_claim_ok q in (p, l, ready, free, rw (← built) after)

  -- A refused claim leaves every file as it was, unless removing a partial file failed.
  pub claim_refused :
      (dry_run : Bool) (r : Refusal) (q : FilePath)
      → faults.cleanup ≡ false
      → (claim h fs faults path claimant dry_run now).0 ≡ refused r
      → (claim h fs faults path claimant dry_run now).1 q ≡ fs q
  unfolding claim
  claim_refused dry_run r q c e =
      run_refused h fs faults path (sibling path "clearance_in_progress") dry_run _ r q c e

  -- Whatever system call fails, and whatever the exit, a packet outside the in-progress directory
  -- is not lost: its file stands as it was, or the claim succeeded and the in-progress directory
  -- holds a packet that the validators accept there.
  pub claim_keeps :
      (dry_run : Bool)
      → path.dir ≢ "clearance_in_progress"
      → ((claim h fs faults path claimant dry_run now).1 path ≡ fs path)
        ⊎ (((claim h fs faults path claimant dry_run now).0 ≡ success)
            × ((q : Fields) × OnDisk h
                  (claim h fs faults path claimant dry_run now).1
                  (sibling path "clearance_in_progress")
                  q))
  unfolding claim
  claim_keeps dry_run ne =
      run_keeps h fs faults path (sibling path "clearance_in_progress") dry_run _
        (λ e. ne (ap (λ (x : FilePath). x.dir) e)) prepare_claim_err

  prepare_claim_ready :
      (p : Fields)
      → load_packet h fs faults.read path ≡ ok p
      → IsReady path p
      → is_blank now ≡ false
      → prepare_claim h fs faults path claimant now ≡ ok (build_claimed p path.name claimant now)
  unfolding prepare_claim
  prepare_claim_ready p l ready n =
      let claimed = build_claimed p path.name claimant now in
      rw (
        l,
        (validate-IsWellFormed p).1 ready.well_formed,
        outbox_placed path (get p "status") ready.in_outbox ready.claimable,
        ready.in_outbox,
        ready.claimable,
        (validate-IsWellFormed claimed).1
            (build_claimed-IsWellFormed p path.name claimant now ready.well_formed ready.leased n),
        status-build_claimed p path.name claimant now,
        active_placed path,
      )

  -- A ready packet is claimed, when its file can be read, no later system call fails, the
  -- destination is free, the time is not blank, and the codec reads back what it wrote.
  pub claim_complete :
      (p : Fields)
      → load_packet h fs faults.read path ≡ ok p
      → IsReady path p
      → is_blank now ≡ false
      → fs (sibling path "clearance_in_progress") ≡ none
      → faults.create ≡ false
      → faults.write ≡ false
      → faults.reread ≡ false
      → faults.remove ≡ false
      → RoundTrips h (build_claimed p path.name claimant now)
      → (claim h fs faults path claimant false now).0 ≡ success
  unfolding claim run_move
  claim_complete p l ready n free nc nw nr nm rt =
      let claimed = build_claimed p path.name claimant now in
      let dest = sibling path "clearance_in_progress" in
      rw (prepare_claim_ready p l ready n, run_move)
        (move_complete h fs faults path dest claimed free nc nw nr nm rt (
          (packet_ok-nil dest claimed).1 (
            (validate-IsWellFormed claimed).1 (
                build_claimed-IsWellFormed p path.name claimant now ready.well_formed ready.leased
                  n),
            rw (status-build_claimed p path.name claimant now) (active_placed path),
          )))
