-- ===== src/Queue/Decide/Laws.antt =====
-- What a decision does to the queue, on each of its exits.
use clear_wright.Prelude.{
  String, ◌≡◌, ◌≢◌, inl, inr, Bool, true, false, Option, none, some, arith, eq_iff, is_empty,
  is_empty-nil, Result, ok, err, Result-cases, ℤ,
}
use clear_wright.Json.{Fields, get}
use clear_wright.Packet.{FilePath, validate}
use clear_wright.Packet.Rules.{IsWellFormed, validate-IsWellFormed}
use clear_wright.Queue.{
  Host, Fs, Faults, Exit, success, refused, needs_review, Refusal, update, load_packet, temp_path,
}
use clear_wright.Queue.Store.{
  load_packet_err, Stops, run_success, run_refused, write_inplace_ok, write_inplace_refused,
}
use clear_wright.Queue.Claim.{sibling}
use clear_wright.Queue.Decide.{
  Decision, cta, dta, rfi, Clock, build_decision, is_decidable, prepare_decision, run_inplace,
  decide,
}

-- A packet that awaits a decision.
pub record IsPending (path : FilePath) (p : Fields) : Type 0 where
  pub well_formed : IsWellFormed p
  pub in_outbox : path.dir ≡ "clearance_outbox"
  pub decidable : is_decidable (get p "status") ≡ true

module _ (h : Host) (fs : Fs h) (faults : Faults h) (path : FilePath) (dry_run : Bool)
    (prepared : Result Exit Fields) where
  inplace_success :
      ((e : Exit) → prepared ≡ err e → Stops e)
      → (run_inplace h fs faults path dry_run prepared).0 ≡ success
      → (p : Fields) × (prepared ≡ ok p)
        × (dry_run ≡ false)
        × ((run_inplace h fs faults path dry_run prepared).1
            ≡ update (update fs (temp_path path) none) path (some (h.dump p)))
  unfolding run_inplace
  inplace_success stops e = elim (Result-cases prepared) [
    | inr (x, l) ↦ ground (arith, stops x l)
    | inl (p, l) ↦ (p, l, ground arith, ground (arith, write_inplace_ok h fs faults path p))
  ]

  inplace_refused :
      (r : Refusal) (q : FilePath)
      → temp_path path ≢ q
      → r ≢ needs_review
      → (run_inplace h fs faults path dry_run prepared).0 ≡ refused r
      → (run_inplace h fs faults path dry_run prepared).1 q ≡ fs q
  unfolding run_inplace
  inplace_refused r q ne nr e = elim (Result-cases prepared) [
    | inr (x, l) ↦ rw (l, run_inplace)
    | inl (p, l) ↦ ground (arith, write_inplace_refused h fs faults path p r q ne)
  ]

-- Where a decided packet goes: a denial moves it to the archive, any other decision rewrites it.
abbrev pub archived : (h : Host) → Fs h → Decision → FilePath → Fields → Fs h
archived h fs dta path p =
    update (update fs (sibling path "clearance_done") (some (h.dump p))) path none
archived h fs _ path p = update (update fs (temp_path path) none) path (some (h.dump p))

module _ (h : Host) (fs : Fs h) (faults : Faults h) (path : FilePath) (actor : Option String)
    (reason : String) (lease : Option ℤ) (clock : Clock) where
  prepare_decision_tests :
      (d : Decision) {c : Fields} (p : Fields)
      → load_packet h fs faults.read path ≡ ok p
      → prepare_decision h fs faults path d actor reason lease clock ≡ ok c
      → (is_empty (validate p) ≡ true)
        × (path.dir ≡ "clearance_outbox")
        × (is_decidable (get p "status") ≡ true)
        × (c ≡ build_decision p path.name d actor reason lease clock)
  unfolding prepare_decision
  prepare_decision_tests d p l e = ground (arith, eq_iff path.dir "clearance_outbox")

  prepare_decision_ok :
      (d : Decision) {c : Fields}
      → prepare_decision h fs faults path d actor reason lease clock ≡ ok c
      → (p : Fields) × (load_packet h fs faults.read path ≡ ok p)
        × IsPending path p
        × (c ≡ build_decision p path.name d actor reason lease clock)
  unfolding prepare_decision
  prepare_decision_ok d e = elim (Result-cases (load_packet h fs faults.read path)) [
    | inr (x, l) ↦ ground arith
    | inl (p, l) ↦
        let (valid, outbox, decidable, built) = prepare_decision_tests d p l e in
        let pending : IsPending path p = record {
          well_formed = (validate-IsWellFormed p).0 (is_empty-nil _ valid);
          in_outbox = outbox;
          decidable = decidable;
        } in
        (p, l, pending, built)
  ]

  prepare_decision_err :
      (d : Decision) (e : Exit)
      → prepare_decision h fs faults path d actor reason lease clock ≡ err e
      → Stops e
  unfolding prepare_decision
  prepare_decision_err d e q = elim (Result-cases (load_packet h fs faults.read path)) [
    | inr (x, l) ↦ inl (load_packet_err h fs faults.read path (ground arith))
    | inl (p, l) ↦ inr (ground arith)
  ]

  -- A decision that succeeds acted on a well-formed packet in the outbox that awaited one (RTA or
  -- IN_REVIEW). A denied packet is moved to the archive, where no file stood; a cleared one and
  -- one sent back for information stay in the outbox. No other file changes, but for the
  -- temporary file of a rewrite, which is gone.
  pub decide_success :
      (d : Decision)
      → (decide h fs faults path d actor reason false lease clock).0 ≡ success
      → (p : Fields) × (load_packet h fs faults.read path ≡ ok p)
        × IsPending path p
        × (d ≡ dta → fs (sibling path "clearance_done") ≡ none)
        × ((decide h fs faults path d actor reason false lease clock).1
            ≡ archived h fs d path (build_decision p path.name d actor reason lease clock))
  unfolding decide
  decide_success dta e =
      let (c, q, _, free, after) =
        run_success h fs faults path _ false _ (prepare_decision_err dta) e in
      let (p, l, pending, built) = prepare_decision_ok dta q in
      (p, l, pending, λ _. free, rw (← built) after)
  decide_success cta e =
      let (c, q, _, after) =
        inplace_success h fs faults path false _ (prepare_decision_err cta) e in
      let (p, l, pending, built) = prepare_decision_ok cta q in
      (p, l, pending, λ x. cc, rw (← built) after)
  decide_success rfi e =
      let (c, q, _, after) =
        inplace_success h fs faults path false _ (prepare_decision_err rfi) e in
      let (p, l, pending, built) = prepare_decision_ok rfi q in
      (p, l, pending, λ x. cc, rw (← built) after)

  -- A refused decision leaves every file as it was, but for the temporary file of a rewrite, when
  -- a partial file can be removed and the packet is not reported as needing review.
  pub decide_refused :
      (d : Decision) (dry_run : Bool) (r : Refusal) (q : FilePath)
      → faults.cleanup ≡ false
      → temp_path path ≢ q
      → r ≢ needs_review
      → (decide h fs faults path d actor reason dry_run lease clock).0 ≡ refused r
      → (decide h fs faults path d actor reason dry_run lease clock).1 q ≡ fs q
  unfolding decide
  decide_refused dta dry_run r q c ne nr e =
      run_refused h fs faults path (sibling path "clearance_done") dry_run _ r q c e
  decide_refused _ dry_run r q c ne nr e = inplace_refused h fs faults path dry_run _ r q ne nr e
