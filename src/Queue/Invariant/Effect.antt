-- ===== src/Queue/Invariant/Effect.antt =====
-- What one run of a queue tool can leave at a path: the file that stood there, nothing, or a
-- packet that the validators accept there.
use clear_wright.Prelude.{
  String, ◌≡◌, sym, ◌⊎◌, inl, inr, Bool, true, false, List, [], ◌++◌, eq_iff, Option, none, some,
  arith, Any, ok, Result, Result-cases, Bool-cases, is_empty, is_empty-nil, append-eq-nil, ℤ,
  elem-Any, subst,
}
use clear_wright.Json.{str, Fields, get}
use clear_wright.Packet.{FilePath, queue_status, validate, validate_queue_path, allowed_status}
use clear_wright.Packet.Rules.{IsWellFormed, validate-IsWellFormed, validate_queue_path-Holds}
use clear_wright.Queue.{
  Host, RoundTrips, Fs, Faults, Exit, load_packet, parsed, update, temp_path, write_exclusive,
  write_inplace, finish_move, move_packet, run_move,
}
use clear_wright.Queue.Store.{same_path_iff}
use clear_wright.Queue.Claim.{sibling, prepare_claim, claim}
use clear_wright.Queue.Decide.{
  Decision, cta, dta, rfi, decided_dir, Clock, prepare_decision, run_inplace, decide,
}
use clear_wright.Queue.Lifecycle.{Ending, ending_dir, prepare_transition, transition}
use clear_wright.Queue.Request.{
  RequestArgs, Stamp, request_path, prepare_request, write_request, finish_request, request,
}

-- The packet passes both validators at the path.
abbrev pub Accepted : FilePath → Fields → Type 0
Accepted path p = (validate p ≡ []) × (validate_queue_path path (get p "status") none ≡ [])

abbrev pub Sane : (h : Host) → Fs h → Fs h → FilePath → Type 0
Sane h fs gs q =
    (gs q ≡ fs q) ⊎ (gs q ≡ none) ⊎ ((p : Fields) × (gs q ≡ some (h.dump p)) × Accepted q p)

-- Every packet that can be read from a queue directory is well formed, and its directory holds
-- its status.
abbrev pub IsSorted : (h : Host) → Fs h → Type 0
IsSorted h fs =
    (path : FilePath) (p : Fields) (held : List String)
    → load_packet h fs false path ≡ ok p
    → queue_status path.dir ≡ some held
    → IsWellFormed p × ((s : String) × (get p "status" ≡ str s) × Any (λ x. s ≡ x) held)

Accepted-held :
    (path : FilePath) (p : Fields) (held : List String)
    → Accepted path p
    → queue_status path.dir ≡ some held
    → IsWellFormed p × ((s : String) × (get p "status" ≡ str s) × Any (λ x. s ≡ x) held)
Accepted-held path p held a q =
    let w = (validate-IsWellFormed p).0 a.0 in
    elim w.status [
      | inl e ↦ ground (arith, w.present.1.1.1.1.1.1.0)
      | inr (s, e, m) ↦
          let (other, o, held_by) =
            (validate_queue_path-Holds path s (elem-Any s allowed_status m)).0 (rw (e) at a.1) in
          (w, (s, e, ground (arith)))
    ]

Accepted-append :
    (path : FilePath) (p : Fields)
    → is_empty (validate p ++ validate_queue_path path (get p "status") none) ≡ true
    → Accepted path p
Accepted-append path p e = (append-eq-nil (validate p) _).0 (is_empty-nil _ e)

module _ (h : Host) (fs : Fs h) (faults : Faults h) (path : FilePath) (c : faults.cleanup ≡ false)
    (q : FilePath) where
  -- The file that stood there, nothing, or the packet at its destination.
  abbrev Left : Fs h → FilePath → Fields → Type 0
  Left gs dest p = (gs q ≡ fs q) ⊎ (gs q ≡ none) ⊎ ((gs q ≡ some (h.dump p)) × (dest ≡ q))

  pub Left-Sane :
      (gs : Fs h) (dest : FilePath) (p : Fields) → Accepted dest p → Left gs dest p → Sane h fs gs q
  Left-Sane gs dest p a (inl e) = inl e
  Left-Sane gs dest p a (inr (inl e)) = inr (inl e)
  Left-Sane gs dest p a (inr (inr (e, d))) = inr (inr (p, e, subst (λ x. Accepted x p) d a))

  move-Left : (dest : FilePath) (p : Fields) → Left (move_packet h fs faults path dest p).1 dest p
  unfolding move_packet write_exclusive finish_move update
  move-Left dest p = ground (arith, same_path_iff dest q, same_path_iff path q)

  run-Sane :
      (dest : FilePath) (dry_run : Bool) (prepared : Result Exit Fields)
      → ((p : Fields) → prepared ≡ ok p → Accepted dest p)
      → Sane h fs (run_move h fs faults path dest dry_run prepared).1 q
  unfolding run_move
  run-Sane dest dry_run prepared good = elim (Result-cases prepared) [
    | inr (x, l) ↦ inl (rw (l, run_move))
    | inl (p, l) ↦ elim (Bool-cases dry_run) [
      | inl d ↦ inl (rw (l, d, run_move))
      | inr d ↦
          rw (l, d, run_move)
            (Left-Sane (move_packet h fs faults path dest p).1 dest p (good p l) (move-Left dest p))
    ]
  ]

  inplace-Left :
      (dry_run : Bool) (p : Fields) → Left (run_inplace h fs faults path dry_run (ok p)).1 path p
  unfolding run_inplace write_inplace update
  inplace-Left dry_run p = ground (arith, same_path_iff path q, same_path_iff (temp_path path) q)

  inplace-Sane :
      (dry_run : Bool) (prepared : Result Exit Fields)
      → ((p : Fields) → prepared ≡ ok p → Accepted path p)
      → Sane h fs (run_inplace h fs faults path dry_run prepared).1 q
  unfolding run_inplace
  inplace-Sane dry_run prepared good = elim (Result-cases prepared) [
    | inr (x, l) ↦ inl (rw (l, run_inplace))
    | inl (p, l) ↦
        rw (l, run_inplace)
          (Left-Sane (run_inplace h fs faults path dry_run (ok p)).1 path p (good p l)
            (inplace-Left dry_run p))
  ]

  prepare_claim-Accepted :
      (claimant : Option String) (now : String) (p : Fields)
      → prepare_claim h fs faults path claimant now ≡ ok p
      → Accepted (sibling path "clearance_in_progress") p
  unfolding prepare_claim
  prepare_claim-Accepted claimant now p e =
      ground (arith, Accepted-append (sibling path "clearance_in_progress") p)

  pub claim-Sane :
      (claimant : Option String) (dry_run : Bool) (now : String)
      → Sane h fs (claim h fs faults path claimant dry_run now).1 q
  unfolding claim
  claim-Sane claimant dry_run now =
      run-Sane (sibling path "clearance_in_progress") dry_run _
        (prepare_claim-Accepted claimant now)

  prepare_decision-Accepted :
      (d : Decision) (actor : Option String) (reason : String) (lease : Option ℤ) (clock : Clock)
      (p : Fields)
      → prepare_decision h fs faults path d actor reason lease clock ≡ ok p
      → Accepted (sibling path (decided_dir d)) p × (path.dir ≡ "clearance_outbox")
  unfolding prepare_decision
  prepare_decision-Accepted d actor reason lease clock p e =
      ground (
        arith,
        Accepted-append (sibling path (decided_dir d)) p,
        eq_iff path.dir "clearance_outbox",
      )

  rewritten_in_place :
      (p : Fields)
      → Accepted (sibling path "clearance_outbox") p × (path.dir ≡ "clearance_outbox")
      → Accepted path p
  rewritten_in_place p a = subst (λ (x : String). Accepted (sibling path x) p) (sym a.1) a.0

  pub decide-Sane :
      (d : Decision) (actor : Option String) (reason : String) (dry_run : Bool) (lease : Option ℤ)
      (clock : Clock)
      → Sane h fs (decide h fs faults path d actor reason dry_run lease clock).1 q
  unfolding decide decided_dir
  decide-Sane dta actor reason dry_run lease clock =
      run-Sane (sibling path "clearance_done") dry_run _
        (λ p e. (prepare_decision-Accepted dta actor reason lease clock p e).0)
  decide-Sane cta actor reason dry_run lease clock =
      inplace-Sane dry_run _
        (λ p e. rewritten_in_place p (prepare_decision-Accepted cta actor reason lease clock p e))
  decide-Sane rfi actor reason dry_run lease clock =
      inplace-Sane dry_run _
        (λ p e. rewritten_in_place p (prepare_decision-Accepted rfi actor reason lease clock p e))

  prepare_transition-Accepted :
      (e : Ending) (actor : Option String) (reason : String) (results : Option Fields)
      (now : String) (p : Fields)
      → prepare_transition h fs faults path e actor reason results now ≡ ok p
      → Accepted (sibling path (ending_dir e)) p
  unfolding prepare_transition
  prepare_transition-Accepted e actor reason results now p x =
      ground (arith, Accepted-append (sibling path (ending_dir e)) p)

  pub transition-Sane :
      (e : Ending) (actor : Option String) (dry_run : Bool) (reason : String)
      (results : Option Fields) (now : String)
      → Sane h fs (transition h fs faults path e actor dry_run reason results now).1 q
  unfolding transition
  transition-Sane e actor dry_run reason results now =
      run-Sane (sibling path (ending_dir e)) dry_run _
        (prepare_transition-Accepted e actor reason results now)

module _ (h : Host) (fs : Fs h) (faults : Faults h) (c : faults.cleanup ≡ false) (q : FilePath)
    (has_outbox : Bool) (root : String) (args : RequestArgs) where
  prepare_request-Accepted :
      (at : Stamp) (p : Fields)
      → prepare_request has_outbox root args at ≡ ok p
      → Accepted (request_path root args at) p
  unfolding prepare_request
  prepare_request-Accepted at p e = ground (arith, Accepted-append (request_path root args at) p)

  request-Left :
      (dry_run : Bool) (at : Stamp) (dest : FilePath) (p : Fields)
      → Left h fs faults dest c q (write_request h fs faults dest p).1 dest p
  unfolding write_request finish_request write_exclusive update
  request-Left dry_run at dest p = ground (arith, same_path_iff dest q)

  pub request-Sane :
      (dry_run : Bool) (at : Stamp)
      → Sane h fs (request h fs faults has_outbox root args dry_run at).1 q
  unfolding request
  request-Sane dry_run at =
      let dest = request_path root args at in
      elim (Result-cases (prepare_request has_outbox root args at)) [
        | inr (x, l) ↦ inl (rw (l, request))
        | inl (p, l) ↦ elim (Bool-cases dry_run) [
          | inl d ↦ inl (rw (l, d, request))
          | inr d ↦
              rw (l, d, request)
                (Left-Sane h fs faults dest c q (write_request h fs faults dest p).1 dest p
                  (prepare_request-Accepted at p l) (request-Left dry_run at dest p))
        ]
      ]

loaded_back :
    (h : Host) (gs : Fs h) (q : FilePath) (p x : Fields)
    → RoundTrips h p
    → gs q ≡ some (h.dump p)
    → load_packet h gs false q ≡ ok x
    → x ≡ p
unfolding load_packet parsed
loaded_back h gs q p x rt e l = ground arith

pub Sane-IsSorted :
    (h : Host) (fs gs : Fs h)
    → ((p : Fields) → RoundTrips h p)
    → ((q : FilePath) → Sane h fs gs q)
    → IsSorted h fs
    → IsSorted h gs
unfolding load_packet
Sane-IsSorted h fs gs rt sane sorted q x held l d = elim (sane q) [
  | inl e ↦ sorted q x held (rw (e, load_packet) at l) d
  | inr (inl e) ↦ ground arith
  | inr (inr (p, e, a)) ↦ Accepted-held q x held (rw (loaded_back h gs q p x (rt p) e l) a) d
]
