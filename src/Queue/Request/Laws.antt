-- ===== src/Queue/Request/Laws.antt =====
-- What authoring a request does to the queue, on each of its exits.
use clear_wright.Prelude.{
  String, ◌≡◌, inl, inr, Bool, true, false, [], ◌++◌, none, some, arith, is_empty-nil,
  append-eq-nil, ok, err, Result-cases,
}
use clear_wright.Json.{Fields, get}
use clear_wright.Packet.{FilePath, validate, validate_queue_path}
use clear_wright.Packet.Rules.{IsWellFormed, validate-IsWellFormed}
use clear_wright.Queue.{Host, Fs, Faults, Exit, success, refused, Refusal, update, write_exclusive}
use clear_wright.Queue.Store.{same_path_iff}
use clear_wright.Queue.Request.{
  RequestArgs, Stamp, build_request, request_path, prepare_request, finish_request, write_request,
  request,
}

module _ (has_outbox : Bool) (root : String) (args : RequestArgs) (at : Stamp) where
  prepare_request_ok :
      {c : Fields}
      → prepare_request has_outbox root args at ≡ ok c
      → (c ≡ build_request args at)
        × (has_outbox ≡ true)
        × (validate c ≡ [])
        × (validate_queue_path (request_path root args at) (get c "status") none ≡ [])
  unfolding prepare_request
  prepare_request_ok {c} e =
      let p = build_request args at in
      let post = validate_queue_path (request_path root args at) (get p "status") none in
      ground (arith, is_empty-nil (validate p ++ post), append-eq-nil (validate p) post)

  prepare_request_err :
      (e : Exit) → prepare_request has_outbox root args at ≡ err e → (r : Refusal) × (e ≡ refused r)
  unfolding prepare_request
  prepare_request_err e q = ground arith

module _ (h : Host) (fs : Fs h) (faults : Faults h) (has_outbox : Bool) (root : String)
    (args : RequestArgs) (at : Stamp) where
  write_request_success :
      (p : Fields) (dest : FilePath)
      → (write_request h fs faults dest p).0 ≡ success
      → (fs dest ≡ none) × ((write_request h fs faults dest p).1 ≡ update fs dest (some (h.dump p)))
  unfolding write_request finish_request write_exclusive
  write_request_success p dest e = ground arith

  write_request_refused :
      (p : Fields) (dest : FilePath) (r : Refusal) (q : FilePath)
      → faults.cleanup ≡ false
      → (write_request h fs faults dest p).0 ≡ refused r
      → (write_request h fs faults dest p).1 q ≡ fs q
  unfolding write_request finish_request write_exclusive update
  write_request_refused p dest r q c e = ground (arith, same_path_iff dest q)

  -- A request that succeeds put a well-formed packet into an outbox that exists, where no file
  -- stood, and touched no other file.
  pub request_success :
      (request h fs faults has_outbox root args false at).0 ≡ success
      → (has_outbox ≡ true)
        × IsWellFormed (build_request args at)
        × (fs (request_path root args at) ≡ none)
        × ((request h fs faults has_outbox root args false at).1
            ≡ update fs (request_path root args at) (some (h.dump (build_request args at))))
  unfolding request
  request_success e = elim (Result-cases (prepare_request has_outbox root args at)) [
    | inr (x, l) ↦ ground (arith, prepare_request_err has_outbox root args at x l)
    | inl (p, l) ↦
        let (made, outbox, valid, _) = prepare_request_ok has_outbox root args at l in
        let w = write_request_success p (request_path root args at) (rw (l, request) at e) in
        (outbox, rw (← made) ((validate-IsWellFormed p).0 valid), w.0, rw (l, request, ← made) w.1)
  ]

  -- A refused request leaves every file as it was, unless removing a partial file failed.
  pub request_refused :
      (dry_run : Bool) (r : Refusal) (q : FilePath)
      → faults.cleanup ≡ false
      → (request h fs faults has_outbox root args dry_run at).0 ≡ refused r
      → (request h fs faults has_outbox root args dry_run at).1 q ≡ fs q
  unfolding request
  request_refused dry_run r q c e = elim (Result-cases (prepare_request has_outbox root args at)) [
    | inr (x, l) ↦ rw (l, request)
    | inl (p, l) ↦ ground (arith, write_request_refused p (request_path root args at) r q c)
  ]
