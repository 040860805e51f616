-- ===== src/Queue/Store.antt =====
-- What the shared safe-write steps of the queue tools leave on disk.
use clear_wright.Prelude.{
  ◌≡◌, ◌≢◌, ◌⊎◌, inl, inr, ◌↔◌, Bool, true, false, [], none, some, arith, eq_iff, is_empty-nil,
  append-eq-nil, Result, ok, err, Result-cases, Bool-cases,
}
use clear_wright.Json.{Fields, get}
use clear_wright.Packet.{FilePath, validate, validate_queue_path}
use clear_wright.Queue.{
  Host, RoundTrips, Fs, Faults, Exit, LoadError, load_failed, success, refused, same_path, update,
  packet_ok, load_packet, write_exclusive, write_inplace, disk_ok, finish_move, move_packet,
  run_move, Refusal, temp_path,
}

pub same_path_iff : (p q : FilePath) → (same_path p q ≡ true) ↔ (p ≡ q)
same_path_iff p q = (
  λ h. ground (arith, eq_iff p.parent q.parent, eq_iff p.dir q.dir, eq_iff p.name q.name),
  λ h. ground (arith, eq_iff p.parent q.parent, eq_iff p.dir q.dir, eq_iff p.name q.name),
)

module _ {ℓ} {A : Type ℓ} (fs : FilePath → A) (p : FilePath) (v : A) where
  pub update_self : update fs p v p ≡ v
  unfolding update
  update_self = rw ((same_path_iff p p).1 (λ i. p))

  pub update_ne : (q : FilePath) → p ≢ q → update fs p v q ≡ fs q
  unfolding update
  update_ne q ne = ground (arith, same_path_iff p q)

module _ (h : Host) (fs : Fs h) (faults : Faults h) (dest : FilePath) (p : Fields) where
  pub write_exclusive_ok :
      (write_exclusive h fs faults dest p).0 ≡ none
      → (fs dest ≡ none)
        × ((write_exclusive h fs faults dest p).1 ≡ update fs dest (some (h.dump p)))
  unfolding write_exclusive
  write_exclusive_ok e = ground arith

  pub write_exclusive_refused :
      {r : Refusal}
      → faults.cleanup ≡ false
      → (write_exclusive h fs faults dest p).0 ≡ some r
      → (write_exclusive h fs faults dest p).1 ≡ fs
  unfolding write_exclusive
  write_exclusive_refused c e = ground arith

-- A packet on disk that the validators accept at its place.
abbrev pub OnDisk : (h : Host) → Fs h → FilePath → Fields → Type 0
OnDisk h fs path p =
    (load_packet h fs false path ≡ ok p)
    × (validate p ≡ [])
    × (validate_queue_path path (get p "status") none ≡ [])

module _ (h : Host) (fs : Fs h) (faults : Faults h) (src dest : FilePath) (p : Fields) where
  finish_move_success :
      (finish_move h fs faults src dest).0 ≡ success
      → (disk_ok h fs faults.reread dest ≡ true)
        × ((finish_move h fs faults src dest).1 ≡ update fs src none)
  unfolding finish_move
  finish_move_success e = ground arith

  pub move_success :
      (move_packet h fs faults src dest p).0 ≡ success
      → (fs dest ≡ none)
        × (disk_ok h (update fs dest (some (h.dump p))) faults.reread dest ≡ true)
        × ((move_packet h fs faults src dest p).1
            ≡ update (update fs dest (some (h.dump p))) src none)
  unfolding move_packet write_exclusive finish_move
  move_success e = ground arith

  pub move_refused :
      (r : Refusal) (q : FilePath)
      → faults.cleanup ≡ false
      → (move_packet h fs faults src dest p).0 ≡ refused r
      → (move_packet h fs faults src dest p).1 q ≡ fs q
  unfolding move_packet write_exclusive finish_move update
  move_refused r q c e = ground (arith, same_path_iff dest q)

  -- With no fault, a free destination and a codec that reads back the packet, the move succeeds.
  pub move_complete :
      fs dest ≡ none
      → faults.create ≡ false
      → faults.write ≡ false
      → faults.reread ≡ false
      → faults.remove ≡ false
      → RoundTrips h p
      → packet_ok dest p ≡ true
      → (move_packet h fs faults src dest p).0 ≡ success
  unfolding move_packet write_exclusive finish_move disk_ok load_packet
  move_complete free nc nw nr nm rt good = ground (arith, update_self fs dest (some (h.dump p)))

pub packet_ok-nil :
    (path : FilePath) (p : Fields)
    → (packet_ok path p ≡ true)
      ↔ ((validate p ≡ []) × (validate_queue_path path (get p "status") none ≡ []))
unfolding packet_ok
packet_ok-nil path p =
    (λ e. (append-eq-nil (validate p) _).0 (is_empty-nil _ e), λ e. rw (e.0, e.1))

module _ (h : Host) (fs : Fs h) where
  pub load_packet_err :
      {e : Exit} (fails : Bool) (path : FilePath)
      → load_packet h fs fails path ≡ err e
      → (x : LoadError) × (e ≡ load_failed x)
  unfolding load_packet
  load_packet_err fails path l = ground arith

  load_fault :
      (fails : Bool) (path : FilePath) (p : Fields)
      → load_packet h fs fails path ≡ ok p
      → load_packet h fs false path ≡ ok p
  unfolding load_packet
  load_fault fails path p e = ground arith

  pub disk_ok-OnDisk :
      (fails : Bool) (path : FilePath)
      → disk_ok h fs fails path ≡ true
      → (p : Fields) × OnDisk h fs path p
  unfolding disk_ok
  disk_ok-OnDisk fails path e = elim (Result-cases (load_packet h fs fails path)) [
    | inl (p, l) ↦
        let good = (packet_ok-nil path p).0 (ground arith) in
        (p, (load_fault fails path p l, good.0, good.1))
    | inr (x, l) ↦ ground arith
  ]

  pub OnDisk-eq :
      (gs : Fs h) (path : FilePath) {p : Fields}
      → gs path ≡ fs path
      → OnDisk h fs path p
      → OnDisk h gs path p
  unfolding load_packet
  OnDisk-eq gs path e d = (rw (e, load_packet) d.0, d.1, d.2)

module _ (h : Host) (fs : Fs h) (faults : Faults h) (src dest : FilePath) (p : Fields)
    (ne : src ≢ dest) where
  pub move_success_OnDisk :
      (move_packet h fs faults src dest p).0 ≡ success
      → (q : Fields) × OnDisk h (move_packet h fs faults src dest p).1 dest q
  move_success_OnDisk e =
      let (_, good, after) = move_success h fs faults src dest p e in
      let written : Fs h = update fs dest (some (h.dump p)) in
      let (q, d) = disk_ok-OnDisk h written faults.reread dest good in
      (
        q,
        rw after (
            OnDisk-eq h written (update written src none) dest (update_ne written src none dest ne)
              d),
      )

  pub move_keeps_source :
      ((move_packet h fs faults src dest p).0 ≡ success)
      ⊎ ((move_packet h fs faults src dest p).1 src ≡ fs src)
  unfolding move_packet write_exclusive finish_move update
  move_keeps_source = ground (arith, same_path_iff dest src)

  -- Whatever fails, the packet is not lost: its file stands as it was, or the run succeeded and the
  -- destination holds a packet that the validators accept.
  pub move_keeps :
      ((move_packet h fs faults src dest p).1 src ≡ fs src)
      ⊎ (((move_packet h fs faults src dest p).0 ≡ success)
          × ((q : Fields) × OnDisk h (move_packet h fs faults src dest p).1 dest q))
  move_keeps = elim move_keeps_source [ inl e ↦ inr (e, move_success_OnDisk e) | inr e ↦ inl e ]

-- An early exit is a failed load or a refusal.
abbrev pub Stops : Exit → Type 0
Stops e = ((x : LoadError) × (e ≡ load_failed x)) ⊎ ((r : Refusal) × (e ≡ refused r))

module _ (h : Host) (fs : Fs h) (faults : Faults h) (src dest : FilePath) (dry_run : Bool)
    (prepared : Result Exit Fields) where
  pub run_refused :
      (r : Refusal) (q : FilePath)
      → faults.cleanup ≡ false
      → (run_move h fs faults src dest dry_run prepared).0 ≡ refused r
      → (run_move h fs faults src dest dry_run prepared).1 q ≡ fs q
  unfolding run_move
  run_refused r q c e = elim (Result-cases prepared) [
    | inr (x, l) ↦ rw (l, run_move)
    | inl (p, l) ↦ ground (arith, move_refused h fs faults src dest p r q c)
  ]

  pub run_success :
      ((e : Exit) → prepared ≡ err e → Stops e)
      → (run_move h fs faults src dest dry_run prepared).0 ≡ success
      → (p : Fields) × (prepared ≡ ok p)
        × (dry_run ≡ false)
        × (fs dest ≡ none)
        × ((run_move h fs faults src dest dry_run prepared).1
            ≡ update (update fs dest (some (h.dump p))) src none)
  unfolding run_move
  run_success stops e = elim (Result-cases prepared) [
    | inr (x, l) ↦ ground (arith, stops x l)
    | inl (p, l) ↦ (
      p,
      l,
      ground arith,
      ground (arith, move_success h fs faults src dest p),
      ground (arith, move_success h fs faults src dest p),
    )
  ]

  -- Whatever fails, the packet is not lost.
  pub run_keeps :
      src ≢ dest
      → ((e : Exit) → prepared ≡ err e → Stops e)
      → ((run_move h fs faults src dest dry_run prepared).1 src ≡ fs src)
        ⊎ (((run_move h fs faults src dest dry_run prepared).0 ≡ success)
            × ((q : Fields) × OnDisk h (run_move h fs faults src dest dry_run prepared).1 dest q))
  unfolding run_move
  run_keeps ne stops = elim (Result-cases prepared) [
    | inr (x, l) ↦ inl (rw (l, run_move))
    | inl (p, l) ↦ elim (Bool-cases dry_run) [
      | inl d ↦ inl (rw (l, d, run_move))
      | inr d ↦ rw (l, d, run_move) (move_keeps h fs faults src dest p ne)
    ]
  ]

module _ (h : Host) (fs : Fs h) (faults : Faults h) (path : FilePath) where
  pub write_inplace_ok :
      (p : Fields)
      → (write_inplace h fs faults path p).0 ≡ none
      → (write_inplace h fs faults path p).1
        ≡ update (update fs (temp_path path) none) path (some (h.dump p))
  unfolding write_inplace
  write_inplace_ok p e = ground arith

  -- A failed rewrite leaves every file but the temporary one as it was.
  pub write_inplace_refused :
      (p : Fields) (r : Refusal) (q : FilePath)
      → temp_path path ≢ q
      → (write_inplace h fs faults path p).0 ≡ some r
      → (write_inplace h fs faults path p).1 q ≡ fs q
  unfolding write_inplace update
  write_inplace_refused p r q ne e = ground (arith, same_path_iff (temp_path path) q)
