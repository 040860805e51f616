-- ===== src/Queue/Inspect/Laws.antt =====
-- What a clean inspection means.
use clear_wright.Prelude.{
  ℕ, String, ◌<◌, ◌≡◌, ◌↔◌, inl, inr, refl, Bool, true, false, [], Option, some, arith, ltb→lt,
  is_empty-nil, Result, ok, err, Result-cases, Option-cases,
}
use clear_wright.Json.{Value, null, Fields, get}
use clear_wright.Packet.{FilePath, validate, validate_queue_path}
use clear_wright.Packet.Rules.{IsWellFormed, validate-IsWellFormed}
use clear_wright.Queue.{Host, Fs, load_packet, exit_code}
use clear_wright.Queue.Store.{load_packet_err}
use clear_wright.Queue.Inspect.{
  Info, IsoError, parse_iso, read_lease, lease_of, expected_queue_for, analyze, is_expired,
  is_stale, inspect_exit, reported, cmd_inspect,
}

-- The value is a time that lies before now.
abbrev pub HasExpired : (String → Option ℕ) → ℕ → Value → Type 0
HasExpired from_iso now v = (t : ℕ) × (parse_iso from_iso v ≡ ok t) × (t < now)

module _ (from_iso : String → Option ℕ) (now : ℕ) where
  read_expired :
      (r : Result IsoError ℕ)
      → (is_expired (read_lease now r) ≡ true) ↔ ((t : ℕ) × (r ≡ ok t) × (t < now))
  unfolding read_lease
  read_expired (err e) =
      (λ h. let bad : ⊥ = cc in elim bad [ ], λ x. let bad : ⊥ = ground arith in elim bad [ ])
  read_expired (ok t) = (λ h. (t, refl, ltb→lt t now (ground arith)), λ x. ground arith)

  lease_expired :
      (v : Value) → (is_expired (lease_of from_iso now v) ≡ true) ↔ HasExpired from_iso now v
  unfolding lease_of parse_iso
  lease_expired null =
      (λ h. let bad : ⊥ = cc in elim bad [ ], λ x. let bad : ⊥ = ground arith in elim bad [ ])
  lease_expired v = read_expired (parse_iso from_iso v)

  inspect_tests :
      (path : FilePath) (p : Fields) (root : Option String) (info : Info) (q : Option String)
      → expected_queue_for (get p "status") ≡ some q
      → analyze from_iso now path p root ≡ some info
      → inspect_exit info ≡ 0
      → (validate p ≡ [])
        × (validate_queue_path path (get p "status") root ≡ [])
        × (is_expired (lease_of from_iso now (get p "claim_expires_at")) ≡ false)
        × (is_expired (lease_of from_iso now (get p "clearance_expires_at")) ≡ false)
  unfolding analyze inspect_exit is_stale
  inspect_tests path p root info q n a e = ground (
    arith,
    is_empty-nil (validate p),
    is_empty-nil (validate_queue_path path (get p "status") root),
  )

  inspect_info :
      (path : FilePath) (p : Fields) (root : Option String) (info : Info)
      → analyze from_iso now path p root ≡ some info
      → inspect_exit info ≡ 0
      → IsWellFormed p
        × (validate_queue_path path (get p "status") root ≡ [])
        × (¬ HasExpired from_iso now (get p "claim_expires_at"))
        × (¬ HasExpired from_iso now (get p "clearance_expires_at"))
  unfolding analyze inspect_exit is_stale
  inspect_info path p root info a e = elim (Option-cases (expected_queue_for (get p "status"))) [
    | inl n ↦ let bad : ⊥ = ground arith in elim bad [ ]
    | inr (q, n) ↦
        let (valid, placed, claim, clearance) = inspect_tests path p root info q n a e in
        (
          (validate-IsWellFormed p).0 valid,
          placed,
          λ x. let late = (lease_expired (get p "claim_expires_at")).1 x in cc,
          λ x. let late = (lease_expired (get p "clearance_expires_at")).1 x in cc,
        )
  ]

  -- An inspection that ends with exit code 0 read a well-formed packet that stands in its place,
  -- under the queue root if one is given, and of which no lease has expired.
  pub cmd_inspect_clean :
      (h : Host) (fs : Fs h) (fails : Bool) (path : FilePath) (root : Option String)
      → cmd_inspect h fs fails from_iso now path root ≡ some 0
      → (p : Fields) × (load_packet h fs fails path ≡ ok p)
        × IsWellFormed p
        × (validate_queue_path path (get p "status") root ≡ [])
        × (¬ HasExpired from_iso now (get p "claim_expires_at"))
        × (¬ HasExpired from_iso now (get p "clearance_expires_at"))
  unfolding cmd_inspect reported exit_code
  cmd_inspect_clean h fs fails path root e = elim (Result-cases (load_packet h fs fails path)) [
    | inr (x, l) ↦ let bad : ⊥ = ground (arith, load_packet_err h fs fails path l) in elim bad [ ]
    | inl (p, l) ↦ elim (Option-cases (analyze from_iso now path p root)) [
      | inl n ↦ let bad : ⊥ = ground arith in elim bad [ ]
      | inr (info, n) ↦
          let (w, placed, claim, clearance) = inspect_info path p root info n (ground arith) in
          (p, l, w, placed, claim, clearance)
    ]
  ]
