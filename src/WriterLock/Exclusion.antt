-- ===== src/WriterLock/Exclusion.antt =====
-- No writer and no archive operation at once.
use clear_wright.Prelude.{
  String, ◌≡◌, refl, inl, inr, Bool, true, false, ◌&&◌, List, [], ◌∷◌, str_eq, arith, All,
  Bool-cases, is_empty, is_empty-nil, ok,
}
use clear_wright.Json.{Value}
use clear_wright.Messages.Log.{LogFile}
use clear_wright.WriterLock.Override.{override_checks, force_clear_exclusive_for_override}
use clear_wright.WriterLock.{
  Processes, Owner, liveness, is_dead, Token, Flag, FlagFile, absent, unreadable, malformed, held,
  Registry, Disk, recover_stale_exclusive, is_absent, acquire_write_token, without,
  release_write_token, remaining, swept, acquire_exclusive, owns, release_exclusive,
}

abbrev pub IsDead : Processes → Token → Type 0
IsDead os t = is_dead (liveness os t.owner) ≡ true

-- While a flag is there, no token belongs to an owner that may be alive.
abbrev pub IsExclusive : Processes → Registry → Type 0
IsExclusive os r = is_absent r.flag ≡ false → All (IsDead os) r.tokens

-- One operation of some process on the registry, or a change of the process table in which the dead
-- stay dead. An override has checked a flag that it read before, with the process table of then.
pub data Step : Processes × Registry → Processes × Registry → Type 0 where
  ticked :
      {os new : Processes} {r : Registry}
      → ((o : Owner) → is_dead (liveness os o) ≡ true → is_dead (liveness new o) ≡ true)
      → Step (os, r) (new, r)
  token_asked :
      {os : Processes} {r : Registry} (disk : Disk) (t : Token)
      → Step (os, r) (os, (acquire_write_token os disk r t).1)
  token_released :
      {os : Processes} {r : Registry} (id : String) → Step (os, r) (os, release_write_token r id)
  exclusive_asked :
      {os : Processes} {r : Registry} (disk : Disk) (f : Flag) (removable : String → Bool)
      → Step (os, r) (os, (acquire_exclusive os disk r f removable).1)
  exclusive_released :
      {os : Processes} {r : Registry} (disk : Disk) (opid nonce : String)
      → Step (os, r) (os, release_exclusive disk r opid nonce)
  overridden :
      {os : Processes} {r : Registry} (then_os : Processes) (disk : Disk) (files : List LogFile)
      (seen : FlagFile) (id : Value)
      → override_checks then_os files seen id true ≡ ok tt
      → Step (os, r) (os, record r { flag = force_clear_exclusive_for_override disk r.flag })

pub data Reaches (s : Processes × Registry) : Processes × Registry → Type 0 where
  start : Reaches s s
  after : {t u : Processes × Registry} → Reaches s t → Step t u → Reaches s u

recover_absent :
    (os : Processes) (disk : Disk) (f : FlagFile)
    → is_absent (recover_stale_exclusive os disk f) ≡ false
    → is_absent f ≡ false
unfolding recover_stale_exclusive
recover_absent os disk absent h = cc
recover_absent os disk unreadable h = refl
recover_absent os disk (malformed x) h = refl
recover_absent os disk (held f) h = refl

All-IsDead-tick :
    (os new : Processes) (ts : List Token)
    → ((o : Owner) → is_dead (liveness os o) ≡ true → is_dead (liveness new o) ≡ true)
    → All (IsDead os) ts
    → All (IsDead new) ts
All-IsDead-tick os new [] stay a = tt
All-IsDead-tick os new (t ∷ ts) stay a = (stay t.owner a.0, All-IsDead-tick os new ts stay a.1)

All-without :
    (os : Processes) (id : String) (ts : List Token)
    → All (IsDead os) ts
    → All (IsDead os) (without id ts)
unfolding without
All-without os id [] a = tt
All-without os id (t ∷ ts) a = elim (Bool-cases (str_eq t.token_id id)) [
  | inl e ↦ rw e (All-without os id ts a.1)
  | inr e ↦ rw e (a.0, All-without os id ts a.1)
]

remaining-nil : (os : Processes) (ts : List Token) → remaining os ts ≡ [] → All (IsDead os) ts
unfolding remaining
remaining-nil os [] h = tt
remaining-nil os (t ∷ ts) h = elim (Bool-cases (is_dead (liveness os t.owner))) [
  | inl e ↦ (e, remaining-nil os ts (ground arith))
  | inr e ↦ let bad : ⊥ = ground arith in elim bad [ ]
]

All-swept :
    (os : Processes) (removable : String → Bool) (ts : List Token)
    → All (IsDead os) ts
    → All (IsDead os) (swept os removable ts)
unfolding swept
All-swept os removable [] a = tt
All-swept os removable (t ∷ ts) a =
    elim (Bool-cases (is_dead (liveness os t.owner) && removable t.token_id)) [
      | inl e ↦ rw e (All-swept os removable ts a.1)
      | inr e ↦ rw e (a.0, All-swept os removable ts a.1)
    ]

module _ (os : Processes) (disk : Disk) (r : Registry) (x : IsExclusive os r) where
  acquire_write_token-IsExclusive : (t : Token) → IsExclusive os (acquire_write_token os disk r t).1
  unfolding acquire_write_token
  acquire_write_token-IsExclusive t =
      elim (Bool-cases (is_absent (recover_stale_exclusive os disk r.flag))) [
        | inl e ↦ rw (e, acquire_write_token) (λ h. let bad : ⊥ = ground arith in elim bad [ ])
        | inr e ↦ rw (e, acquire_write_token) (λ h. x (recover_absent os disk r.flag e))
      ]

  acquire_exclusive-IsExclusive :
      (f : Flag) (removable : String → Bool)
      → IsExclusive os (acquire_exclusive os disk r f removable).1
  unfolding acquire_exclusive
  acquire_exclusive-IsExclusive f removable =
      elim (Bool-cases (is_absent (recover_stale_exclusive os disk r.flag))) [
        | inr e ↦ rw (e, acquire_exclusive) (λ h. x (recover_absent os disk r.flag e))
        | inl e ↦ elim (Bool-cases (is_empty (remaining os r.tokens))) [
          | inl n ↦
              rw (e, n, acquire_exclusive)
                (λ h.
                  All-swept os removable r.tokens (remaining-nil os r.tokens (is_empty-nil _ n)))
          | inr n ↦ rw (e, n, acquire_exclusive) (λ h. let bad : ⊥ = ground arith in elim bad [ ])
        ]
      ]

  release_exclusive-IsExclusive :
      (opid nonce : String) → IsExclusive os (release_exclusive disk r opid nonce)
  unfolding release_exclusive
  release_exclusive-IsExclusive opid nonce =
      elim (Bool-cases (owns r.flag opid nonce && disk.flag_removed)) [
        | inl e ↦ rw (e, release_exclusive) (λ h. let bad : ⊥ = cc in elim bad [ ])
        | inr e ↦ rw (e, release_exclusive) x
      ]

Step-IsExclusive :
    {s t : Processes × Registry} → Step s t → IsExclusive s.0 s.1 → IsExclusive t.0 t.1
unfolding release_write_token force_clear_exclusive_for_override
Step-IsExclusive (ticked {os} {new} {r} stay) x = λ h. All-IsDead-tick os new r.tokens stay (x h)
Step-IsExclusive (token_asked {os} {r} disk t) x = acquire_write_token-IsExclusive os disk r x t
Step-IsExclusive (token_released {os} {r} id) x = λ h. All-without os id r.tokens (x h)
Step-IsExclusive (exclusive_asked {os} {r} disk f removable) x =
    acquire_exclusive-IsExclusive os disk r x f removable
Step-IsExclusive (exclusive_released {os} {r} disk opid nonce) x =
    release_exclusive-IsExclusive os disk r x opid nonce
Step-IsExclusive (overridden {os} {r} then_os disk files seen id checked) x =
    elim (Bool-cases disk.flag_removed) [
      | inl e ↦ rw (e, force_clear_exclusive_for_override) (λ h. let bad : ⊥ = cc in elim bad [ ])
      | inr e ↦ rw (e, force_clear_exclusive_for_override) x
    ]

-- Writers and an archive operation exclude each other: however processes ask for and release tokens
-- and the flag, the operator overrides the flag, and processes end, while a flag is there every token is a dead owner's, if that
-- held at first.
pub Reaches-IsExclusive :
    (os : Processes) (r : Registry) {t : Processes × Registry}
    → Reaches (os, r) t
    → IsExclusive os r
    → IsExclusive t.0 t.1
Reaches-IsExclusive os r start x = x
Reaches-IsExclusive os r (after a step) x = Step-IsExclusive step (Reaches-IsExclusive os r a x)
