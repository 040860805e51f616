-- ===== src/Packet/Rules.antt =====
-- What it means for a packet to be well formed, stated apart from the validator, and that the
-- validator decides it.
use clear_wright.Prelude.{
  String, ◌≡◌, refl, ◌↔◌, ◌⊎◌, inl, inr, Bool, true, false, List, [], ◌∷◌, none, some, arith,
  eq_iff, elem, Any, All, Any-elem, elem-Any, append-eq-nil, Bool-cases, Option-cases,
}
use clear_wright.Json.{
  Value, null, bool, int, neg_int, str, Fields, get, is_missing, truthy, is_container,
}
use clear_wright.Packet.{
  FilePath, required_fields, allowed_status, allowed_authority_class, allowed_clearance_class,
  allowed_priority_class, allowed_channel_state, json_blob_fields, missing_errors, enum_bad,
  enum_error, escalation_bad, escalation_error, lease_error, blob_errors, validate, queue_status,
  validate_queue_path, needs_lease,
}

-- `null`, or one of the texts.
abbrev pub IsOneOf : List String → Value → Type 0
IsOneOf allowed v = (v ≡ null) ⊎ ((s : String) × (v ≡ str s) × Any (λ x. s ≡ x) allowed)

-- `null`, a Boolean, 0 or 1.
abbrev pub IsBooleanLike : Value → Type 0
IsBooleanLike v =
    (v ≡ null) ⊎ ((b : Bool) × (v ≡ bool b)) ⊎ (v ≡ int 0) ⊎ (v ≡ int 1) ⊎ (v ≡ neg_int 0)

pub record IsWellFormed (p : Fields) : Type 0 where
  pub present : All (λ f. is_missing (get p f) ≡ false) required_fields
  pub status : IsOneOf allowed_status (get p "status")
  pub authority : IsOneOf allowed_authority_class (get p "authority_class")
  pub clearance : IsOneOf allowed_clearance_class (get p "clearance_class")
  pub priority : IsOneOf allowed_priority_class (get p "priority_class")
  pub channel : IsOneOf allowed_channel_state (get p "channel_state")
  pub escalation : IsBooleanLike (get p "escalation_required")
  pub leased :
      (get p "status" ≡ str "CTA") ⊎ (get p "status" ≡ str "IN_PROGRESS")
      → truthy (get p "clearance_expires_at") ≡ true
  pub blobs : All (λ f. (get p f ≡ null) ⊎ (is_container (get p f) ≡ true)) json_blob_fields

missing_errors-nil :
    (p : Fields) (fs : List String)
    → (missing_errors p fs ≡ []) ↔ All (λ f. is_missing (get p f) ≡ false) fs
unfolding missing_errors
missing_errors-nil p [] = (λ _. tt, λ _. refl)
missing_errors-nil p (f ∷ fs) = (
  λ h. ground (arith, (missing_errors-nil p fs).0),
  λ h. ground (arith, (missing_errors-nil p fs).1),
)

blob_errors-nil :
    (p : Fields) (fs : List String)
    → (blob_errors p fs ≡ []) ↔ All (λ f. (get p f ≡ null) ⊎ (is_container (get p f) ≡ true)) fs
unfolding blob_errors
blob_errors-nil p [] = (λ _. tt, λ _. refl)
blob_errors-nil p (f ∷ fs) =
    (λ h. ground (arith, (blob_errors-nil p fs).0), λ h. ground (arith, (blob_errors-nil p fs).1))

enum_bad-IsOneOf :
    (v : Value) (allowed : List String) → (enum_bad v allowed ≡ false) ↔ IsOneOf allowed v
unfolding enum_bad
enum_bad-IsOneOf null allowed = (λ _. inl refl, λ _. refl)
enum_bad-IsOneOf (str s) allowed = (
  λ h. inr (s, refl, Any-elem s allowed (ground arith)),
  λ h. elim h [ inl e ↦ cc | inr (t, e, m) ↦ ground (arith, elem-Any t allowed m) ],
)
enum_bad-IsOneOf _ allowed = (λ h. cc, λ h. ground arith)

enum_error-nil :
    (p : Fields) (f : String) (allowed : List String)
    → (enum_error p f allowed ≡ []) ↔ IsOneOf allowed (get p f)
unfolding enum_error
enum_error-nil p f allowed = (
  λ h. (enum_bad-IsOneOf (get p f) allowed).0 (ground arith),
  λ h. rw ((enum_bad-IsOneOf (get p f) allowed).1 h),
)

escalation_bad-IsBooleanLike : (v : Value) → (escalation_bad v ≡ false) ↔ IsBooleanLike v
unfolding escalation_bad
escalation_bad-IsBooleanLike null = (λ _. inl refl, λ _. refl)
escalation_bad-IsBooleanLike (bool b) = (λ _. inr (inl (b, refl)), λ _. refl)
escalation_bad-IsBooleanLike (int n) = (λ h. ground arith, λ h. ground arith)
escalation_bad-IsBooleanLike (neg_int n) = (λ h. ground arith, λ h. ground arith)
escalation_bad-IsBooleanLike _ = (λ h. cc, λ h. ground arith)

escalation_error-nil :
    (p : Fields) → (escalation_error p ≡ []) ↔ IsBooleanLike (get p "escalation_required")
unfolding escalation_error
escalation_error-nil p = (
  λ h. (escalation_bad-IsBooleanLike (get p "escalation_required")).0 (ground arith),
  λ h. rw ((escalation_bad-IsBooleanLike (get p "escalation_required")).1 h),
)

needs_lease_iff : (v : Value) → (needs_lease v ≡ true) ↔ ((v ≡ str "CTA") ⊎ (v ≡ str "IN_PROGRESS"))
unfolding needs_lease
needs_lease_iff (str s) = (
  λ h. ground (arith, eq_iff "CTA" s, eq_iff "IN_PROGRESS" s),
  λ h. ground (arith, eq_iff "CTA" s, eq_iff "IN_PROGRESS" s),
)
needs_lease_iff _ = (λ h. cc, λ h. ground arith)

lease_error-nil :
    (p : Fields)
    → (lease_error p ≡ []) ↔ (
        (get p "status" ≡ str "CTA") ⊎ (get p "status" ≡ str "IN_PROGRESS")
        → truthy (get p "clearance_expires_at") ≡ true)
unfolding lease_error
lease_error-nil p = (
  λ h k. ground (arith, (needs_lease_iff (get p "status")).1 k),
  λ h. elim (Bool-cases (needs_lease (get p "status"))) [
    | inl e ↦ rw (e, h ((needs_lease_iff (get p "status")).0 e))
    | inr e ↦ rw e
  ],
)

-- The validator reports no error exactly for a well-formed packet.
pub validate-IsWellFormed : (p : Fields) → (validate p ≡ []) ↔ IsWellFormed p
unfolding validate
validate-IsWellFormed p = (
  λ h.
      let a = (append-eq-nil _ _).0 h in
      let b = (append-eq-nil _ _).0 a.1 in
      let c = (append-eq-nil _ _).0 b.1 in
      let d = (append-eq-nil _ _).0 c.1 in
      let e = (append-eq-nil _ _).0 d.1 in
      let f = (append-eq-nil _ _).0 e.1 in
      let g = (append-eq-nil _ _).0 f.1 in
      let k = (append-eq-nil _ _).0 g.1 in
      record {
        present = (missing_errors-nil p _).0 a.0;
        status = (enum_error-nil p _ _).0 b.0;
        authority = (enum_error-nil p _ _).0 c.0;
        clearance = (enum_error-nil p _ _).0 d.0;
        priority = (enum_error-nil p _ _).0 e.0;
        channel = (enum_error-nil p _ _).0 f.0;
        escalation = (escalation_error-nil p).0 g.0;
        leased = (lease_error-nil p).0 k.0;
        blobs = (blob_errors-nil p _).0 k.1;
      },
  λ w. simp (
    (missing_errors-nil p required_fields).1 w.present,
    (enum_error-nil p "status" allowed_status).1 w.status,
    (enum_error-nil p "authority_class" allowed_authority_class).1 w.authority,
    (enum_error-nil p "clearance_class" allowed_clearance_class).1 w.clearance,
    (enum_error-nil p "priority_class" allowed_priority_class).1 w.priority,
    (enum_error-nil p "channel_state" allowed_channel_state).1 w.channel,
    (escalation_error-nil p).1 w.escalation,
    (lease_error-nil p).1 w.leased,
    (blob_errors-nil p json_blob_fields).1 w.blobs,
  ),
)

-- The directory is one of the four queue directories, and the status one that it holds.
abbrev pub Holds : String → String → Type 0
Holds dir s = (held : List String) × (queue_status dir ≡ some held) × Any (λ x. s ≡ x) held

-- For a known status the strict-path check passes exactly where the status belongs.
pub validate_queue_path-Holds :
    (path : FilePath) (s : String)
    → elem s allowed_status ≡ true
    → (validate_queue_path path (str s) none ≡ []) ↔ Holds path.dir s
unfolding validate_queue_path
validate_queue_path-Holds path s known = (
  λ h. elim (Option-cases (queue_status path.dir)) [
    | inl e ↦ ground (arith)
    | inr (held, e) ↦ (held, e, Any-elem s held (ground arith))
  ],
  λ h. ground (arith, elem-Any s h.0 h.2),
)
