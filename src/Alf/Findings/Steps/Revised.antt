-- ===== src/Alf/Findings/Steps/Revised.antt =====
-- One revision more keeps the findings store consistent.
use clear_wright.Prelude.{
  ℕ, String, suc, ◌+◌, ◌≡◌, inl, inr, refl, ◌∙◌, arith, false, List, [], ◌∷◌, ◌++◌, some,
  All-append_last, str_eq, eq_iff, any, Bool-cases, if◌then◌else◌, length, is_empty,
}
use clear_wright.Json.{Fields}
use clear_wright.Alf.Findings.{
  Revision, FindingStore, Line, no_line, attributed, disposed, with_line, Produced, at_entry,
  last_revision, next_number, stamped, commit_revision, rebuild_head, finding_of,
}
use clear_wright.Alf.Findings.Attribute.{ledger_has}
use clear_wright.Alf.Findings.Dispose.{message_consumed}
use clear_wright.Alf.Findings.Steps.{IsUnique, IsNumbered, host, IsConsistent}

IsUnique-append_last :
    {A : Type 0} (key : A → String) (xs : List A) (x : A)
    → any (λ y. str_eq (key y) (key x)) xs ≡ false
    → IsUnique key xs
    → IsUnique key (xs ++ (x ∷ []))
IsUnique-append_last key [] x h u = (tt, tt)
IsUnique-append_last key (y ∷ ys) x h u = (
  All-append_last (λ z. str_eq (key y) (key z) ≡ false) ys x u.0 (ground arith),
  IsUnique-append_last key ys x (ground arith) u.1,
)

last_revision-append_last :
    (rs : List Revision) (r : Revision) → last_revision (rs ++ (r ∷ [])) ≡ some r
unfolding last_revision
last_revision-append_last [] r = refl
last_revision-append_last (a ∷ []) r = refl
last_revision-append_last (a ∷ (b ∷ rs)) r = last_revision-append_last (b ∷ rs) r

IsNumbered-append_last :
    (n : ℕ) (rs : List Revision) (r : Revision)
    → IsNumbered n rs
    → r.revision_no ≡ n + length rs
    → IsNumbered n (rs ++ (r ∷ []))
IsNumbered-append_last n [] r h e = (ground (arith, e), tt)
IsNumbered-append_last n (a ∷ rs) r h e =
    (h.0, IsNumbered-append_last (suc n) rs r h.1 (omega (arith, e)))

next_number_lem :
    (n : ℕ) (rs : List Revision)
    → IsNumbered (suc n) rs
    → next_number (last_revision rs) ≡ (if is_empty rs then 1 else suc n + length rs)
unfolding next_number last_revision
next_number_lem n [] h = refl
next_number_lem n (a ∷ []) h = ground (arith, h.0)
next_number_lem n (a ∷ (b ∷ rs)) h = ground (arith, next_number_lem (suc n) (b ∷ rs) h.1)

next_number-length :
    (rs : List Revision) → IsNumbered 1 rs → next_number (last_revision rs) ≡ 1 + length rs
unfolding next_number last_revision
next_number-length [] h = refl
next_number-length (a ∷ rs) h = next_number_lem 0 (a ∷ rs) h

-- The line repeats no line of the store.
-- It is kept shut where a product is not known.
unfoldable pub Fits : FindingStore → Line → Type 0
Fits s no_line = Unit
Fits s (attributed a) = ledger_has s a.attribution_id ≡ false
Fits s (disposed d) = message_consumed s d.operator_message_id ≡ false

module _ (entry_id : ℕ → String) (attribution_id : String → String → String → String) where
  module _ (now : String) where
    pub with_line-IsConsistent :
        (s : FindingStore) (l : Line)
        → Fits s l
        → IsConsistent entry_id attribution_id s
        → IsConsistent entry_id attribution_id (with_line l s)
    unfolding with_line rebuild_head ledger_has message_consumed Fits
    with_line-IsConsistent s no_line f c = c
    with_line-IsConsistent s (attributed a) f c = record {
      head_is_last = c.head_is_last;
      numbered = c.numbered;
      fresh = c.fresh;
      attributed_once = IsUnique-append_last (λ x. x.attribution_id) s.ledger a f c.attributed_once;
      used_once = c.used_once;
    }
    with_line-IsConsistent s (disposed d) f c = record {
      head_is_last = c.head_is_last;
      numbered = c.numbered;
      fresh = c.fresh;
      attributed_once = c.attributed_once;
      used_once = IsUnique-append_last (λ x. x.operator_message_id) s.dispositions d f c.used_once;
    }

    -- The store with one revision more of an entry, and its head.
    unfoldable pub revised : FindingStore → String → Revision → FindingStore
    revised s id r = record s {
      heads = at_entry s.heads id (some r.finding);
      history = at_entry s.history id (s.history id ++ (r ∷ []));
    }

    pub revised-rebuild_head :
        (s : FindingStore) (id k : String) (r : Revision)
        → s.heads k ≡ rebuild_head s k
        → (revised s id r).heads k ≡ rebuild_head (revised s id r) k
    unfolding revised at_entry rebuild_head finding_of
    revised-rebuild_head s id k r e = elim (Bool-cases (str_eq id k)) [
      | inl b ↦ ground (arith, b, last_revision-append_last (s.history id) r)
      | inr b ↦ rw (b) e
    ]

    pub revised-IsNumbered :
        (s : FindingStore) (id k : String) (r : Revision)
        → IsNumbered 1 (s.history id)
        → IsNumbered 1 (s.history k)
        → r.revision_no ≡ next_number (last_revision (s.history id))
        → IsNumbered 1 ((revised s id r).history k)
    unfolding revised at_entry
    revised-IsNumbered s id k r m n e = elim (Bool-cases (str_eq id k)) [
      | inl b ↦
          rw (b)
            (IsNumbered-append_last 1 (s.history id) r m (e ∙ next_number-length (s.history id) m))
      | inr b ↦ rw (b) n
    ]

    pub revised-IsConsistent :
        (s : FindingStore) (id : String) (r : Revision) (head : Fields)
        → IsConsistent entry_id attribution_id s
        → s.heads id ≡ some head
        → r.revision_no ≡ next_number (last_revision (s.history id))
        → IsConsistent entry_id attribution_id (revised s id r)
    unfolding revised at_entry rebuild_head finding_of last_revision
    revised-IsConsistent s id r head c h e = record {
      head_is_last = λ k. revised-rebuild_head s id k r (c.head_is_last k);
      numbered = λ k. revised-IsNumbered s id k r (c.numbered id) (c.numbered k) e;
      fresh = λ n lt. elim (Bool-cases (str_eq id (entry_id n))) [
        | inl b ↦
            let same : id ≡ entry_id n = (eq_iff id (entry_id n)).0 b in
            let empty : s.history id ≡ [] = rw (same) (c.fresh n lt) in
            let head_none = c.head_is_last id in let bad : ⊥ = ground (arith, empty) in elim bad [ ]
        | inr b ↦ rw (b) (c.fresh n lt)
      ];
      attributed_once = c.attributed_once;
      used_once = c.used_once;
    }

    Fits-revised :
        (s : FindingStore) (id : String) (r : Revision) (l : Line)
        → Fits s l
        → Fits (revised s id r) l
    unfolding Fits revised ledger_has message_consumed
    Fits-revised s id r no_line f = tt
    Fits-revised s id r (attributed a) f = f
    Fits-revised s id r (disposed d) f = f

    pub commit-IsConsistent :
        (s : FindingStore) (id actor : String) (p : Produced) (head : Fields)
        → IsConsistent entry_id attribution_id s
        → s.heads id ≡ some head
        → Fits s p.line
        → IsConsistent entry_id attribution_id
            (commit_revision (host entry_id attribution_id now) s id actor p)
    unfolding commit_revision revised
    commit-IsConsistent s id actor p head c h f =
        let r : Revision = record {
          revision_no = next_number (last_revision (s.history id));
          revised_at = now;
          revising_actor = actor;
          reason = p.reason;
          finding = stamped (host entry_id attribution_id now) id p.finding;
        } in
        with_line-IsConsistent (revised s id r) p.line (Fits-revised s id r p.line f)
          (revised-IsConsistent s id r head c h refl)
