-- ===== src/Alf/Findings/Attribute/Once.antt =====
-- An occurrence is folded into a finding once for each kind of attribution.
use clear_wright.Prelude.{
  String, ◌≡◌, inl, inr, refl, arith, Bool, true, [], ◌∷◌, ◌++◌, Option, none, some, str_eq,
  eq_refl, any-append_last, ◌||◌, ok, Option-cases, Bool-cases,
}
use clear_wright.Alf.Findings.{
  Attribution, FindingStore, Host, Produced, atomic_finding_update, committed, commit_revision,
  with_line, at_entry, stamped,
}
use clear_wright.Alf.Findings.Attribute.{
  Occurrence, ledger_has, attribution, ledger_line, attribute_occurrence, counted, is_new_run,
}

module _ (h : Host) where
  -- Once an occurrence is attributed to a finding, attributing it again in the same way, with
  -- whatever run and metrics, is answered xs seen before and changes nothing.
  pub attribute_occurrence_once :
      (s left : FindingStore) (id type : String) (o again : Occurrence) (p : Option Produced)
      → again.occurrence_id ≡ o.occurrence_id
      → attribute_occurrence h s id o type ≡ (ok p, left)
      → (ledger_has left (h.attribution_id o.occurrence_id id type) ≡ true)
        × (attribute_occurrence h left id again type ≡ (ok none, left))
  unfolding attribute_occurrence attribution ledger_line ledger_has at_entry atomic_finding_update
      committed commit_revision with_line
  attribute_occurrence_once s left id type o again p same e = elim (Option-cases (s.heads id)) [
    | inl n ↦ let bad : ⊥ = ground arith in elim bad [ ]
    | inr (head, n) ↦ elim (Bool-cases (ledger_has s (h.attribution_id o.occurrence_id id type))) [
      | inl l ↦ let kept : left ≡ s = ground arith in (rw (kept) l, rw (kept, n, same, l) refl)
      | inr l ↦
          let test : Attribution → Bool =
            λ x. str_eq x.attribution_id (h.attribution_id o.occurrence_id id type) in
          let added : left.ledger ≡ (s.ledger ++ (ledger_line h id o type ∷ [])) = ground arith in
          let has : ledger_has left (h.attribution_id o.occurrence_id id type) ≡ true =
            rw (added) (any-append_last test s.ledger (ledger_line h id o type) (eq_refl _)) in
          let change =
            counted (str_eq type "recurrence" || str_eq type "regression")
              (is_new_run s id o.run_id) o in
          let placed : left.heads id ≡ some (stamped h id (change head)) =
            ground (arith, eq_refl id) in
          (has, rw (placed, same, has) refl)
    ]
  ]
