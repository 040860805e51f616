-- ===== src/Alf/Findings/Steps.antt =====
-- The findings store over time: any sequence of the operations, by whatever callers.
pub mod Revised
pub mod Consistent
use clear_wright.Prelude.{
  ℕ, String, suc, ◌<◌, ◌≡◌, Bool, true, false, List, [], ◌∷◌, Option, none, some, All, str_eq, any,
}
use clear_wright.Json.{Fields}
use clear_wright.Alf.Findings.{
  Revision, Attribution, Disposition, FindingStore, Host, create_finding, update_finding,
  rebuild_head,
}
use clear_wright.Alf.Findings.Attribute.{
  Occurrence, attribute_occurrence, record_regression, record_recurrence, set_release_baseline,
}
use clear_wright.Alf.Findings.Dispose.{Reading, Request, dispose, surface_for_review}

-- No two elements have one key.
abbrev pub IsUnique : {A : Type 0} → (A → String) → List A → Type 0
IsUnique key [] = Unit
IsUnique key (x ∷ xs) = All (λ y. str_eq (key x) (key y) ≡ false) xs × IsUnique key xs

-- The revisions are numbered from `n` on.
abbrev pub IsNumbered : ℕ → List Revision → Type 0
IsNumbered n [] = Unit
IsNumbered n (r ∷ rs) = (r.revision_no ≡ n) × IsNumbered (suc n) rs

module _ (entry_id : ℕ → String) (attribution_id : String → String → String → String) where
  abbrev pub host : String → Host
  host now = record { now = now; entry_id = entry_id; attribution_id = attribution_id }

  -- One operation at some time.
  pub data Step : FindingStore → FindingStore → Type 0 where
    creates :
        (now actor : String) (f : Fields) (s : FindingStore)
        → Step s (create_finding (host now) s actor f).1
    updates :
        (now id : String) (mutate : Fields → Fields) (s : FindingStore)
        → Step s (update_finding (host now) s id mutate).1
    attributes :
        (now id type : String) (o : Occurrence) (s : FindingStore)
        → Step s (attribute_occurrence (host now) s id o type).1
    regresses :
        (now id : String) (o : Occurrence) (s : FindingStore)
        → Step s (record_regression (host now) s id o).1
    recurs :
        (now id : String) (o : Occurrence) (s : FindingStore)
        → Step s (record_recurrence (host now) s id o).1
    releases : (now id : String) (s : FindingStore) → Step s (set_release_baseline (host now) s id)
    disposes :
        (now id actor : String) (r : Reading) (q : Request) (messages : String → Option Fields)
        (s : FindingStore)
        → Step s (dispose (host now) r s id actor q messages).1
    surfaces :
        (now id : String) (r : Reading) (s : FindingStore)
        → Step s (surface_for_review (host now) r s id).1

  pub data Reaches (s : FindingStore) : FindingStore → Type 0 where
    here : Reaches s s
    next : {t u : FindingStore} → Reaches s t → Step t u → Reaches s u

  -- Every head is its last revision, revisions are numbered from 1, the ids that are not allocated
  -- have no log, no attribution stands twice in the ledger, and no message disposed twice.
  pub record IsConsistent (s : FindingStore) : Type 0 where
    pub head_is_last : (id : String) → s.heads id ≡ rebuild_head s id
    pub numbered : (id : String) → IsNumbered 1 (s.history id)
    pub fresh : (n : ℕ) → s.last_seq < n → s.history (entry_id n) ≡ []
    pub attributed_once : IsUnique (λ a. a.attribution_id) s.ledger
    pub used_once : IsUnique (λ d. d.operator_message_id) s.dispositions
