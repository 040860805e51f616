-- ===== src/Gate/Authority.antt =====
-- Operator authority over a gate, and what it opens: `_validate_authority`, `_record_disposition`,
-- `grant_proceed`, `record_operator_closure` and `close_gate_unresolved` of
-- tools/clearwright_gate.py. The message log is the list of its messages; time parsing
-- (`strptime`), `str.lower` and `\w` are parameters.
pub mod Laws
use clear_wright.Prelude.{
  ℕ, String, Bool, true, false, not, ◌&&◌, ◌||◌, List, [], ◌∷◌, Option, none, some, str_eq, elem,
  any, ltb, if◌then◌else◌, Result, ok, err, ◌>>=◌, ◌>>◌, refuse_if, is_blank, take_text,
}
use clear_wright.Gate.{
  Gate, GateRecord, GateError, Store, Digests, Moment, Disposition, resolved, closed_unresolved,
  Grant, is_unresolved, load_record, write_record, active_gate, no_unresolved_gate,
  maintenance_in_progress, authority_message_not_found, authority_not_operator_inbound,
  authority_source_excluded, authority_not_after_gate, authority_not_after_failed_outcome,
  authority_missing_target_id, authority_missing_phrase,
}
use clear_wright.Gate.Subject.{canonical_subject}
use clear_wright.Gate.Tokens.{id_token_present, phrase_from}

pub record Message : Type 0 where
  pub message_id : String
  pub actor : String
  pub direction : String
  pub source : String
  pub at : String
  pub message : String

pub record Texts : Type 0 where
  pub parse_time : String → Option ℕ
  pub lower : String → String
  pub is_word : ℕ → Bool

abbrev pub exempt_message_sources : List String
exempt_message_sources = "use-cw-gate" ∷ "use-cw-annotation" ∷ "use-cw-summary" ∷ []

abbrev pub proceed_phrases : List String
proceed_phrases =
    "authorize proceeding" ∷ "authorized to proceed" ∷ "authorize continuation" ∷ "proceed despite"
    ∷ "resume execution despite" ∷ []

abbrev pub close_phrases : List String
close_phrases =
    "authorize closure" ∷ "authorize closing" ∷ "close work item" ∷ "accept without verification"
    ∷ []

abbrev pub negations : List String
negations = "not" ∷ "no" ∷ "never" ∷ "do not" ∷ "don't" ∷ "cannot" ∷ "won't" ∷ []

unfoldable pub find_message : String → List Message → Option Message
find_message id [] = none
find_message id (m ∷ ms) =
    let rest = find_message id ms in if str_eq m.message_id id then some m else rest

later : Option ℕ → Option ℕ → Bool
later (some a) (some b) = ltb b a
later _ _ = false

not_later : Option ℕ → Option ℕ → Bool
not_later created none = false
not_later created (some o) = not (later created (some o))

-- A gate whose disposition changes: the gates with it, and the gate itself.
disposed : Gate → Disposition → Grant → Gate
disposed g disposition grant = record g { disposition = disposition; authority = some grant }

past : Gate → Option (List Gate × Gate) → Option (List Gate × Gate)
past g none = none
past g (some (gs, m)) = some (g ∷ gs, m)

-- The first unresolved gate receives the disposition.
unfoldable pub dispose_first : Disposition → Grant → List Gate → Option (List Gate × Gate)
unfolding disposed past
dispose_first disposition grant [] = none
dispose_first disposition grant (g ∷ gs) =
    let rest = dispose_first disposition grant gs in
    if is_unresolved g
    then some (disposed g disposition grant ∷ gs, disposed g disposition grant)
    else past g rest

module _ (t : Texts) where
  -- `_iso`
  unfoldable pub iso_time : String → Option ℕ
  iso_time text = if is_blank text then none else t.parse_time text

  unfoldable pub phrase_authorizes : String → List String → Bool
  phrase_authorizes body phrases =
      any (λ p. phrase_from t.is_word negations body (t.lower body) p 0 0 (t.lower body)) phrases

  unfoldable pub names_target : String → Gate → Bool
  names_target body g =
      id_token_present body g.seen
      || (id_token_present body g.subject || id_token_present body g.council_id)

  -- No outcome time is the empty text.
  unfoldable pub validate_authority :
      List Message → Gate → String → List String → String → Result GateError Message
  unfolding later not_later
  validate_authority log gate message_id phrases after_outcome_at =
      elim (find_message message_id log) [
        | none ↦ err authority_message_not_found
        | some m ↦ do
          refuse_if (not (str_eq m.actor "OPERATOR-0001") || not (str_eq m.direction "inbound"))
              authority_not_operator_inbound
          refuse_if (elem m.source exempt_message_sources) authority_source_excluded
          let created = iso_time m.at
          refuse_if (not (later created (iso_time gate.created_at))) authority_not_after_gate
          refuse_if (not_later created (iso_time after_outcome_at))
              authority_not_after_failed_outcome
          refuse_if (not (names_target m.message gate)) authority_missing_target_id
          refuse_if (not (phrase_authorizes m.message phrases)) authority_missing_phrase
          ok m
      ]

  module _ (d : Digests) where
    -- `busy` is an archive operation that holds exclusivity.
    unfoldable pub record_disposition :
        Store → Bool → String → Disposition → Message → Moment → Result GateError Gate × Store
    record_disposition store busy work_item_id disposition m now =
        let subject = canonical_subject work_item_id in
        let grant : Grant = record {
          message_id = m.message_id;
          excerpt = take_text 280 m.message;
          recorded_at = now.iso;
        } in
        elim (load_record d store subject) [
          | err x ↦ (err x, store)
          | ok r ↦ elim (dispose_first disposition grant r.gates) [
            | none ↦ (err (no_unresolved_gate subject), store)
            | some (gs, g) ↦
                if busy
                then (err maintenance_in_progress, store)
                else (ok g, write_record d store (record r { gates = gs }))
          ]
        ]

    authorized :
        Store
        → Bool
        → String
        → Disposition
        → Moment
        → Result GateError Message
        → Result GateError Gate × Store
    authorized store busy work_item_id disposition now (err x) = (err x, store)
    authorized store busy work_item_id disposition now (ok m) =
        record_disposition store busy work_item_id disposition m now

    resolve_active :
        Store
        → Bool
        → List Message
        → String
        → String
        → List String
        → String
        → Disposition
        → Moment
        → Result GateError (Option Gate)
        → Result GateError Gate × Store
    unfolding authorized
    resolve_active store busy log work_item_id message_id phrases outcome_at disposition now
          (err x) =
        (err x, store)
    resolve_active store busy log work_item_id message_id phrases outcome_at disposition now
          (ok none) =
        (err (no_unresolved_gate work_item_id), store)
    resolve_active store busy log work_item_id message_id phrases outcome_at disposition now
          (ok (some g)) =
        authorized store busy work_item_id disposition now
          (validate_authority log g message_id phrases outcome_at)

    unfoldable pub grant_proceed :
        Store → Bool → List Message → String → String → Moment → Result GateError Gate × Store
    unfolding resolve_active
    grant_proceed store busy log work_item_id message_id now =
        resolve_active store busy log work_item_id message_id proceed_phrases "" resolved now
          (active_gate d store work_item_id)

    unfoldable pub close_gate_unresolved :
        Store
        → Bool
        → List Message
        → String
        → String
        → String
        → Moment
        → Result GateError Gate × Store
    unfolding resolve_active
    close_gate_unresolved store busy log work_item_id message_id outcome_at now =
        resolve_active store busy log work_item_id message_id close_phrases outcome_at
          closed_unresolved now (active_gate d store work_item_id)
