-- ===== src/Identity.antt =====
-- Which messages are the origins of work items: tools/clearwright_identity.py. `str` of a value that
-- is no text and `str.casefold` are those of Work; whether `int(value) >= 2` for a value that is no
-- integer is a parameter.
pub mod Migration
use clear_wright.Prelude.{
  ℕ, String, Bool, true, false, not, ◌&&◌, ◌||◌, List, [], ◌∷◌, Option, none, some, str_eq, elem,
  any, if◌then◌else◌, leb, is_blank, strip, concat, starts_with, drop_text, has_text, text_ltb,
  sort_by,
}
use clear_wright.Json.{Value, null, bool, int, str, Fields, get, truthy}
use clear_wright.Messages.Log.{same_value}
use clear_wright.Work.{Python, is_text, shown, folded_value}

-- GOVERNANCE_RECORD_SOURCES
abbrev pub governance_record_sources : List String
governance_record_sources = "use-cw-gate" ∷ "use-cw-annotation" ∷ "use-cw-summary" ∷ []

abbrev pub reviewer_sources : List String
reviewer_sources =
    "openai-api" ∷ "codex-cli" ∷ "openai-api-review" ∷ "codex-review" ∷ "openai-responses" ∷ []

-- _AUTHORITY_MARKERS
abbrev pub authority_markers : List String
authority_markers =
    "operator authority" ∷ "authority message" ∷ "i authorize " ∷ "close work item "
    ∷ "close and supersede" ∷ "overnight clearwright maintenance authorization" ∷ []

unfoldable pub work_item_id_for : String → String
work_item_id_for id = concat "message:" id

-- `message_id_of`, for a text
unfoldable pub message_id_of : String → Option String
message_id_of wid = if starts_with "message:" wid then some (drop_text 8 wid) else none

-- `int(message.get("identity_version") or 0) >= 2`
unfoldable pub is_v2 : (Value → Bool) → Fields → Bool
is_v2 at_least_two m = version_two (get m "identity_version")
  where
    version_two : Value → Bool
    version_two (int n) = leb 2 n
    version_two (bool b) = false
    version_two null = false
    version_two v = truthy v && at_least_two v

-- `value in names`, for a value of any type
unfoldable pub is_text_of : List String → Value → Bool
is_text_of names (str s) = elem s names
is_text_of names _ = false

unfoldable pub v2_is_origin : Fields → Bool
v2_is_origin m =
    if not (is_text (get m "direction") "inbound")
    then false
    else if not (is_text (get m "intent") "request")
    then false
    else if truthy (get m "closure")
    then false
    else not (is_text_of ("claimed" ∷ "responded" ∷ []) (get m "status"))

unfoldable pub looks_like_authority : Python → Fields → Bool
looks_like_authority py m =
    any (λ k. has_text k (folded_value py (get m "message"))) authority_markers

-- `message.get("work_item_id") not in (falsy, own id)`
bound_elsewhere : Python → Fields → Bool
bound_elsewhere py m =
    truthy (get m "work_item_id")
    && not (is_text (get m "work_item_id") (work_item_id_for (py.str_of (get m "message_id"))))

unfoldable pub legacy_convention_origin : Python → List String → Fields → Bool
unfolding bound_elsewhere
legacy_convention_origin py excluded_sources m =
    if not (is_text (get m "direction") "inbound")
    then false
    else if is_text (get m "intent") "chat"
    then false
    else if is_text_of ("claimed" ∷ "responded" ∷ []) (get m "status")
    then false
    else if truthy (get m "closure")
    then false
    else if is_text_of excluded_sources (get m "source")
    then false
    else if is_text_of ("reviewer" ∷ []) (get m "role")
    then false
    else if is_text_of reviewer_sources (get m "source")
    then false
    else not (bound_elsewhere py m)

-- Why a message is left out of the manifest.
pub data Exclusion : Type 0 where
  provenance payload_marker : String → Exclusion

pub record Manifest : Type 0 where
  pub generated_at : String
  pub origin_message_ids : List String
  pub excluded : List Exclusion

module _ (py : Python) (at_least_two : Value → Bool) (referenced : List String) where
  -- The id of a legacy message that keeps the convention.
  eligible_id : Fields → Option String
  eligible_id m =
      if is_v2 at_least_two m || not (truthy (get m "message_id"))
      then none
      else if legacy_convention_origin py governance_record_sources m
      then some (shown py (get m "message_id"))
      else none

  legacy_origins : List Fields → List String
  unfolding eligible_id
  legacy_origins [] = []
  legacy_origins (m ∷ ms) =
      let rest = legacy_origins ms in
      elim (eligible_id m) [
        | none ↦ rest
        | some id ↦ if elem id referenced || looks_like_authority py m then rest else id ∷ rest
      ]

  legacy_excluded : List Fields → List Exclusion
  unfolding eligible_id
  legacy_excluded [] = []
  legacy_excluded (m ∷ ms) =
      let rest = legacy_excluded ms in
      elim (eligible_id m) [
        | none ↦ rest
        | some id ↦
            if elem id referenced
            then provenance id ∷ rest
            else if looks_like_authority py m
            then payload_marker id ∷ rest
            else rest
      ]

  exclusion_id : Exclusion → String
  exclusion_id (provenance id) = id
  exclusion_id (payload_marker id) = id

  unfoldable pub build_legacy_manifest : String → List Fields → Manifest
  unfolding legacy_origins legacy_excluded exclusion_id
  build_legacy_manifest now messages = record {
    generated_at = now;
    origin_message_ids = sort_by text_ltb (legacy_origins messages);
    excluded =
        sort_by (λ a b. text_ltb (exclusion_id a) (exclusion_id b)) (legacy_excluded messages);
  }

-- The two files of the migration: the frozen manifest and the durable marker. `built` is what
-- `build_legacy_manifest` makes of the messages on record.
pub record MigrationFiles : Type 0 where
  pub manifest : Option Manifest
  pub has_marker : Bool

module _ (built : Manifest) where
  unfoldable pub migrate_legacy_origins : MigrationFiles → MigrationFiles
  migrate_legacy_origins f = elim f.manifest [
    | some m ↦ f
    | none ↦ record { manifest = some built; has_marker = true }
  ]

  unfoldable pub ensure_migrated : MigrationFiles → MigrationFiles
  ensure_migrated f = elim f.manifest [
    | some m ↦ f
    | none ↦ if f.has_marker then f else migrate_legacy_origins f
  ]

  unfoldable pub legacy_origin_ids : MigrationFiles → List String
  legacy_origin_ids f = elim f.manifest [
    | some m ↦ m.origin_message_ids
    | none ↦ if f.has_marker then [] else built.origin_message_ids
  ]

unfoldable pub is_manifest_missing : MigrationFiles → Bool
is_manifest_missing f = elim f.manifest [ some m ↦ false | none ↦ f.has_marker ]
