-- ===== src/Identity/Migration.antt =====
-- The legacy origins are frozen.
use clear_wright.Prelude.{◌≡◌, inl, inr, arith, Option-cases, Bool-cases}
use clear_wright.Identity.{
  Manifest, MigrationFiles, migrate_legacy_origins, ensure_migrated, legacy_origin_ids,
  is_manifest_missing,
}

-- Freezing the manifest leaves the set of legacy origins as it was, whatever messages are read
-- later, freezing it again changes nothing, and it does not bring back a manifest that was deleted.
pub ensure_migrated-legacy_origin_ids :
    (built later : Manifest) (f : MigrationFiles)
    → (legacy_origin_ids later (ensure_migrated built f) ≡ legacy_origin_ids built f)
      × (ensure_migrated later (ensure_migrated built f) ≡ ensure_migrated built f)
      × (is_manifest_missing (ensure_migrated built f) ≡ is_manifest_missing f)
unfolding ensure_migrated legacy_origin_ids migrate_legacy_origins is_manifest_missing
ensure_migrated-legacy_origin_ids built later f = elim (Option-cases f.manifest) [
  | inl n ↦ elim (Bool-cases f.has_marker) [
    | inl b ↦ (ground arith, ground arith, ground arith)
    | inr b ↦ (ground arith, ground arith, ground arith)
  ]
  | inr (m, n) ↦ (ground arith, ground arith, ground arith)
]
