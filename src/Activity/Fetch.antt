-- ===== src/Activity/Fetch.antt =====
-- The activities of internal/activity/version_ordering.go that read: the schema, Mojang's manifest,
-- and the versions that are ordered.
use system_of_adownload.Db.Registry
use system_of_adownload.Prelude.{
  List, Option, Text, codes, if◌then◌else◌, is_empty, map, none, some, ℤ,
}
use system_of_adownload.Activity.Ordering.{
  VersionRow, ComputeVersionOrderingOutput, manifest_order, compute_version_ordering,
}
use system_of_adownload.Db.Models.{ArtifactVersion}
use system_of_adownload.Db.Tx.{other, Result, ok, err, Db, ◌>>=◌, pure, raise, Faults}
use system_of_adownload.Db.Versions.{list_artifact_versions}
use system_of_adownload.Domain.Json.{Json}
use system_of_adownload.Domain.Json.Schemas.{unmarshal_schema}
use system_of_adownload.Domain.Version.Schema.{Pattern, VersionSchema, validate}
use system_of_adownload.Prelude.Map.{Map}

-- `manifest`: the ids that a GET of a URL gives, or its error.
abbrev pub fetch_mojang_manifest : (Text → Result (List Text)) → Text → Result (Map ℤ)
fetch_mojang_manifest manifest url =
    elim (manifest (
      if is_empty url
      then codes "https://piston-meta.mojang.com/mc/game/version_manifest_v2.json"
      else url)) [ ok ids ↦ ok (manifest_order ids) | err e ↦ err e ]

abbrev to_row : ArtifactVersion → VersionRow
to_row v = record { id = v.id; text = v.version }

module _ (fails : Faults) (compile : Text → Option Pattern) where
  abbrev or_invalid : Option Json → Db (Option VersionSchema)
  or_invalid none = pure none
  or_invalid (some j) = elim (unmarshal_schema j) [
    | none ↦ raise other
    | some schema ↦ elim (validate compile schema) [
      | none ↦ pure (some schema)
      | some e ↦ raise other
    ]
  ]

  -- `FetchVersionSchema`: an artifact without a schema has none, one with a bad schema an error.
  unfoldable pub fetch_version_schema : Text → Text → Db (Option VersionSchema)
  fetch_version_schema group artifact = do
    schema ← Registry.get_artifact_version_schema fails group artifact
    or_invalid schema

  -- `ComputeVersionOrdering`
  unfoldable pub order_versions :
      Text → Text → Option VersionSchema → Option (Map ℤ) → Db ComputeVersionOrderingOutput
  unfolding compute_version_ordering
  order_versions group artifact schema manifest = do
    rows ← list_artifact_versions fails group artifact
    pure (compute_version_ordering compile schema manifest (map to_row rows))
