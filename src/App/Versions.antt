-- ===== src/App/Versions.antt =====
-- `GetVersions` of internal/app/service.go.
pub mod Counts
pub mod Laws
use system_of_adownload.Db.Registry
use system_of_adownload.Prelude.{Bool, List, Text, [], codes, if◌then◌else◌, map, ℕ, ◌==◌, ◌∷◌}
use system_of_adownload.App.Service.{or_not_found}
use system_of_adownload.Db.Filter.{
  VersionQueryParams, list_versions_filtered, count_versions_filtered,
}
use system_of_adownload.Db.Models.{ArtifactVersion, TagRow, Store}
use system_of_adownload.Db.Tx.{artifact_not_found, ok, Db, ◌>>=◌, pure, Faults, ask}
use system_of_adownload.Prelude.Map.{Map, insert}
use system_of_adownload.Prelude.Rows.{any, select}

pub record VersionEntry : Type 0 where
  pub version : Text
  pub recommended : Bool
  pub tags : Map Text

pub record GetVersionsResult : Type 0 where
  pub entries : List VersionEntry
  pub total : ℕ

-- `tagsByVersion[id]`: the later of two rows with the same key counts; a version without a row has
-- none.
unfoldable pub tags_of : ℕ → List TagRow → Map Text → Map Text
unfolding insert
tags_of version [] tags = tags
tags_of version (t ∷ rows) tags =
    tags_of version rows
      (if t.artifact_version_id == version then insert t.tag_key t.tag_value tags else tags)

abbrev pub entry_of : List TagRow → ArtifactVersion → VersionEntry
entry_of rows v = record {
  version = v.version;
  recommended = v.recommended;
  tags = tags_of v.id rows [];
}

-- The rows of `ListTagsForVersions`; an order by key does not matter, as the keys are unique.
abbrev pub tags_for_versions : List ArtifactVersion → Store → List TagRow
tags_for_versions versions s =
    select (λ t. any (λ v. v.id == t.artifact_version_id) versions) s.tags

module _ (fails : Faults) where
  abbrev list_versions_filtered_call : VersionQueryParams → Db (List ArtifactVersion)
  list_versions_filtered_call q =
      ask fails (codes "ListVersionsFiltered") 0 (λ s. (ok (list_versions_filtered s q), s))

  abbrev list_tags_for_versions : List ArtifactVersion → Db (List TagRow)
  list_tags_for_versions versions =
      ask fails (codes "ListTagsForVersions") 0 (λ s. (ok (tags_for_versions versions s), s))

  abbrev count_versions_filtered_call : VersionQueryParams → Db ℕ
  count_versions_filtered_call q =
      ask fails (codes "CountVersionsFiltered") 0 (λ s. (ok (count_versions_filtered s q), s))

  -- After the listing: an empty page has a total of 0.
  abbrev with_tags : VersionQueryParams → List ArtifactVersion → Db GetVersionsResult
  with_tags q [] = pure (record { entries = []; total = 0 })
  with_tags q (v ∷ versions) = do
    rows ← list_tags_for_versions (v ∷ versions)
    total ← count_versions_filtered_call q
    pure (record { entries = map (entry_of rows) (v ∷ versions); total = total })

  unfoldable pub get_versions : VersionQueryParams → Db GetVersionsResult
  unfolding list_versions_filtered count_versions_filtered tags_of select any
  get_versions q = do
    _ ←
        or_not_found artifact_not_found
          (Registry.get_artifact_by_group_and_id fails q.group_id q.artifact_id)
    versions ← list_versions_filtered_call q
    with_tags q versions
