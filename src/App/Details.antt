-- ===== src/App/Details.antt =====
-- `GetArtifact`, `GetVersionInfo` and the reads of the downloads page in internal/app/service.go.
use system_of_adownload.Domain.Json.{Json}
use system_of_adownload.Db.Registry
use system_of_adownload.Prelude.{Bool, List, Option, Ordering, Text, [], none, some}
use system_of_adownload.App.Service.{Artifact, domain_artifact, or_not_found}
use system_of_adownload.Db.Details.{
  VersionAsset, group_tags, get_version_detail, list_distinct_tags_by_artifact,
}
use system_of_adownload.Db.Models.{ArtifactRow}
use system_of_adownload.Db.Tx.{artifact_not_found, version_not_found, Db, ◌>>=◌, pure, Faults}
use system_of_adownload.Prelude.Map.{Map}

-- `VersionDetail` of the service.
pub record VersionInfoDetail : Type 0 where
  pub group_id : Text
  pub artifact_id : Text
  pub version : Text
  pub recommended : Bool
  pub commit_body : Option Json
  pub tags : Map Text
  pub assets : List VersionAsset

-- The artifact; nil repositories become empty ones.
abbrev shown_repositories : Option (List Text) → Option (List Text)
shown_repositories none = some []
shown_repositories (some repos) = some repos

abbrev shown_artifact : ArtifactRow → Artifact
shown_artifact a = record (domain_artifact a) {
  git_repositories = shown_repositories a.git_repositories;
}

module _ (fails : Faults) where
  -- `GetArtifact`
  unfoldable pub get_artifact :
      (Text → Text → Ordering) → Text → Text → Db (Artifact × Map (List Text))
  unfolding list_distinct_tags_by_artifact group_tags
  get_artifact collate group artifact = do
    a ← or_not_found artifact_not_found (Registry.get_artifact_by_group_and_id fails group artifact)
    rows ← list_distinct_tags_by_artifact fails collate group artifact
    pure (shown_artifact a, group_tags rows [])

  -- `GetVersionInfo`
  unfoldable pub get_version_info : Text → Text → Text → Db VersionInfoDetail
  unfolding get_version_detail
  get_version_info group artifact version = do
    detail ← or_not_found version_not_found (get_version_detail fails group artifact version)
    pure (record {
      group_id = group;
      artifact_id = artifact;
      version = detail.version;
      recommended = detail.recommended;
      commit_body = detail.commit_body;
      tags = detail.tags;
      assets = detail.assets;
    })
