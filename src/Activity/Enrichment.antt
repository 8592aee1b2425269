-- ===== src/Activity/Enrichment.antt =====
-- internal/activity/changelog_activities.go: the reads and writes around commits and changelogs.
pub mod Laws
use system_of_adownload.Domain.Json.{Json}
use system_of_adownload.Domain.Json.Commits.{marshal_commit, unmarshal_commit}
use system_of_adownload.Db.Registry
use system_of_adownload.Prelude.{
  Bool, List, Option, Text, [], codes, if◌then◌else◌, is_empty, none, some, text_eq, ℕ, ℤ, ◌∷◌,
}
use system_of_adownload.Db.Commits.{
  get_artifact_version_by_id, update_artifact_version_commit_body, get_previous_version,
  is_version_enriched, list_versions_needing_enrichment, list_enriched_versions,
}
use system_of_adownload.Db.Models.{ArtifactRow, ArtifactVersion}
use system_of_adownload.Db.Tx.{
  other, Result, ok, err, Db, ◌>>=◌, pure, raise, attempt, Faults, with_tx,
}
use system_of_adownload.Domain.Commit.{Changelog, CommitInfo, no_commit}

pub record VersionForEnrichment : Type 0 where
  pub id : ℕ
  pub artifact_id : ℕ
  pub version : Text
  pub sort_order : ℤ
  pub commit_sha : Text
  pub repository : Text
  pub branch : Text

-- `FetchVersionsForEnrichmentOutput`; the repositories may be a nil slice.
pub record FetchVersionsForEnrichmentOutput : Type 0 where
  pub versions : List VersionForEnrichment
  pub git_repositories : Option (List Text)

-- `GetPreviousVersionCommitOutput`, when a version is found.
pub record PreviousVersion : Type 0 where
  pub id : ℕ
  pub version : Text
  pub commit_info : CommitInfo

abbrev pub with_commit : ArtifactVersion → CommitInfo → VersionForEnrichment
with_commit v c = record {
  id = v.id;
  artifact_id = v.artifact_id;
  version = v.version;
  sort_order = v.sort_order;
  commit_sha = c.sha;
  repository = c.repository;
  branch = c.branch;
}

-- `json.Unmarshal` into an empty `CommitInfo`; no body leaves it empty.
abbrev pub unmarshal : Option Json → Option CommitInfo
unmarshal none = some no_commit
unmarshal (some j) = unmarshal_commit j

-- The loop over the rows: a body that does not unmarshal and an empty sha are passed over.
unfoldable pub for_enrichment : List ArtifactVersion → List VersionForEnrichment
for_enrichment [] = []
for_enrichment (v ∷ rows) =
    let rest = for_enrichment rows in
    elim (unmarshal v.commit_body) [
      | none ↦ rest
      | some c ↦ if is_empty c.sha then rest else with_commit v c ∷ rest
    ]

abbrev fetch_output : ArtifactRow → List ArtifactVersion → FetchVersionsForEnrichmentOutput
fetch_output a rows = record {
  versions = for_enrichment rows;
  git_repositories = a.git_repositories;
}

abbrev pub previous : ArtifactVersion → CommitInfo → PreviousVersion
previous v c = record { id = v.id; version = v.version; commit_info = c }

-- Any error of the query is taken for "no previous version".
abbrev or_no_previous : Result ArtifactVersion → Db (Option PreviousVersion)
or_no_previous (err e) = pure none
or_no_previous (ok v) = elim (unmarshal v.commit_body) [
  | none ↦ raise other
  | some c ↦ pure (some (previous v c))
]

-- What `StoreChangelog` makes of the commit.
abbrev pub merge_changelog : Changelog → CommitInfo → CommitInfo
merge_changelog cl c = record c {
  changelog = some cl;
  changelog_status =
      if text_eq c.changelog_status (codes "pending_predecessor") then [] else c.changelog_status;
}

module _ (fails : Faults) where
  -- `FetchVersionsForEnrichment`
  unfoldable fetch_versions_for_enrichment : Text → Text → Db FetchVersionsForEnrichmentOutput
  unfolding for_enrichment
  fetch_versions_for_enrichment group artifact = do
    a ← Registry.get_artifact_by_group_and_id fails group artifact
    rows ← list_versions_needing_enrichment fails group artifact
    pure (fetch_output a rows)

  -- `FetchEnrichedVersions`
  unfoldable fetch_enriched_versions : Text → Text → Db FetchVersionsForEnrichmentOutput
  unfolding for_enrichment
  fetch_enriched_versions group artifact = do
    a ← Registry.get_artifact_by_group_and_id fails group artifact
    rows ← list_enriched_versions fails group artifact
    pure (fetch_output a rows)

  -- `GetPreviousVersionCommit`
  unfoldable pub get_previous_version_commit : ℕ → ℕ → ℤ → Db (Option PreviousVersion)
  get_previous_version_commit call artifact order = do
    found ← attempt (get_previous_version fails call artifact order)
    or_no_previous found

  -- `CheckPreviousVersionEnriched`
  unfoldable pub check_previous_version_enriched : ℕ → ℕ → Db Bool
  check_previous_version_enriched call i = is_version_enriched fails call i

  -- `StoreEnrichedCommit`
  unfoldable pub store_enriched_commit : ℕ → CommitInfo → Db (Unit {0})
  unfolding with_tx
  store_enriched_commit i c =
      with_tx fails (update_artifact_version_commit_body fails i (marshal_commit c))

  -- The end of `StoreChangelog`: a body that does not unmarshal is an error.
  abbrev pub put_changelog : ℕ → Changelog → Option CommitInfo → Db (Unit {0})
  put_changelog i cl none = raise other
  put_changelog i cl (some c) =
      update_artifact_version_commit_body fails i (marshal_commit (merge_changelog cl c))

  -- `StoreChangelog`
  unfoldable pub store_changelog : ℕ → Changelog → Db (Unit {0})
  unfolding with_tx
  store_changelog i cl =
      with_tx fails
        (do v ← get_artifact_version_by_id fails i; put_changelog i cl (unmarshal v.commit_body))
