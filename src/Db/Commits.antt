-- ===== src/Db/Commits.antt =====
-- The queries on commits and assets of internal/db/query.sql.go.
use mathlib.Core.Option
use system_of_adownload.Prelude.{
  Bool, List, Option, Ordering, Text, [], codes, compare_ℤ, false, if◌then◌else◌, is_positive, none,
  not, some, suc, text_eq, ℕ, ℤ, ◌&&◌, ◌++◌, ◌==◌, ◌∷◌,
}
use system_of_adownload.Activity.Sort.{is_less, sort_stable}
use system_of_adownload.Db.Models.{ArtifactVersion, AssetRow, Store}
use system_of_adownload.Db.Registry.{one}
use system_of_adownload.Db.Tx.{other, ok, err, Db, Faults, ask}
use system_of_adownload.Db.Versions.{in_artifact, newest_first}
use system_of_adownload.Domain.Json.{Json, has_value}
use system_of_adownload.Prelude.Rows.{find, any, select, update}

-- `commit_body->>'sha' IS NOT NULL`
abbrev pub has_sha : Option Json → Bool
has_sha none = false
has_sha (some j) = has_value (codes "sha") j

-- `commit_body->>'enrichedAt' IS NOT NULL`
abbrev has_enriched_at : Option Json → Bool
has_enriched_at none = false
has_enriched_at (some j) = has_value (codes "enrichedAt") j

-- ORDER BY sort_order ASC
abbrev oldest_first : ArtifactVersion → ArtifactVersion → Ordering
oldest_first a b = compare_ℤ a.sort_order b.sort_order

-- `a < b` for two sort orders.
abbrev pub is_below : ℤ → ℤ → Bool
is_below a b = is_less (compare_ℤ a b)

abbrev needs_enrichment : ArtifactVersion → Bool
needs_enrichment v =
    has_sha v.commit_body && not (has_enriched_at v.commit_body) && is_positive v.sort_order

abbrev is_enriched : ArtifactVersion → Bool
is_enriched v = has_sha v.commit_body && has_enriched_at v.commit_body && is_positive v.sort_order

-- The WHERE of `GetPreviousVersion`.
abbrev pub is_predecessor : ℕ → ℤ → ArtifactVersion → Bool
is_predecessor artifact order v =
    v.artifact_id == artifact
    && is_below v.sort_order order
    && is_positive v.sort_order
    && has_sha v.commit_body

-- LIMIT 1
abbrev pub first {ℓ} : {A : Type ℓ} → List A → Option A
first [] = none
first (a ∷ rest) = some a

-- The row that `GetPreviousVersion` finds.
unfoldable pub previous_version : ℕ → ℤ → Store → Option ArtifactVersion
unfolding sort_stable select
previous_version artifact order s =
    first (sort_stable newest_first (select (is_predecessor artifact order) s.versions))

-- The columns of a new asset.
pub record CreateAssetParams : Type 0 where
  pub classifier : Option Text
  pub sha256 : Option Text
  pub download_url : Text
  pub md5 : Option Text
  pub sha1 : Option Text
  pub sha512 : Option Text
  pub extension : Option Text

abbrev pub asset_row : ℕ → ℕ → CreateAssetParams → AssetRow
asset_row i version p = record {
  id = i;
  artifact_version_id = version;
  classifier = p.classifier;
  sha256 = p.sha256;
  download_url = p.download_url;
  md5 = p.md5;
  sha1 = p.sha1;
  sha512 = p.sha512;
  extension = p.extension;
}

abbrev pub set_commit_body : Option Json → ArtifactVersion → ArtifactVersion
set_commit_body body v = record v { commit_body = body }

module _ (fails : Faults) where
  abbrev pub get_artifact_version : Text → Text → Text → Db ArtifactVersion
  get_artifact_version group artifact version = ask fails (codes "GetArtifactVersion") 0 (λ s.
      one (find (λ v. in_artifact s group artifact v && text_eq v.version version) s.versions) s)

  abbrev pub get_artifact_version_by_id : ℕ → Db ArtifactVersion
  get_artifact_version_by_id i =
      ask fails (codes "GetArtifactVersionByID") 0 (λ s. one (find (λ v. v.id == i) s.versions) s)

  abbrev pub update_artifact_version_commit_body : ℕ → Json → Db (Unit {0})
  update_artifact_version_commit_body i body =
      ask fails (codes "UpdateArtifactVersionCommitBody") 0 (λ s. (
        ok tt,
        record s { versions = update (λ v. v.id == i) (set_commit_body (some body)) s.versions },
      ))

  -- `call` counts the calls of one run.
  abbrev pub get_previous_version : ℕ → ℕ → ℤ → Db ArtifactVersion
  get_previous_version call artifact order =
      ask fails (codes "GetPreviousVersion") call (λ s. one (previous_version artifact order s) s)

  abbrev pub is_version_enriched : ℕ → ℕ → Db Bool
  is_version_enriched call i = ask fails (codes "IsVersionEnriched") call (λ s.
      one (Option.map (λ v. has_enriched_at v.commit_body) (find (λ v. v.id == i) s.versions)) s)

  abbrev pub list_versions_needing_enrichment : Text → Text → Db (List ArtifactVersion)
  list_versions_needing_enrichment group artifact =
      ask fails (codes "ListVersionsNeedingEnrichment") 0 (λ s. (
        ok (
            sort_stable oldest_first
              (select (λ v. in_artifact s group artifact v && needs_enrichment v) s.versions)),
        s,
      ))

  abbrev pub list_enriched_versions : Text → Text → Db (List ArtifactVersion)
  list_enriched_versions group artifact = ask fails (codes "ListEnrichedVersions") 0 (λ s. (
    ok (
        sort_stable oldest_first
          (select (λ v. in_artifact s group artifact v && is_enriched v) s.versions)),
    s,
  ))

  abbrev pub delete_artifact_version_assets : ℕ → Db (Unit {0})
  delete_artifact_version_assets version = ask fails (codes "DeleteArtifactVersionAssets") 0 (λ s.
      (ok tt, record s { assets = select (λ a. not (a.artifact_version_id == version)) s.assets }))

  -- The foreign key on the version is checked.
  unfoldable pub create_artifact_version_asset : ℕ → ℕ → CreateAssetParams → Db (Unit {0})
  create_artifact_version_asset call version p =
      ask fails (codes "CreateArtifactVersionAsset") call (λ s.
        if any (λ v. v.id == version) s.versions
        then (
          ok tt,
          record s {
            assets = s.assets ++ asset_row s.next_asset version p ∷ [];
            next_asset = suc s.next_asset;
          },
        )
        else (err other, s))
