-- ===== src/Db/Details.antt =====
-- What internal/repository/repository.go reads of versions with their assets and tags, and the queries
-- of internal/db/query.sql.go behind it. An aggregate without ORDER BY is in the order of the table,
-- which is one that Postgres may choose. A NULL in a JSON object leaves the Go string empty.
pub mod Laws
use mathlib.Core.Option
use system_of_adownload.Domain.Json.{Json}
use system_of_adownload.Prelude.{
  Bool, List, Option, Ordering, Text, [], codes, compare_ℤ, if◌then◌else◌, map, none, some, text_eq,
  ℕ, ℤ, ◌&&◌, ◌++◌, ◌==◌, ◌∷◌,
}
use system_of_adownload.Activity.Sort.{is_less, sort_stable}
use system_of_adownload.App.Versions.{tags_of}
use system_of_adownload.Db.Filter.{VersionQueryParams, list_versions_with_assets}
use system_of_adownload.Db.Models.{ArtifactVersion, AssetRow, TagRow, Store}
use system_of_adownload.Db.Registry.{one}
use system_of_adownload.Db.Tx.{
  no_rows, Result, ok, err, Db, ◌>>=◌, pure, attempt, raise, Faults, ask,
}
use system_of_adownload.Db.Versions.{in_artifact}
use system_of_adownload.Prelude.Map.{Map, insert, lookup}
use system_of_adownload.Prelude.Rows.{find, select, update, any}

-- `VersionAsset` of internal/dbtypes.
pub record VersionAsset : Type 0 where
  pub classifier : Text
  pub download_url : Text
  pub md5 : Text
  pub sha1 : Text
  pub sha256 : Text
  pub sha512 : Text
  pub extension : Text

-- `VersionDetail` of the repository; `commit_body` is a nil slice where the column is NULL.
pub record VersionDetail : Type 0 where
  pub id : ℕ
  pub version : Text
  pub recommended : Bool
  pub commit_body : Option Json
  pub assets : List VersionAsset
  pub tags : Map Text

-- `VersionAssetRow`, `VersionWithAssets` and `VersionsWithAssetsResult`.
pub record VersionAssetRow : Type 0 where
  pub classifier : Text
  pub download_url : Text
  pub extension : Text

pub record VersionWithAssets : Type 0 where
  pub id : ℕ
  pub version : Text
  pub recommended : Bool
  pub commit_body : Option Json
  pub assets : List VersionAssetRow

pub record VersionsWithAssetsResult : Type 0 where
  pub versions : List VersionWithAssets
  pub total : ℕ

abbrev or_empty : Option Text → Text
or_empty none = []
or_empty (some t) = t

abbrev version_asset : AssetRow → VersionAsset
version_asset a = record {
  classifier = or_empty a.classifier;
  download_url = a.download_url;
  md5 = or_empty a.md5;
  sha1 = or_empty a.sha1;
  sha256 = or_empty a.sha256;
  sha512 = or_empty a.sha512;
  extension = or_empty a.extension;
}

abbrev version_asset_row : AssetRow → VersionAssetRow
version_asset_row a = record {
  classifier = or_empty a.classifier;
  download_url = a.download_url;
  extension = or_empty a.extension;
}

unfoldable assets_of : Store → ArtifactVersion → List AssetRow
unfolding select
assets_of s v = select (λ a. a.artifact_version_id == v.id) s.assets

unfoldable detail_of : Store → ArtifactVersion → VersionDetail
unfolding assets_of tags_of
detail_of s v = record {
  id = v.id;
  version = v.version;
  recommended = v.recommended;
  commit_body = v.commit_body;
  assets = map version_asset (assets_of s v);
  tags = tags_of v.id s.tags [];
}

unfoldable pub with_assets : Store → ArtifactVersion → VersionWithAssets
unfolding assets_of
with_assets s v = record {
  id = v.id;
  version = v.version;
  recommended = v.recommended;
  commit_body = v.commit_body;
  assets = map version_asset_row (assets_of s v);
}

-- The WHERE of `GetVersionDetailRaw`.
abbrev is_asked_for : Store → Text → Text → Text → ArtifactVersion → Bool
is_asked_for s group artifact version v =
    in_artifact s group artifact v && text_eq v.version version

-- A group of `ListDistinctTagsByArtifact`: key, value and MAX(sort_order).
pub record TagGroup : Type 0 where
  pub tag_key : Text
  pub tag_value : Text
  pub max_order : ℤ

abbrev pub is_group : Text → Text → TagGroup → Bool
is_group key value g = text_eq g.tag_key key && text_eq g.tag_value value

abbrev raised : ℤ → TagGroup → TagGroup
raised order g = if is_less (compare_ℤ g.max_order order) then record g { max_order = order } else g

abbrev add_row : TagRow → Option ArtifactVersion → List TagGroup → List TagGroup
add_row t none groups = groups
add_row t (some v) groups =
    if any (is_group t.tag_key t.tag_value) groups
    then update (is_group t.tag_key t.tag_value) (raised v.sort_order) groups
    else groups
      ++ record { tag_key = t.tag_key; tag_value = t.tag_value; max_order = v.sort_order } ∷ []

-- JOIN artifact_versions ... GROUP BY tag_key, tag_value
unfoldable tag_groups :
    (ArtifactVersion → Bool) → List ArtifactVersion → List TagRow → List TagGroup → List TagGroup
unfolding any update find
tag_groups p versions [] groups = groups
tag_groups p versions (t ∷ rows) groups =
    tag_groups p versions rows
      (add_row t (find (λ v. p v && v.id == t.artifact_version_id) versions) groups)

-- ORDER BY tag_key, MAX(sort_order) DESC
abbrev by_key_and_order : (Text → Text → Ordering) → TagGroup → TagGroup → Ordering
by_key_and_order collate a b = elim (collate a.tag_key b.tag_key) [
  | Ordering.eq ↦ compare_ℤ b.max_order a.max_order
  | o ↦ o
]

-- `tags[row.TagKey] = append(tags[row.TagKey], row.TagValue)`
abbrev values_of : Option (List Text) → List Text
values_of none = []
values_of (some values) = values

unfoldable pub group_tags : List TagGroup → Map (List Text) → Map (List Text)
unfolding insert lookup
group_tags [] tags = tags
group_tags (g ∷ rows) tags =
    group_tags rows (insert g.tag_key (values_of (lookup g.tag_key tags) ++ g.tag_value ∷ []) tags)

-- ORDER BY sort_order DESC on the rows of `GetDefaultTagValue`.
abbrev highest_first : TagGroup → TagGroup → Ordering
highest_first a b = compare_ℤ b.max_order a.max_order

-- The rows of the join: a version has one value for a key.
unfoldable pub joined :
    (ArtifactVersion → Bool) → List ArtifactVersion → Text → List TagRow → List TagGroup
unfolding find
joined p versions key [] = []
joined p versions key (t ∷ rows) =
    let rest = joined p versions key rows in
    if text_eq t.tag_key key
    then elim (find (λ v. p v && v.id == t.artifact_version_id) versions) [
      | none ↦ rest
      | some v ↦
          record { tag_key = t.tag_key; tag_value = t.tag_value; max_order = v.sort_order } ∷ rest
    ]
    else rest

abbrev first_value : List TagGroup → Option Text
first_value [] = none
first_value (g ∷ rest) = some g.tag_value

-- `if errors.Is(err, pgx.ErrNoRows) { return "", nil }`
abbrev pub empty_value : Result Text → Db Text
empty_value (ok value) = pure value
empty_value (err no_rows) = pure []
empty_value (err e) = raise e

-- The row that `GetDefaultTagValue` finds.
unfoldable pub default_value : Text → Text → Text → Store → Option Text
unfolding joined sort_stable any
default_value group artifact key s = first_value (
    sort_stable highest_first
      (joined (λ v. in_artifact s group artifact v && v.recommended) s.versions key s.tags))

module _ (fails : Faults) where
  -- `GetVersionDetail`, with `GetVersionDetailRaw`.
  unfoldable pub get_version_detail : Text → Text → Text → Db VersionDetail
  unfolding detail_of find any
  get_version_detail group artifact version = ask fails (codes "GetVersionDetailRaw") 0 (λ s.
      one (Option.map (detail_of s) (find (is_asked_for s group artifact version) s.versions)) s)

  -- `ListVersionsWithAssets`; `call` tells the calls of one request apart.
  unfoldable pub list_versions_with_assets_call :
      ℕ → VersionQueryParams → Db VersionsWithAssetsResult
  unfolding list_versions_with_assets with_assets
  list_versions_with_assets_call call q = ask fails (codes "ListVersionsWithAssets") call (λ s.
      let (page, total) = list_versions_with_assets s q in
      (ok (record { versions = map (with_assets s) page; total = total }), s))

  module _ (collate : Text → Text → Ordering) where
    unfoldable pub list_distinct_tags_by_artifact : Text → Text → Db (List TagGroup)
    unfolding tag_groups sort_stable any
    list_distinct_tags_by_artifact group artifact =
        ask fails (codes "ListDistinctTagsByArtifact") 0 (λ s. (
          ok (
              sort_stable (by_key_and_order collate)
                (tag_groups (in_artifact s group artifact) s.versions s.tags [])),
          s,
        ))

    -- `GetDistinctTagValues`
    unfoldable pub get_distinct_tag_values : Text → Text → Db (Map (List Text))
    unfolding group_tags list_distinct_tags_by_artifact
    get_distinct_tag_values group artifact = do
      rows ← list_distinct_tags_by_artifact group artifact
      pure (group_tags rows [])

  -- `GetDefaultTagValue`
  unfoldable pub get_default_tag_value : Text → Text → Text → Db Text
  unfolding default_value
  get_default_tag_value group artifact key = do
    found ←
        attempt (
          ask fails (codes "GetDefaultTagValue") 0
            (λ s. one (default_value group artifact key s) s))
    empty_value found
