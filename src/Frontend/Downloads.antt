-- ===== src/Frontend/Downloads.antt =====
-- The downloads page of internal/frontend/handlers.go. The reads that it makes at once do not change
-- the database, so that they are made one after the other here. Telemetry and the template are
-- left out.
pub mod Builds
pub mod Keys
pub mod Laws
pub mod Page
use system_of_adownload.Prelude.{
  Bool, List, Option, Ordering, Text, [], atoi, codes, if◌then◌else◌, is_empty, map, negsuc, none,
  not, pos, some, text_eq, true, ℕ, ℤ, ◌∷◌,
}
use system_of_adownload.Activity.Ordering.{int32}
use system_of_adownload.Db.Details.{
  VersionAssetRow, VersionWithAssets, VersionsWithAssetsResult, list_versions_with_assets_call,
  get_distinct_tag_values, get_default_tag_value,
}
use system_of_adownload.Db.Filter.{VersionQueryParams}
use system_of_adownload.Db.Models.{Store}
use system_of_adownload.Db.Tx.{other, Result, ok, err, Db, ◌>>=◌, pure, raise, attempt, Faults}
use system_of_adownload.Frontend.Classifiers.{AssetLink, AssetData, match_assets}
use system_of_adownload.Frontend.Commits.{
  CommitEntry, SubmoduleChangelog, ParsedBody, is_experimental, parse_commit_body,
}
use system_of_adownload.Frontend.Config.{PlatformConfig}
use system_of_adownload.Frontend.Pagination.{PaginationData, builds_per_page, compute_pagination}
use system_of_adownload.Frontend.Preferences.{Preferences, Request, read_preferences}
use system_of_adownload.Frontend.VersionSort.{is_pre_release}
use system_of_adownload.Prelude.Map.{Map, lookup, insert}
use system_of_adownload.Prelude.Rows.{find, select}

-- `BuildDetail`
pub record BuildDetail : Type 0 where
  pub version : Text
  pub recommended : Bool
  pub experimental : Bool
  pub assets : List AssetLink
  pub commits : List CommitEntry
  pub submodules : List SubmoduleChangelog
  pub processing : Bool

-- `DownloadsPage`
pub record DownloadsPage : Type 0 where
  pub platform : PlatformConfig
  pub mc_versions : List Text
  pub selected_mc : Text
  pub recommended : Option BuildDetail
  pub builds : List BuildDetail
  pub pagination : PaginationData

-- What the handler answers: `http.NotFound`, an internal error, or the page.
pub data Answer : Type 0 where
  not_found server_error : Answer
  page : DownloadsPage → Answer

-- `findPlatform`
unfoldable pub find_platform : Text → List PlatformConfig → Option PlatformConfig
unfolding find
find_platform id platforms = find (λ p. text_eq p.id id) platforms

-- The offset of the query: 0 unless it is a number that is not negative.
abbrev from_zero : Bool → ℤ → ℕ
from_zero true (pos n) = n
from_zero _ _ = 0

abbrev pub offset_of : Option Text → ℕ
offset_of none = 0
offset_of (some s) = if is_empty s then 0 else from_zero (atoi s).valid (atoi s).value

-- `filterMCVersions`
unfoldable pub filter_mc_versions : List Text → Bool → List Text
unfolding select is_pre_release
filter_mc_versions versions show_pre_release =
    if show_pre_release then versions else select (λ v. not (is_pre_release v)) versions

-- `applyQueryModifiers`
unfoldable pub add_all : Map Text → Map Text → Map Text
unfolding insert
add_all [] tags = tags
add_all ((k, v) ∷ mods) tags = add_all mods (insert k v tags)

abbrev modified : Option (Map Text) → Map Text → Map Text
modified none tags = tags
modified (some mods) tags = add_all mods tags

unfoldable apply_query_modifiers : PlatformConfig → Text → Bool → Map Text → Map Text
unfolding add_all lookup
apply_query_modifiers platform mc_version filter_api tags =
    if filter_api then modified (lookup mc_version platform.query_modifiers) tags else tags

-- `values[name]` of a Go map whose zero value is empty.
abbrev pub or_empty {ℓ} : {A : Type ℓ} → Option (List A) → List A
or_empty none = []
or_empty (some xs) = xs

-- `selectedMC`, where the query leaves it out: the default, if there is one, else the first version.
abbrev pub selected_default : Result Text → Text → Text
selected_default (ok t) first = if is_empty t then first else t
selected_default (err e) first = first

abbrev asset_data : VersionAssetRow → AssetData
asset_data a = record {
  classifier = a.classifier;
  download_url = a.download_url;
  extension = a.extension;
}

-- The parameters of both queries.
abbrev pub build_params : PlatformConfig → Map Text → Option Bool → ℕ → ℕ → VersionQueryParams
build_params platform tag_filter recommended limit offset = record {
  group_id = platform.group;
  artifact_id = platform.id;
  recommended = recommended;
  tags = tag_filter;
  limit = limit;
  offset = offset;
}

-- The tags that the page asks for.
unfoldable pub tag_filter_of : PlatformConfig → Text → Bool → Map Text
unfolding apply_query_modifiers
tag_filter_of platform selected filter_api =
    apply_query_modifiers platform selected filter_api ((codes "minecraft", selected) ∷ [])

module _ {Time : Type 0} (parse : Text → Option Time) (relative format : Time → Text) where
  -- `versionWithAssetsToBuild`
  unfoldable pub version_with_assets_to_build :
      PlatformConfig → Text → VersionWithAssets → BuildDetail
  unfolding match_assets is_experimental parse_commit_body
  version_with_assets_to_build platform mc_version v =
      let commits = parse_commit_body parse relative format v.commit_body in
      record {
        version = v.version;
        recommended = v.recommended;
        experimental = is_experimental v.version;
        assets =
            match_assets (map asset_data v.assets) platform.artifact_types mc_version
              platform.legacy_mc_prefixes;
        commits = commits.commits;
        submodules = commits.submodules;
        processing = commits.processing;
      }

  -- The first build, without its commits.
  abbrev pub first_build : PlatformConfig → Text → List VersionWithAssets → Option BuildDetail
  first_build platform mc_version [] = none
  first_build platform mc_version (v ∷ _) =
      some (record (version_with_assets_to_build platform mc_version v) { commits = [] })

  module _ (fails : Faults) (platform : PlatformConfig) (tag_filter : Map Text) where
    -- `tagFilter["minecraft"]`
    abbrev pub mc_of_filter : Text
    mc_of_filter = or_empty (lookup (codes "minecraft") tag_filter)

    -- `fetchRecommendedBuild`
    unfoldable pub fetch_recommended_build : Db (Option BuildDetail)
    unfolding version_with_assets_to_build list_versions_with_assets_call lookup
    fetch_recommended_build = do
      result ←
          list_versions_with_assets_call fails 0 (build_params platform tag_filter (some true) 1 0)
      pure (first_build platform mc_of_filter result.versions)

    -- The query of `fetchPaginatedBuilds`: the offset is cut to an int32, and Postgres refuses a
    -- negative one.
    abbrev pub builds_at : ℤ → Db VersionsWithAssetsResult
    builds_at (pos n) =
        list_versions_with_assets_call fails 1
          (build_params platform tag_filter none builds_per_page n)
    builds_at (negsuc n) = raise other

    -- `fetchPaginatedBuilds`
    unfoldable pub fetch_paginated_builds : ℕ → Db (List BuildDetail × ℕ)
    unfolding version_with_assets_to_build list_versions_with_assets_call lookup
    fetch_paginated_builds offset = do
      result ← builds_at (int32 offset)
      pure (map (version_with_assets_to_build platform mc_of_filter) result.versions, result.total)

  module _ (fails : Faults) (collate : Text → Text → Ordering) (platform : PlatformConfig) where
    -- `recErr` is only logged.
    abbrev pub or_none : Result (Option BuildDetail) → Option BuildDetail
    or_none (ok b) = b
    or_none (err e) = none

    -- The page of a selected version.
    unfoldable pub builds_page : Bool → ℕ → List Text → Text → Db DownloadsPage
    unfolding fetch_recommended_build fetch_paginated_builds apply_query_modifiers
        compute_pagination
    builds_page filter_api offset mc_versions selected =
        let tags = tag_filter_of platform selected filter_api in
        (do
          recommended ← attempt (fetch_recommended_build fails platform tags)
          (builds, total) ← fetch_paginated_builds fails platform tags offset
          pure (record {
            platform = platform;
            mc_versions = mc_versions;
            selected_mc = selected;
            recommended = or_none recommended;
            builds = builds;
            pagination = compute_pagination offset total;
          }))

    -- The page without versions; its pagination is `PaginationData{}`.
    abbrev no_versions : DownloadsPage
    no_versions = record {
      platform = platform;
      mc_versions = [];
      selected_mc = [];
      recommended = none;
      builds = [];
      pagination = compute_pagination 0 0;
    }

    -- The default version is only asked for where the query leaves the version out.
    abbrev pub default_mc : Text → Db Text
    default_mc selected =
        if is_empty selected
        then get_default_tag_value fails platform.group platform.id (codes "minecraft")
        else pure []

    abbrev pub select_version : Bool → ℕ → Text → Result Text → List Text → Db DownloadsPage
    select_version filter_api offset selected default [] = pure no_versions
    select_version filter_api offset selected default (v ∷ rest) =
        builds_page filter_api offset (v ∷ rest)
          (if is_empty selected then selected_default default v else selected)

    -- `handleDownloads` from the platform on.
    unfoldable pub downloads_page : Preferences → Text → ℕ → Db DownloadsPage
    unfolding builds_page filter_mc_versions get_distinct_tag_values get_default_tag_value
    downloads_page prefs selected offset = do
      tags ← get_distinct_tag_values fails collate platform.group platform.id
      default ← attempt (default_mc selected)
      select_version prefs.filter_api offset selected default
          (filter_mc_versions (or_empty (lookup (codes "minecraft") tags)) prefs.show_pre_release)

  -- Every error of a read that is not only logged is an internal error.
  abbrev pub answer_page : Result DownloadsPage × Store → Answer × Store
  answer_page (ok p, s) = (page p, s)
  answer_page (err e, s) = (server_error, s)

  abbrev pub at_platform :
      Faults → (Text → Text → Ordering) → Request → Store → Option PlatformConfig → Answer × Store
  at_platform fails collate r s none = (not_found, s)
  at_platform fails collate r s (some platform) = answer_page (
      downloads_page fails collate platform (read_preferences r)
        (or_empty (lookup (codes "minecraft") r.query))
        (offset_of (lookup (codes "offset") r.query)) s)

  -- `handleDownloads`
  unfoldable pub handle_downloads :
      Faults
      → (Text → Text → Ordering)
      → List PlatformConfig
      → Text
      → Request
      → Store
      → Answer × Store
  unfolding downloads_page find_platform read_preferences lookup atoi
  handle_downloads fails collate platforms project r s =
      at_platform fails collate r s (find_platform project platforms)
