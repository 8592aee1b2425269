-- ===== src/Tests/Downloads.antt =====
-- internal/frontend and the latest version of internal/httpapi on a store with two builds.
use system_of_adownload.Prelude.{
  All, arith, Option, Ordering, Text, [], codes, compare, false, leb, length, ltb, map, none, refl,
  some, true, ◌*◌, ◌+◌, ◌/◌, ◌==◌, ◌∷◌, ◌≡◌, ℕ,
}
use system_of_adownload.Activity.Sort.{sort_stable}
use system_of_adownload.Db.Filter.{tag_matches}
use system_of_adownload.Db.Models.{ArtifactVersion, TagRow, Store}
use system_of_adownload.Domain.Json.Commits.{marshal_commit, unmarshal_commit}
use system_of_adownload.Frontend.Config.{sponge_vanilla}
use system_of_adownload.Frontend.Downloads.{BuildDetail, DownloadsPage}
use system_of_adownload.Frontend.Pagination.{build_page_list, compute_pagination}
use system_of_adownload.Frontend.Pagination.Laws.{shows, compute_pagination_lem}
use system_of_adownload.Frontend.Preferences.{Request}
use system_of_adownload.Httpapi.Details.{
  VersionInfoResponse, latest_params, get_version_info_handler, get_latest_version,
}
use system_of_adownload.Httpapi.Details.Laws.{IsLatest, get_latest_version_lem}
use system_of_adownload.Httpapi.Versions.{answered, request_tags}
use system_of_adownload.Prelude.Map.{Map}
use system_of_adownload.Prelude.Rows.{any, select}
use system_of_adownload.Tests.Index.{indexed}
use system_of_adownload.Tests.Service.{no_faults}

-- The fifth of twenty pages.
compute_pagination_lem_example :
    let page = compute_pagination 40 200 in
    (shows page.total_pages 0 false page.pages ≡ true)
    × All (λ p. p.active ≡ (p.number == page.current_page)) page.pages
    × (any (λ p. p.active) page.pages ≡ leb page.current_page page.total_pages)
    × (page.has_prev ≡ leb 10 40)
    × (page.has_next ≡ ltb (40 / 10 * 10 + 10) 200)
compute_pagination_lem_example = compute_pagination_lem 40 200 (omega arith)

-- "1 … 4 [5] 6 … 20"
fifth_page : map (λ p. p.number) (build_page_list 5 20) ≡ 1 ∷ 0 ∷ 4 ∷ 5 ∷ 6 ∷ 0 ∷ 20 ∷ []
unfolding build_page_list
fifth_page = refl

-- The two builds, for the Minecraft version 1.12.2 and with the API 7.
abbrev tag : ℕ → Text → Text → TagRow
tag i key value = record { artifact_version_id = i; tag_key = key; tag_value = value }

abbrev tagged : Store
tagged = record indexed {
  tags =
      tag 1 (codes "minecraft") (codes "1.12.2")
      ∷ tag 1 (codes "api") (codes "7")
      ∷ tag 2 (codes "minecraft") (codes "1.12.2")
      ∷ tag 2 (codes "api") (codes "7")
      ∷ [];
}

abbrev no_time : Text → Option ℕ
no_time _ = none

abbrev no_layout : Text → Text → Option ℕ
no_layout _ _ = none

abbrev latest : VersionInfoResponse ℕ
latest = record {
  group_id = codes "org.spongepowered";
  artifact_id = codes "spongevanilla";
  version = codes "1.12-8";
  assets = [];
  tags = some ((codes "minecraft", codes "1.12.2") ∷ (codes "api", codes "7") ∷ []);
  recommended = false;
  commits = some (
      record {
        commit = record {
          sha = codes "abc";
          link = [];
          message = none;
          body = none;
          commit_date = none;
          author = none;
        };
        submodule_commits = none;
      }
      ∷ []);
}

get_latest_version_lem_example :
    (v : ArtifactVersion) × (t : Map Text) × (request_tags (some (codes "api:7")) ≡ some t)
    × IsLatest tagged (latest_params (codes "org.spongepowered") (codes "spongevanilla") none t) v
    × (get_version_info_handler no_layout
          (λ n. n == 0)
          no_faults
          (codes "org.spongepowered")
          (codes "spongevanilla")
          v.version
          tagged
        ≡ (answered latest, tagged))
    × (tagged ≡ tagged)
unfolding get_latest_version sort_stable select tag_matches unmarshal_commit marshal_commit
get_latest_version_lem_example =
    get_latest_version_lem no_layout (λ n. n == 0) no_faults (codes "org.spongepowered")
      (codes "spongevanilla") none (some (codes "api:7")) tagged tagged latest refl

abbrev request : Request
request = record { cookies = []; query = (codes "minecraft", codes "1.12.2") ∷ [] }

abbrev build : Text → BuildDetail
build version = record {
  version = version;
  recommended = false;
  experimental = false;
  assets = [];
  commits = [];
  submodules = [];
  processing = true;
}

abbrev by_length : Text → Text → Ordering
by_length a b = compare (length a) (length b)

abbrev shown : DownloadsPage
shown = record {
  platform = sponge_vanilla;
  mc_versions = codes "1.12.2" ∷ [];
  selected_mc = codes "1.12.2";
  recommended = none;
  builds = build (codes "1.12-8") ∷ build (codes "1.12-7") ∷ [];
  pagination = compute_pagination 0 2;
}
