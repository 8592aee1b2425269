-- ===== src/Sonatype.antt =====
-- internal/sonatype: the client of the repository. What the server answers to a GET is a parameter;
-- an answer is read through package json or xml, so that its body is given as the value that it
-- decodes to. The progress calls, which only report, are left out.
pub mod Assets
pub mod Metadata
pub mod Laws
use system_of_adownload.Prelude.{
  Bool, List, Option, Text, [], before, codes, contains, cut_at, false, if◌then◌else◌, is_empty,
  map, none, not, some, suc, text_eq, trim_space, true, zero, ℕ, ◌&&◌, ◌++◌, ◌==◌, ◌||◌, ◌∷◌,
}
use system_of_adownload.Activity.Sync.{VersionInfo, Sonatype}
use system_of_adownload.Db.Tx.{other, Result, ok, err}
use system_of_adownload.Domain.Commit.{AssetInfo, trim_right}
use system_of_adownload.Prelude.Map.{Map, insert}
use system_of_adownload.Prelude.Rows.{any, select}

-- `searchAssetMaven2`
pub record Maven2 : Type 0 where
  pub extension : Text
  pub classifier : Text

-- `searchAssetItem`
pub record SearchAssetItem : Type 0 where
  pub download_url : Text
  pub path : Text
  pub content_type : Text
  pub md5 : Text
  pub sha1 : Text
  pub sha256 : Text
  pub sha512 : Text
  pub maven2 : Option Maven2

-- `searchAssetsResponse` and `searchComponentsResponse`; of a component there is the version.
pub record Page {ℓ} (A : Type ℓ) : Type ℓ where
  pub items : List A
  pub continuation_token : Option Text

-- What `Do` gives: an error, or a status and a body, which may not decode.
pub data Reply {ℓ} (A : Type ℓ) : Type ℓ where
  broken : Reply A
  reply : ℕ → Option A → Reply A

pub data ClientError : Type 0 where
  request_failed undecodable : ClientError
  unexpected_status auth_error : ℕ → ClientError

-- What a function of the client returns; `unfinished` is a loop that still goes on.
pub data Fetched {ℓ} (A : Type ℓ) : Type ℓ where
  fetched : A → Fetched A
  failed : ClientError → Fetched A
  unfinished : Fetched A

-- The server: what it answers to a URL, with the values of the query for the two searches.
pub record Server : Type 0 where
  pub search : Text → Map Text → Reply (Page Text)
  pub search_assets : Text → Map Text → Reply (Page SearchAssetItem)
  pub metadata : Text → Reply (List Text)

-- `HTTPClient`
pub record HttpClient : Type 0 where
  pub base_url : Text
  pub repo_name : Text
  pub deny_repos : List Text

-- `NewHTTPClient`
unfoldable new_http_client : Text → Text → List Text → HttpClient
unfolding select trim_right trim_space
new_http_client base_url repo_name deny_repos = record {
  base_url = trim_right b'/' base_url;
  repo_name = repo_name;
  deny_repos = select (λ r. not (is_empty r)) (map trim_space deny_repos);
}

module _ {ℓ κ} {A : Type ℓ} {S : Type κ} (absorb : S → List A → S) where
  -- The end of a round: the items of the page, and the next request if there is a token.
  abbrev after_page : (Option Text → S → Fetched S) → S → Option Text → Fetched S
  after_page more s none = fetched s
  after_page more s (some token) = more (some token) s

  abbrev on_page : (Option Text → S → Fetched S) → S → Option (Page A) → Fetched S
  on_page more s none = failed undecodable
  on_page more s (some page) = after_page more (absorb s page.items) page.continuation_token

  abbrev on_reply : (Option Text → S → Fetched S) → S → Reply (Page A) → Fetched S
  on_reply more s broken = failed request_failed
  on_reply more s (reply status body) =
      if not (status == 200) then failed (unexpected_status status) else on_page more s body

  -- The loop over the pages that `FetchVersions` and `SearchAssets` share, one unit of fuel for each
  -- request.
  unfoldable pub crawl : (Option Text → Reply (Page A)) → ℕ → Option Text → S → Fetched S
  crawl get zero token s = unfinished
  crawl get (suc fuel) token s = on_reply (crawl get fuel) s (get token)

-- `params.Set("continuationToken", ...)`
abbrev with_token : Option Text → Map Text → Map Text
with_token none params = params
with_token (some token) params = insert (codes "continuationToken") token params

-- `seen` and `versions`
pub record Seen : Type 0 where
  pub seen : List Text
  pub versions : List VersionInfo

abbrev pub version_info : Text → Text → Text → VersionInfo
version_info group artifact version = record {
  group_id = group;
  artifact_id = artifact;
  version = version;
}

-- The loop over the items of a page: a version that has been seen is passed over.
unfoldable pub add_versions : Text → Text → Seen → List Text → Seen
unfolding any
add_versions group artifact s [] = s
add_versions group artifact s (v ∷ items) =
    add_versions group artifact
      (if any (text_eq v) s.seen then s else record {
        seen = v ∷ s.seen;
        versions = s.versions ++ version_info group artifact v ∷ [];
      })
      items

abbrev pub on_fetched {ℓ κ} : {A : Type ℓ} {B : Type κ} → (A → B) → Fetched A → Fetched B
on_fetched f (fetched a) = fetched (f a)
on_fetched f (failed e) = failed e
on_fetched f unfinished = unfinished

module _ (server : Server) (c : HttpClient) where
  abbrev pub search_page : Text → Text → Option Text → Reply (Page Text)
  search_page group artifact token = server.search (c.base_url ++ codes "/service/rest/v1/search") (
      with_token token (
        (codes "group", group) ∷ (codes "name", artifact) ∷ (codes "repository", c.repo_name) ∷ []))

  -- `FetchVersions`
  unfoldable pub fetch_versions : ℕ → Text → Text → Fetched (List VersionInfo)
  unfolding crawl add_versions insert
  fetch_versions fuel group artifact =
      on_fetched (λ s. s.versions)
        (crawl (add_versions group artifact) (search_page group artifact) fuel none
          (record { seen = []; versions = [] }))
