-- ===== src/Tests/Repository.antt =====
-- internal/sonatype on a server with two pages of versions and one of assets.
use mathlib.Core.List.{flatten}
use system_of_adownload.Prelude.{
  List, arith, Text, [], codes, contains, length, map, none, refl, some, ◌∷◌, ◌≡◌,
}
use system_of_adownload.Prelude.Map.{Map, insert, lookup}
use system_of_adownload.Prelude.Rows.{any, select}
use system_of_adownload.Sonatype.{
  Page, Reply, broken, reply, fetched, Server, HttpClient, version_info, fetch_versions,
  SearchAssetItem,
}
use system_of_adownload.Sonatype.Assets.{asset_info, is_denied, search_assets, version_has_assets}
use system_of_adownload.Sonatype.Laws.{distinct, is_offered, fetch_versions_lem, search_assets_lem}

-- A server with two pages, the second behind the token "2"; a version stands on both.
abbrev two_pages : Map Text → Reply (Page Text)
two_pages params = elim (lookup (codes "continuationToken") params) [
  | none ↦ reply 200 (
      some (record {
        items = codes "1.1" ∷ codes "1.0" ∷ codes "1.1" ∷ [];
        continuation_token = some (codes "2");
      }))
  | some t ↦
      reply 200
        (some (record { items = codes "1.0" ∷ codes "0.9" ∷ []; continuation_token = none }))
]

-- A jar, its checksum, and a jar of a host that is denied.
abbrev item : Text → Text → SearchAssetItem
item url extension = record {
  download_url = url;
  path = codes "a-1.1";
  content_type = [];
  md5 = [];
  sha1 = codes "ff";
  sha256 = [];
  sha512 = [];
  maven2 = some (record { extension = extension; classifier = [] });
}

abbrev items : List SearchAssetItem
items =
    item (codes "https://repo/repository/releases/a-1.1.jar") (codes "jar")
    ∷ item (codes "https://repo/repository/releases/a-1.1.jar.sha1") (codes "jar.sha1")
    ∷ item (codes "https://repo/repository/forge-proxy/a-1.1.jar") (codes "jar")
    ∷ []

abbrev assets : Reply (Page SearchAssetItem)
assets = reply 200 (some (record { items = items; continuation_token = none }))

abbrev server : Server
server = record { search = λ _. two_pages; search_assets = λ _ _. assets; metadata = λ _. broken }

abbrev client : HttpClient
client = record {
  base_url = codes "https://repo";
  repo_name = codes "maven-public";
  deny_repos = codes "forge-proxy" ∷ [];
}

abbrev pages : List (List Text)
pages = (codes "1.1" ∷ codes "1.0" ∷ codes "1.1" ∷ []) ∷ (codes "1.0" ∷ codes "0.9" ∷ []) ∷ []

fetch_versions_lem_example :
    fetch_versions server client 2 (codes "g") (codes "a")
    ≡ fetched (map (version_info (codes "g") (codes "a")) (distinct (flatten pages)))
unfolding lookup insert
fetch_versions_lem_example =
    fetch_versions_lem server client (codes "g") (codes "a") 2 pages (omega arith)
      (codes "2", refl, refl)

three_versions : distinct (flatten pages) ≡ codes "1.1" ∷ codes "1.0" ∷ codes "0.9" ∷ []
unfolding distinct flatten select
three_versions = refl

search_assets_lem_example :
    (search_assets server client 1 (codes "g") (codes "a") (codes "1.1")
      ≡ fetched (map asset_info (select (is_offered client.deny_repos) (flatten (items ∷ [])))))
    × (version_has_assets server client 1 (codes "g") (codes "a") (codes "1.1")
        ≡ fetched (any (is_offered client.deny_repos) (flatten (items ∷ []))))
search_assets_lem_example =
    search_assets_lem server client (codes "g") (codes "a") (codes "1.1") 1 (items ∷ [])
      (omega arith) refl

one_jar : length (select (is_offered client.deny_repos) items) ≡ 1
unfolding select is_denied contains any
one_jar = refl
