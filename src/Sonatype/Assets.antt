-- ===== src/Sonatype/Assets.antt =====
-- `SearchAssets` and `VersionHasAssets` of internal/sonatype.
use system_of_adownload.Prelude.{
  Bool, List, Option, Text, [], before, codes, contains, cut_at, if◌then◌else◌, is_empty, none, not,
  some, text_eq, ℕ, ◌&&◌, ◌++◌, ◌||◌, ◌∷◌,
}
use system_of_adownload.Domain.Commit.{AssetInfo}
use system_of_adownload.Prelude.Map.{insert}
use system_of_adownload.Prelude.Rows.{any}
use system_of_adownload.Sonatype.{
  Maven2, SearchAssetItem, Page, Reply, Fetched, Server, HttpClient, crawl, with_token, on_fetched,
}

-- `repoNameFromDownloadURL`
abbrev to_slash : Text → Text
to_slash rest = elim (before b'/' rest) [ none ↦ rest | some repo ↦ repo ]

unfoldable repo_name_from_download_url : Text → Text
unfolding before cut_at
repo_name_from_download_url url = elim (cut_at (codes "/repository/") url) [
  | none ↦ []
  | some (_, rest) ↦ to_slash rest
]

-- `asset`: without maven2, extension and classifier stay empty.
abbrev of_maven2 : (Maven2 → Text) → Option Maven2 → Text
of_maven2 f none = []
of_maven2 f (some m) = f m

abbrev pub asset_info : SearchAssetItem → AssetInfo
asset_info i = record {
  download_url = i.download_url;
  path = i.path;
  content_type = i.content_type;
  classifier = of_maven2 (λ m. m.classifier) i.maven2;
  extension = of_maven2 (λ m. m.extension) i.maven2;
  md5 = i.md5;
  sha1 = i.sha1;
  sha256 = i.sha256;
  sha512 = i.sha512;
}

-- A checksum: the extension contains a dot.
abbrev pub is_checksum : SearchAssetItem → Bool
is_checksum i = contains (of_maven2 (λ m. m.extension) i.maven2) (codes ".")

-- Whether the host of an asset is in `denyRepos`; an unknown host is not.
unfoldable pub is_denied : List Text → SearchAssetItem → Bool
unfolding repo_name_from_download_url any
is_denied deny i =
    let hosted = repo_name_from_download_url i.download_url in
    not (is_empty deny) && (not (is_empty hosted) && any (text_eq hosted) deny)

-- The loop over the items of a page.
unfoldable pub add_assets : List Text → List AssetInfo → List SearchAssetItem → List AssetInfo
unfolding is_denied contains
add_assets deny assets [] = assets
add_assets deny assets (i ∷ items) =
    add_assets deny
      (if is_checksum i || is_denied deny i then assets else assets ++ asset_info i ∷ []) items

module _ (server : Server) (c : HttpClient) where
  abbrev pub search_assets_page : Text → Text → Text → Option Text → Reply (Page SearchAssetItem)
  search_assets_page group artifact version token =
      server.search_assets (c.base_url ++ codes "/service/rest/v1/search/assets") (
        with_token token (
          (codes "group", group)
          ∷ (codes "name", artifact)
          ∷ (codes "version", version)
          ∷ (codes "repository", c.repo_name)
          ∷ []))

  -- `SearchAssets`
  unfoldable pub search_assets : ℕ → Text → Text → Text → Fetched (List AssetInfo)
  unfolding crawl add_assets insert
  search_assets fuel group artifact version =
      crawl (add_assets c.deny_repos) (search_assets_page group artifact version) fuel none []

  -- `VersionHasAssets`
  unfoldable pub version_has_assets : ℕ → Text → Text → Text → Fetched Bool
  unfolding search_assets
  version_has_assets fuel group artifact version =
      on_fetched (λ assets. not (is_empty assets)) (search_assets fuel group artifact version)
