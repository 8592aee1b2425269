-- ===== src/Frontend/Classifiers.antt =====
-- internal/frontend/classifiers.go: the download buttons of a build.
use system_of_adownload.Prelude.{
  Bool, List, Option, Text, [], codes, has_prefix, if◌then◌else◌, is_empty, none, not, some,
  text_eq, ◌&&◌, ◌++◌, ◌||◌, ◌∷◌,
}
use system_of_adownload.Frontend.Config.{ArtifactType}
use system_of_adownload.Prelude.Map.{Map, insert, lookup}
use system_of_adownload.Prelude.Rows.{any}

-- `AssetLink`
pub record AssetLink : Type 0 where
  pub name : Text
  pub url : Text
  pub primary : Bool

-- `assetData`
pub record AssetData : Type 0 where
  pub classifier : Text
  pub download_url : Text
  pub extension : Text

-- `isLegacyMC`
unfoldable is_legacy_mc : Text → List Text → Bool
unfolding has_prefix any
is_legacy_mc mc_version prefixes =
    any (λ p. text_eq mc_version p || has_prefix mc_version (p ++ codes ".")) prefixes

-- `classifierToURL`: the last of the jars with a classifier counts.
unfoldable classifier_to_url : List AssetData → Map Text → Map Text
unfolding insert
classifier_to_url [] urls = urls
classifier_to_url (a ∷ assets) urls =
    classifier_to_url assets
      (if text_eq a.extension (codes "jar") then insert a.classifier a.download_url urls else urls)

abbrev classifier_of : Bool → ArtifactType → Text
classifier_of legacy t = if legacy then t.classifier_legacy else t.classifier_modern

-- The button of an artifact type, if there is one.
abbrev link_with : ArtifactType → Option Text → Option AssetLink
link_with t none = none
link_with t (some url) = some (record { name = t.name; url = url; primary = t.primary })

unfoldable link_of : Bool → Map Text → ArtifactType → Option AssetLink
unfolding lookup
link_of legacy urls t =
    if not legacy && is_empty t.classifier_modern
    then none
    else link_with t (lookup (classifier_of legacy t) urls)

-- The loop over the artifact types, with `primary` and `secondary`.
abbrev put_link :
    Option AssetLink → List AssetLink × List AssetLink → List AssetLink × List AssetLink
put_link none links = links
put_link (some l) (primary, secondary) =
    if l.primary then (primary ++ l ∷ [], secondary) else (primary, secondary ++ l ∷ [])

unfoldable sort_links :
    Bool → Map Text → List ArtifactType → List AssetLink × List AssetLink → List AssetLink
unfolding link_of
sort_links legacy urls [] (primary, secondary) = primary ++ secondary
sort_links legacy urls (t ∷ types) links =
    sort_links legacy urls types (put_link (link_of legacy urls t) links)

-- `matchAssets`
unfoldable pub match_assets : List AssetData → List ArtifactType → Text → List Text → List AssetLink
unfolding is_legacy_mc classifier_to_url sort_links
match_assets assets types mc_version prefixes =
    sort_links (is_legacy_mc mc_version prefixes) (classifier_to_url assets []) types ([], [])
