-- ===== src/Tests/Handlers.antt =====
-- internal/httpapi on a store with one artifact.
use system_of_adownload.Prelude.{
  All, Text, [], before, codes, false, is_empty, is_space, none, pos, refl, some, split, trim_space,
  trim_space_left, trim_space_right, true, ◌∷◌, ◌≡◌,
}
use system_of_adownload.Activity.Sort.{sort_stable}
use system_of_adownload.App.Versions.{tags_of, get_versions}
use system_of_adownload.Db.Filter.{list_versions_filtered, count_versions_filtered}
use system_of_adownload.Httpapi.Handler.{ArtifactBody, register_artifact_handler}
use system_of_adownload.Httpapi.Handler.Laws.{Registered, register_artifact_handler-refused}
use system_of_adownload.Httpapi.Versions.{
  page_limit, page_offset, tag_pair, parse_pairs, parse_tags, GetVersionsRequest, VersionsPage,
  get_versions_page,
}
use system_of_adownload.Httpapi.Versions.Laws.{PageOf, get_versions_page_lem}
use system_of_adownload.Httpapi.Versions.Tags.{IsFull, parse_tags-IsFull}
use system_of_adownload.Prelude.Map.{Map, insert}
use system_of_adownload.Prelude.Rows.{find, any, select}
use system_of_adownload.Tests.Index.{indexed}
use system_of_adownload.Tests.Service.{no_faults, vanilla}

abbrev request : GetVersionsRequest
request = record {
  group_id = codes "org.spongepowered";
  artifact_id = codes "spongevanilla";
  recommended = none;
  tags = none;
  limit = some (pos 100);
  offset = none;
}

abbrev listed : VersionsPage
listed = record {
  entries =
      record { version = codes "1.12-8"; recommended = false; tags = [] }
      ∷ record { version = codes "1.12-7"; recommended = false; tags = [] }
      ∷ [];
  offset = 0;
  limit = 25;
  total = pos 2;
}

get_versions_page_lem_example : PageOf request indexed indexed listed
unfolding get_versions_page page_limit page_offset get_versions list_versions_filtered
    count_versions_filtered find any select sort_stable tags_of
get_versions_page_lem_example = get_versions_page_lem no_faults request indexed indexed listed refl

abbrev api_tags : Map Text
api_tags = (codes "api", codes "7") ∷ []

parse_tags-IsFull_example : (is_empty api_tags ≡ false) × All IsFull api_tags
unfolding parse_tags parse_pairs split tag_pair before trim_space trim_space_left trim_space_right
    is_space insert
parse_tags-IsFull_example = parse_tags-IsFull (codes " api:7,,") api_tags refl

-- The artifact is there already.
abbrev known_artifact : ArtifactBody
known_artifact = record {
  artifact_id = codes "spongevanilla";
  display_name = codes "SpongeVanilla";
  git_repository = none;
  website = none;
  issues = none;
}

register_artifact_handler-refused_example : Registered vanilla [] (
    register_artifact_handler no_faults true
      (λ _. false)
      (codes "org.spongepowered")
      (some known_artifact)
      vanilla
      [])
register_artifact_handler-refused_example =
    register_artifact_handler-refused no_faults true (λ _. false) (codes "org.spongepowered")
      (some known_artifact) vanilla []
