-- ===== src/Tests/Index.antt =====
-- internal/activity on a store with one version: its assets, its commit, its order.
use mathlib.Core.List.{Mem}
use system_of_adownload.Prelude.{
  none, All, [], codes, false, length, map, pos, refl, some, true, ◌&&◌, ◌==◌, ◌∷◌, ◌≡◌,
}
use system_of_adownload.Activity.Apply.{apply_version_ordering}
use system_of_adownload.Activity.Apply.Laws.{assigned}
use system_of_adownload.Activity.Enrichment.{
  for_enrichment, merge_changelog, store_enriched_commit, store_changelog,
}
use system_of_adownload.Activity.Enrichment.Laws.{
  IsNamed, for_enrichment-IsNamed, store_changelog-store_enriched_commit,
}
use system_of_adownload.Activity.Index.{asset_params, create_assets, store_version_assets}
use system_of_adownload.Activity.Index.Laws.{stored_assets, other_assets, store_version_assets_lem}
use system_of_adownload.Activity.Ordering.{ComputeVersionOrderingOutput}
use system_of_adownload.Activity.Sort.{sort_stable}
use system_of_adownload.Activity.Tags.{store_version_tags}
use system_of_adownload.Db.Commits.{
  is_below, is_predecessor, previous_version, asset_row, set_commit_body, get_artifact_version,
  create_artifact_version_asset,
}
use system_of_adownload.Db.Models.{ArtifactVersion, Store}
use system_of_adownload.Db.Previous.{IsPrevious, previous_version_lem}
use system_of_adownload.Db.Registry.{upsert}
use system_of_adownload.Db.Tx.{ok, with_tx}
use system_of_adownload.Domain.Json.{Json, has_member}
use system_of_adownload.Domain.Json.Laws.{unmarshal_commit-marshal_commit}
use system_of_adownload.Domain.Json.Commits.{marshal_commit, unmarshal_commit}
use system_of_adownload.Domain.Commit.{
  AssetInfo, Changelog, changelog, no_submodules, submodule, CommitInfo, no_commit,
}
use system_of_adownload.Prelude.Rows.{find, any, select, update}
use system_of_adownload.Tests.Service.{no_faults, vanilla}
use system_of_adownload.Workflow.Ordering.{chunk_from, each_batch, apply_and_tag}
use system_of_adownload.Workflow.Ordering.Laws.{apply_and_tag_lem}

abbrev indexed_row : ArtifactVersion
indexed_row = record {
  id = 1;
  artifact_id = 1;
  version = codes "1.12-7";
  sort_order = pos 1;
  recommended = false;
  commit_body = some (marshal_commit (record no_commit { sha = codes "abc" }));
}

abbrev later_row : ArtifactVersion
later_row = record indexed_row { id = 2; version = codes "1.12-8"; sort_order = pos 2 }

abbrev pub indexed : Store
indexed = record vanilla { versions = indexed_row ∷ later_row ∷ []; next_version = 3 }

abbrev main_jar : AssetInfo
main_jar = record {
  download_url = codes "https://repo/1.12-7.jar";
  path = codes "1.12-7.jar";
  content_type = [];
  classifier = [];
  extension = codes "jar";
  md5 = [];
  sha1 = codes "ff";
  sha256 = [];
  sha512 = [];
}

abbrev sources_jar : AssetInfo
sources_jar = record main_jar { classifier = codes "sources" }

abbrev with_jar : Store
with_jar = record indexed { assets = asset_row 1 1 (asset_params main_jar) ∷ []; next_asset = 2 }

store_version_assets_lem_example :
    (av : ArtifactVersion) × (get_artifact_version no_faults
        (codes "org.spongepowered")
        (codes "spongevanilla")
        (codes "1.12-7")
        indexed
      ≡ (ok av, indexed))
    × (1 ≡ length (main_jar ∷ []))
    × (stored_assets av.id with_jar ≡ asset_params main_jar ∷ [])
    × (other_assets av.id with_jar ≡ other_assets av.id indexed)
unfolding store_version_assets create_assets create_artifact_version_asset with_tx select any find
store_version_assets_lem_example =
    store_version_assets_lem no_faults (codes "org.spongepowered") (codes "spongevanilla")
      (codes "1.12-7") (main_jar ∷ []) indexed with_jar 1 refl

abbrev enriched_body : CommitInfo
enriched_body = record no_commit { sha = codes "abc"; enriched_at = codes "2026-01-01T00:00:00Z" }

abbrev empty_changelog : Changelog
empty_changelog = changelog (codes "aaa") [] no_submodules

abbrev with_body : CommitInfo → Store
with_body c = record indexed {
  versions = set_commit_body (some (marshal_commit c)) indexed_row ∷ later_row ∷ [];
}

store_changelog-store_enriched_commit_example :
    (body : Json) × (find
        (λ w. w.id == 1)
        (with_body (merge_changelog empty_changelog enriched_body)).versions
      ≡ some (record indexed_row { commit_body = some body }))
    × (unmarshal_commit body ≡ some (record enriched_body { changelog = some empty_changelog }))
unfolding store_enriched_commit store_changelog with_tx find update marshal_commit unmarshal_commit
store_changelog-store_enriched_commit_example =
    store_changelog-store_enriched_commit no_faults 1 enriched_body empty_changelog indexed_row
      indexed (with_body enriched_body) (with_body (merge_changelog empty_changelog enriched_body))
      refl refl refl

-- A commit with an author, a submodule and a changelog that has one of its own.
abbrev full_commit : CommitInfo
full_commit = record enriched_body {
  author = some (record { name = codes "Ann"; email = [] });
  submodules =
      record {
        repository = codes "api";
        sha = codes "c3";
        url = [];
        message = codes "Fix";
        author = none;
        commit_date = [];
      }
      ∷ [];
  changelog =
      some (changelog (codes "aaa") [] (submodule (codes "api") empty_changelog no_submodules));
}

unmarshal_commit-marshal_commit_example :
    unmarshal_commit (marshal_commit full_commit) ≡ some full_commit
unmarshal_commit-marshal_commit_example = unmarshal_commit-marshal_commit full_commit

previous_version_lem_example :
    Mem indexed_row indexed.versions
    × IsPrevious 1 (pos 2) indexed_row
    × (any (λ w. is_predecessor 1 (pos 2) w && is_below (pos 1) w.sort_order) indexed.versions
        ≡ false)
unfolding previous_version sort_stable select marshal_commit has_member
previous_version_lem_example = previous_version_lem 1 (pos 2) indexed indexed_row refl

for_enrichment-IsNamed_example : All IsNamed (for_enrichment indexed.versions)
for_enrichment-IsNamed_example = for_enrichment-IsNamed indexed.versions

abbrev ordered_output : ComputeVersionOrderingOutput
ordered_output = record {
  assignments = record { version_id = 1; sort_order = pos 7; recommended = true } ∷ [];
  version_tags = record { version_id = 1; tags = (codes "minecraft", codes "1.12") ∷ [] } ∷ [];
}

abbrev after_ordering : Store
after_ordering = record indexed {
  versions = record indexed_row { sort_order = pos 7; recommended = true } ∷ later_row ∷ [];
  tags =
      record { artifact_version_id = 1; tag_key = codes "minecraft"; tag_value = codes "1.12" }
      ∷ [];
}

apply_and_tag_lem_example :
    (1 ≡ length ordered_output.assignments)
    × (after_ordering.versions ≡ map (assigned ordered_output.assignments) indexed.versions)
unfolding apply_and_tag each_batch chunk_from apply_version_ordering store_version_tags with_tx
    update select any upsert
apply_and_tag_lem_example =
    apply_and_tag_lem (λ _. no_faults) ordered_output indexed after_ordering 1 (refl, tt) refl
