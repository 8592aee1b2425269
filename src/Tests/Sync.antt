-- ===== src/Tests/Sync.antt =====
-- internal/activity/version_sync.go and the listings on a few versions.
use system_of_adownload.Prelude.{
  All, Bool, List, Ordering, Text, [], arith, codes, false, if◌then◌else◌, is_empty, length, map,
  none, pos, refl, text_eq, true, ℕ, ℤ, ◌++◌, ◌∷◌, ◌≡◌, ◌≢◌, ◌<◌, ◌≤◌, ◌⊎◌,
}
use system_of_adownload.Activity.Apply.{apply_version_ordering}
use system_of_adownload.Activity.Apply.Laws.{assigned, apply_version_ordering_lem}
use system_of_adownload.Activity.Ordering.{VersionSortAssignment}
use system_of_adownload.Activity.Sync.{
  VersionInfo, is_unknown, gate, insert_versions, page_loop, store_new_versions,
}
use system_of_adownload.Activity.Sync.Gate.{is_failing, IsProbed, gate_lem}
use system_of_adownload.Activity.Sync.Inserts.{same_version, Grows, insert_versions-IsUnique}
use system_of_adownload.Activity.Sync.NewVersions.{
  is_new, store_new_versions-Grows, store_new_versions_lem,
}
use system_of_adownload.Activity.Sync.Pages.{page_loop_lem}
use system_of_adownload.Db.Filter.{
  VersionQueryParams, tag_matches, list_versions_filtered, count_versions_filtered,
  list_versions_with_assets,
}
use system_of_adownload.Db.Filter.Exists.{list_versions_with_assets_lem}
use system_of_adownload.Db.Models.{ArtifactVersion, Store}
use system_of_adownload.Db.Tx.{Result, ok}
use system_of_adownload.Db.Versions.{is_version, version_strings}
use system_of_adownload.Prelude.Rows.{find, any, select, IsUnique}
use system_of_adownload.Tests.Service.{vanilla, no_faults, vanilla_row}

abbrev info : Text → VersionInfo
info v = record {
  group_id = codes "org.spongepowered";
  artifact_id = codes "spongevanilla";
  version = v;
}

abbrev row : ℕ → Text → ℤ → Bool → ArtifactVersion
row i v order recommended = record {
  id = i;
  artifact_id = 1;
  version = v;
  sort_order = order;
  recommended = recommended;
  commit_body = none;
}

abbrev collate : Text → Text → Ordering
collate a b = Ordering.eq

abbrev two_versions : Store
two_versions = record vanilla {
  versions = row 1 (codes "1.0") (pos 1) true ∷ row 2 (codes "1.1") (pos 2) true ∷ [];
  tags =
      record { artifact_version_id = 1; tag_key = codes "minecraft"; tag_value = codes "1.12.2" }
      ∷ record { artifact_version_id = 2; tag_key = codes "minecraft"; tag_value = codes "1.120" }
      ∷ [];
  next_version = 3;
}

abbrev three_versions : Store
three_versions = record two_versions {
  versions = two_versions.versions ++ row 3 (codes "1.2") (pos 0) false ∷ [];
  next_version = 4;
}

abbrev incoming : List VersionInfo
incoming = info (codes "1.1") ∷ info (codes "1.2") ∷ info (codes "1.2") ∷ []

store_new_versions_lem_example :
    (info (codes "1.2") ∷ info (codes "1.2") ∷ []
      ≡ select (is_new no_faults collate 1 two_versions) incoming)
    × All (λ v. any (is_version 1 v.version) three_versions.versions ≡ true) incoming
unfolding store_new_versions any find version_strings
store_new_versions_lem_example =
    store_new_versions_lem no_faults collate (codes "org.spongepowered") (codes "spongevanilla")
      incoming (info (codes "1.2") ∷ info (codes "1.2") ∷ []) vanilla_row two_versions
      three_versions refl refl (λ i. refl) (omega arith) refl

store_new_versions-Grows_example :
    (i : ℕ) × Grows i two_versions
      (store_new_versions no_faults collate
        (codes "org.spongepowered")
        (codes "spongevanilla")
        incoming
        two_versions).1
store_new_versions-Grows_example =
    store_new_versions-Grows no_faults collate (codes "org.spongepowered") (codes "spongevanilla")
      incoming two_versions

insert_versions-IsUnique_example :
    IsUnique same_version (insert_versions no_faults 0 1 incoming two_versions).1.versions
unfolding any
insert_versions-IsUnique_example =
    insert_versions-IsUnique no_faults 1 0 incoming two_versions (refl, (refl, tt))

page_loop_lem_example :
    page_loop no_faults collate 1 0 1 0 [] two_versions
    ≡ (ok (version_strings collate two_versions 1), two_versions)
unfolding version_strings
page_loop_lem_example =
    page_loop_lem no_faults collate 1 two_versions 1 0 0 [] (λ i. refl) (omega arith) (omega arith)
      (omega arith)

-- "1.2" has assets, "1.3" has none.
abbrev probe : Text → Result Bool
probe v = ok (text_eq v (codes "1.2"))

abbrev candidates : List VersionInfo
candidates = info (codes "1.0") ∷ info (codes "1.2") ∷ info (codes "1.3") ∷ []

abbrev stored : List Text
stored = codes "1.0" ∷ []

gate_lem_example :
    (((stored ≡ []) ⊎ (50 < length (select (is_unknown stored) candidates)))
      × (gate probe candidates stored ≡ ok []))
    ⊎ ((stored ≢ [])
        × (length (select (is_unknown stored) candidates) ≤ 50)
        × IsProbed probe stored candidates
            (find (is_failing probe stored) (select (is_unknown stored) candidates))
            (gate probe candidates stored))
gate_lem_example = gate_lem probe stored candidates

-- "1.0" is stored, "1.2" has assets.
gate_passes : gate probe candidates stored ≡ ok (info (codes "1.0") ∷ info (codes "1.2") ∷ [])
unfolding gate any
gate_passes = refl

abbrev wanted : VersionQueryParams
wanted = record {
  group_id = codes "org.spongepowered";
  artifact_id = codes "spongevanilla";
  recommended = none;
  tags = (codes "minecraft", codes "1.12") ∷ [];
  limit = 10;
  offset = 0;
}

-- "1.12" finds "1.12.2" and not "1.120".
dot_boundary : count_versions_filtered two_versions wanted ≡ 1
unfolding count_versions_filtered tag_matches
dot_boundary = refl

list_versions_with_assets_lem_example : list_versions_with_assets two_versions wanted ≡ (
  list_versions_filtered two_versions wanted,
  if is_empty (list_versions_filtered two_versions wanted)
      then 0
      else count_versions_filtered two_versions wanted,
)
unfolding any
list_versions_with_assets_lem_example = list_versions_with_assets_lem two_versions wanted (refl, tt)

abbrev swapped : List VersionSortAssignment
swapped =
    record { version_id = 1; sort_order = pos 2; recommended = true }
    ∷ record { version_id = 2; sort_order = pos 1; recommended = false }
    ∷ []

apply_version_ordering_lem_example :
    (apply_version_ordering no_faults swapped two_versions).1.versions
    ≡ map (assigned swapped) two_versions.versions
unfolding any apply_version_ordering
apply_version_ordering_lem_example =
    apply_version_ordering_lem no_faults swapped two_versions
      (apply_version_ordering no_faults swapped two_versions).1 (refl, (refl, tt)) refl
