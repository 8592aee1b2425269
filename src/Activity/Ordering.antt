-- ===== src/Activity/Ordering.antt =====
-- internal/activity/version_ordering.go: the order and the tags of an artifact's versions. Ids are
-- numbers; what is only logged is left out.
pub mod Laws
pub mod Ascending
pub mod Follows
use system_of_adownload.Prelude.{
  Bool, List, Option, Ordering, Text, [], false, if◌then◌else◌, is_empty, length, ltb, map, negsuc,
  none, pos, some, suc, true, zero, ℕ, ℤ, ◌%◌, ◌+◌, ◌-◌, ◌^◌, ◌∷◌,
}
use system_of_adownload.Activity.Sort.{sort_stable}
use system_of_adownload.Domain.Version.{
  VersionQualifier, ParsedVersion, parsed_version, Segments, nil, cons, segment, SubVersion, absent,
  present, fields, minecraft_version_string,
}
use system_of_adownload.Domain.Version.Compare.{compare_versions}
use system_of_adownload.Domain.Version.Schema.{
  Pattern, VersionSchema, parse_version_with_schema, extract_tags,
}
use system_of_adownload.Prelude.Map.{Map, lookup, insert}

-- A row of `ListArtifactVersions`, as far as it is read.
pub record VersionRow : Type 0 where
  pub id : ℕ
  pub text : Text

-- `versionWithID`
pub record VersionWithId : Type 0 where
  pub db_id : ℕ
  pub parsed : ParsedVersion

pub record VersionSortAssignment : Type 0 where
  pub version_id : ℕ
  pub sort_order : ℤ
  pub recommended : Bool

pub record VersionTagSet : Type 0 where
  pub version_id : ℕ
  pub tags : Map Text

pub record ComputeVersionOrderingOutput : Type 0 where
  pub assignments : List VersionSortAssignment
  pub version_tags : List VersionTagSet

-- The positions in the manifest, which lists the newest version first: `total - i`, where a later
-- entry with the same id replaces the earlier one.
unfoldable manifest_positions : ℕ → List Text → Map ℤ → Map ℤ
manifest_positions total [] order = order
manifest_positions total (v ∷ versions) order =
    manifest_positions (total - 1) versions (insert v (pos total) order)

-- `FetchMojangManifest`, from the decoded list of ids on.
unfoldable pub manifest_order : List Text → Map ℤ
unfolding manifest_positions
manifest_order versions = manifest_positions (length versions) versions []

-- `pv.ManifestOrder = pos`
abbrev set_order : ℤ → ParsedVersion → ParsedVersion
set_order p (parsed_version f s) = parsed_version (record f { manifest_order = p }) s

abbrev set_subversion_order : ℤ → SubVersion → SubVersion
set_subversion_order p absent = absent
set_subversion_order p (present v) = present (set_order p v)

-- `pv.Minecraft.ManifestOrder = pos`, which is seen in the segment that `Minecraft` points into.
pub set_segment_order : ℕ → ℤ → Segments → Segments
set_segment_order i p nil = nil
set_segment_order zero p (cons (segment r raw v ints n) rest) =
    cons (segment r raw (set_subversion_order p v) ints n) rest
set_segment_order (suc i) p (cons s rest) = cons s (set_segment_order i p rest)

-- `if pv.IsComposite && pv.Minecraft != nil`
abbrev set_minecraft_order : Bool → Option ℕ → ℤ → Segments → Segments
set_minecraft_order true (some i) p s = set_segment_order i p s
set_minecraft_order _ _ p s = s

-- The manifest's position, where it has one.
pub apply_position : Option ℤ → ParsedVersion → ParsedVersion
unfolding set_segment_order
apply_position none pv = pv
apply_position (some p) (parsed_version f s) =
    parsed_version (record f { manifest_order = p })
      (set_minecraft_order f.is_composite f.minecraft p s)

-- The nil map gives no position.
pub apply_manifest : Option (Map ℤ) → ParsedVersion → ParsedVersion
unfolding apply_position lookup minecraft_version_string
apply_manifest none pv = pv
apply_manifest (some order) pv = apply_position (lookup (minecraft_version_string pv) order) pv

-- `int32(n)`
abbrev pub int32 : ℕ → ℤ
int32 n = let m = n % 2 ^ 32 in if ltb m (2 ^ 31) then pos m else negsuc (2 ^ 32 - m - 1)

abbrev pub is_release : VersionQualifier → Bool
is_release VersionQualifier.release = true
is_release _ = false

-- The loop over the sorted items, from index `i` on.
pub assign : ℕ → List VersionWithId → List VersionSortAssignment
assign i [] = []
assign i (x ∷ items) =
    record {
      version_id = x.db_id;
      sort_order = int32 (i + 1);
      recommended = is_release (fields x.parsed).qualifier;
    }
    ∷ assign (suc i) items

-- The loop that extracts the tags: a version with no tag gives no set.
unfoldable tag_sets : List VersionWithId → List VersionTagSet
unfolding extract_tags
tag_sets [] = []
tag_sets (x ∷ items) =
    let rest = tag_sets items in
    let tags = extract_tags x.parsed in
    if is_empty tags then rest else record { version_id = x.db_id; tags = tags } ∷ rest

abbrev pub compare_items : VersionWithId → VersionWithId → Ordering
compare_items a b = compare_versions a.parsed b.parsed

module _ (compile : Text → Option Pattern) (schema : Option VersionSchema)
    (manifest : Option (Map ℤ)) where
  -- The body of the loop that fills `items`.
  pub parse_row : VersionRow → VersionWithId
  unfolding parse_version_with_schema apply_manifest
  parse_row v = record {
    db_id = v.id;
    parsed = apply_manifest manifest (parse_version_with_schema compile v.text schema);
  }

  -- The items, sorted from the oldest to the newest.
  pub ordered_items : List VersionRow → List VersionWithId
  unfolding parse_row sort_stable compare_versions
  ordered_items versions = sort_stable compare_items (map parse_row versions)

  abbrev schema_tags : List VersionWithId → List VersionTagSet
  schema_tags items = elim schema [ none ↦ [] | some s ↦ tag_sets items ]

  -- `ComputeVersionOrdering`, from the listed versions on.
  unfoldable pub compute_version_ordering : List VersionRow → ComputeVersionOrderingOutput
  unfolding ordered_items assign tag_sets
  compute_version_ordering [] = record { assignments = []; version_tags = [] }
  compute_version_ordering (v ∷ versions) =
      let items = ordered_items (v ∷ versions) in
      record { assignments = assign 0 items; version_tags = schema_tags items }
