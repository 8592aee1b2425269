-- ===== src/Domain/Version.antt =====
-- The data types of internal/domain/version_ordering.go and version_schema.go.
pub mod Parse
pub mod Schema
pub mod Compare
use system_of_adownload.Prelude.{
  ℕ, zero, suc, Bool, true, false, List, Option, none, some, ℤ, pos, Text,
}

-- `VersionQualifier`, from the earliest to the latest.
pub data VersionQualifier : Type 0 where
  snapshot pre rc release : VersionQualifier

-- `int(q)`
abbrev pub rank : VersionQualifier → ℕ
rank snapshot = 0
rank pre = 1
rank rc = 2
rank release = 3

pub record WeeklySnapshot : Type 0 where
  pub year : ℤ
  pub week : ℤ
  pub build : ℕ

-- The values of `ParseAs`; `unknown` is any other text, which `Validate` refuses.
pub data ParseAs : Type 0 where
  minecraft dotted integer ignore : ParseAs
  unknown : Text → ParseAs

pub record SegmentRule : Type 0 where
  pub name : Text
  pub parse_as : ParseAs
  pub tag_key : Text

-- The fields of `ParsedVersion` but for `Segments`. The pointer `Minecraft` is nil or points at the
-- `Version` of a segment: it is the index of that segment, so that what is written through it is
-- seen in the segment.
pub record Fields : Type 0 where
  pub raw : Text
  pub primary : List ℤ
  pub qualifier : VersionQualifier
  pub qualifier_num : ℤ
  pub weekly : Option WeeklySnapshot
  pub is_composite : Bool
  pub minecraft : Option ℕ
  pub variant_name : Text
  pub variant_order : ℕ
  pub manifest_order : ℤ

-- `ParsedVersion` and `ParsedSegment` hold one another.
mutual
  pub data ParsedVersion : Type 0 where
    parsed_version : Fields → Segments → ParsedVersion

  pub data Segments : Type 0 where
    nil : Segments
    cons : ParsedSegment → Segments → Segments

  -- Rule, Raw, Version, Ints and IntValue.
  pub data ParsedSegment : Type 0 where
    segment : SegmentRule → Text → SubVersion → List ℤ → ℤ → ParsedSegment

  -- `*ParsedVersion`
  pub data SubVersion : Type 0 where
    absent : SubVersion
    present : ParsedVersion → SubVersion

abbrev pub fields : ParsedVersion → Fields
fields (parsed_version f s) = f

abbrev pub segments : ParsedVersion → Segments
segments (parsed_version f s) = s

abbrev pub rule : ParsedSegment → SegmentRule
rule (segment r raw v ints n) = r

-- `len(s) > 0`
abbrev pub is_nonempty : Segments → Bool
is_nonempty nil = false
is_nonempty (cons s rest) = true

-- `Segments[i].Version`
version_at : ℕ → Segments → SubVersion
version_at i nil = absent
version_at zero (cons (segment r raw v ints n) rest) = v
version_at (suc i) (cons s rest) = version_at i rest

-- `Version` dereferenced: what `Minecraft` points at.
unfoldable minecraft_of : ParsedVersion → SubVersion
unfolding version_at
minecraft_of (parsed_version f s) = elim f.minecraft [ none ↦ absent | some i ↦ version_at i s ]

-- `MinecraftVersionString`
unfoldable pub minecraft_version_string : ParsedVersion → Text
unfolding minecraft_of
minecraft_version_string pv = elim (fields pv).is_composite [
  | true ↦ elim (minecraft_of pv) [ absent ↦ (fields pv).raw | present mc ↦ (fields mc).raw ]
  | false ↦ (fields pv).raw
]

-- The zero value of `ParsedVersion` but for `Raw` and `Qualifier`.
abbrev pub blank : Text → Fields
blank raw = record {
  raw = raw;
  primary = List.[];
  qualifier = release;
  qualifier_num = pos 0;
  weekly = none;
  is_composite = false;
  minecraft = none;
  variant_name = List.[];
  variant_order = 0;
  manifest_order = pos 0;
}
