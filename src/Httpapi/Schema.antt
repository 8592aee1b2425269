-- ===== src/Httpapi/Schema.antt =====
-- `domainSchemaToAPI` and `apiSchemaToDomain` of internal/httpapi/handler.go. A `parse_as` is the
-- same string on both sides; a pointer with `omitempty` is an `Option`.
pub mod RoundTrip
use system_of_adownload.Prelude.{
  Bool, List, Option, Text, [], false, if◌then◌else◌, is_empty, map, none, some,
}
use system_of_adownload.Domain.Version.{ParseAs, SegmentRule, segments}
use system_of_adownload.Domain.Version.Schema.{VersionFormatVariant, VersionSchema}

-- The types of api.VersionSchema.
pub record ApiSegment : Type 0 where
  pub name : Text
  pub parse_as : ParseAs
  pub tag_key : Option Text

pub record ApiVariant : Type 0 where
  pub name : Text
  pub pattern : Text
  pub segments : List ApiSegment

pub record ApiSchema : Type 0 where
  pub use_mojang_manifest : Option Bool
  pub variants : List ApiVariant

abbrev pub segment_to_api : SegmentRule → ApiSegment
segment_to_api r = record {
  name = r.name;
  parse_as = r.parse_as;
  tag_key = if is_empty r.tag_key then none else some r.tag_key;
}

abbrev pub variant_to_api : VersionFormatVariant → ApiVariant
variant_to_api v = record {
  name = v.name;
  pattern = v.pattern;
  segments = map segment_to_api v.segments;
}

unfoldable pub domain_schema_to_api : VersionSchema → ApiSchema
domain_schema_to_api schema = record {
  use_mojang_manifest = some schema.use_mojang_manifest;
  variants = map variant_to_api schema.variants;
}

-- `if p != nil { x = *p }`, where `x` is `d` before.
abbrev pub or_default {ℓ} : {A : Type ℓ} → Option A → A → A
or_default none d = d
or_default (some a) d = a

abbrev pub segment_to_domain : ApiSegment → SegmentRule
segment_to_domain s = record {
  name = s.name;
  parse_as = s.parse_as;
  tag_key = or_default s.tag_key [];
}

abbrev pub variant_to_domain : ApiVariant → VersionFormatVariant
variant_to_domain v = record {
  name = v.name;
  pattern = v.pattern;
  segments = map segment_to_domain v.segments;
}

unfoldable pub api_schema_to_domain : ApiSchema → VersionSchema
api_schema_to_domain schema = record {
  use_mojang_manifest = or_default schema.use_mojang_manifest false;
  variants = map variant_to_domain schema.variants;
}
