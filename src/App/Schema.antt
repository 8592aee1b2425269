-- ===== src/App/Schema.antt =====
-- `ValidateSchema` of internal/app/service.go. Each of its errors wraps `ErrInvalidSchema`, so that
-- its verdict is a Boolean: `true` is the nil error.
pub mod Laws
use system_of_adownload.Prelude.{
  Bool, List, Option, Text, [], false, if◌then◌else◌, is_empty, none, not, some, text_eq, true,
  ◌&&◌, ◌∷◌,
}
use system_of_adownload.Domain.Version.{ParseAs, SegmentRule}
use system_of_adownload.Domain.Version.Schema.{Pattern, VersionFormatVariant, VersionSchema}
use system_of_adownload.Prelude.Rows.{any}

-- `groups[seg.Name]`: the set of the group names that are not empty.
abbrev is_group : Text → List Text → Bool
is_group name names = not (is_empty name) && any (text_eq name) names

-- `validParseAs`
abbrev is_valid_parse_as : ParseAs → Bool
is_valid_parse_as (ParseAs.unknown text) = false
is_valid_parse_as _ = true

-- The inner loop, for the names of a compiled pattern.
pub segments_valid : List Text → List SegmentRule → Bool
unfolding any
segments_valid names [] = true
segments_valid names (r ∷ rules) =
    let rest = segments_valid names rules in
    if is_group r.name names then (if is_valid_parse_as r.parse_as then rest else false) else false

abbrev pub pattern_valid : Option Pattern → List SegmentRule → Bool
pattern_valid none rules = false
pattern_valid (some re) rules = segments_valid re.subexp_names rules

module _ (compile : Text → Option Pattern) where
  -- The loop over the variants.
  pub variants_valid : List VersionFormatVariant → Bool
  unfolding segments_valid
  variants_valid [] = true
  variants_valid (v ∷ variants) =
      let rest = variants_valid variants in
      if is_empty v.name
      then false
      else if is_empty v.pattern
      then false
      else if pattern_valid (compile v.pattern) v.segments
      then rest
      else false

  unfoldable pub validate_schema : VersionSchema → Bool
  unfolding variants_valid
  validate_schema schema =
      if is_empty schema.variants then false else variants_valid schema.variants
