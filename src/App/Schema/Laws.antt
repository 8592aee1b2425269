-- ===== src/App/Schema/Laws.antt =====
-- `ValidateSchema` against `Validate` of internal/domain/version_schema.go.
use system_of_adownload.Prelude.{
  All, All-map, List, Option, Text, [], arith, none, refl, some, text_eq, true, ◌∷◌, ◌≡◌,
}
use system_of_adownload.App.Schema.{segments_valid, pattern_valid, variants_valid, validate_schema}
use system_of_adownload.Domain.Version.{SegmentRule}
use system_of_adownload.Domain.Version.Schema.{
  Pattern, VersionFormatVariant, VersionSchema, validate,
}
use system_of_adownload.Domain.Version.Schema.Tags.{IsKnown, IsValidVariant, validate_iff}
use system_of_adownload.Prelude.Rows.{any}

abbrev IsRule : List Text → SegmentRule → Type 0
IsRule names r = IsKnown r.parse_as × (any (text_eq r.name) names ≡ true)

segments_valid-IsRule :
    (names : List Text) (rules : List SegmentRule)
    → segments_valid names rules ≡ true
    → All (IsRule names) rules
unfolding segments_valid
segments_valid-IsRule names [] h = tt
segments_valid-IsRule names (r ∷ rules) h = ground (arith, segments_valid-IsRule names rules)

module _ (compile : Text → Option Pattern) where
  -- The rules of a variant name groups of its compiled pattern.
  abbrev pub HasGroups : VersionFormatVariant → Type 0
  HasGroups v =
      (re : Pattern) × (compile v.pattern ≡ some re) × All (IsRule re.subexp_names) v.segments

  pattern_valid-HasGroups :
      (v : VersionFormatVariant) (o : Option Pattern)
      → compile v.pattern ≡ o
      → pattern_valid o v.segments ≡ true
      → HasGroups v
  pattern_valid-HasGroups v none e h = cc
  pattern_valid-HasGroups v (some re) e h =
      (re, e, segments_valid-IsRule re.subexp_names v.segments h)

  variants_valid-HasGroups :
      (variants : List VersionFormatVariant)
      → variants_valid compile variants ≡ true
      → All HasGroups variants
  unfolding variants_valid
  variants_valid-HasGroups [] h = tt
  variants_valid-HasGroups (v ∷ variants) h = (
    pattern_valid-HasGroups v (compile v.pattern) refl (ground arith),
    variants_valid-HasGroups variants (ground arith),
  )

  HasGroups-IsValidVariant : (v : VersionFormatVariant) → HasGroups v → IsValidVariant compile v
  HasGroups-IsValidVariant v (re, e, rules) = ((λ e'. cc), All-map (λ r h. h.0) v.segments rules)

  variants_valid-schema :
      (schema : VersionSchema)
      → validate_schema compile schema ≡ true
      → variants_valid compile schema.variants ≡ true
  unfolding validate_schema
  variants_valid-schema schema h = ground arith

  -- A schema that `ValidateSchema` lets the service store passes `Validate`, and all its patterns
  -- compile with a group for the name of each rule.
  pub validate_schema_lem :
      (schema : VersionSchema)
      → validate_schema compile schema ≡ true
      → (validate compile schema ≡ none) × All HasGroups schema.variants
  validate_schema_lem schema h =
      let groups = variants_valid-HasGroups schema.variants (variants_valid-schema schema h) in
      (
        (validate_iff compile schema).1 (All-map HasGroups-IsValidVariant schema.variants groups),
        groups,
      )
