-- ===== src/Domain/Version/Schema/Tags.antt =====
-- What `ExtractTags` and `Validate` return.
-- The text of the last segment with the tag key `k`.
use system_of_adownload.Prelude.{
  All, List, Option, Text, [], arith, if◌then◌else◌, is_empty, none, refl, some, suc, text_eq, ℕ,
  ◌↔◌, ◌∙◌, ◌∷◌, ◌≡◌, ◌≢◌,
}
use system_of_adownload.Domain.Version.{
  ParseAs, SegmentRule, ParsedVersion, parsed_version, Segments, nil, cons, segment, segments,
}
use system_of_adownload.Domain.Version.Schema.{
  Pattern, VersionFormatVariant, VersionSchema, validate_segments, validate_variants, validate,
  collect_tags, extract_tags,
}
use system_of_adownload.Prelude.Map.{Map, lookup, insert, lookup-insert}

last_tag : Text → Segments → Option Text
last_tag k nil = none
last_tag k (cons (segment r raw v ints n) rest) = elim (last_tag k rest) [
  | some t ↦ some t
  | none ↦ if is_empty r.tag_key then none else if text_eq r.tag_key k then some raw else none
]

abbrev or_else : Option Text → Option Text → Option Text
or_else (some t) o = some t
or_else none o = o

or_else-none : (o : Option Text) → or_else o none ≡ o
or_else-none none = refl
or_else-none (some t) = refl

lookup-collect_tags :
    (k : Text) (s : Segments) (tags : Map Text)
    → lookup k (collect_tags s tags) ≡ or_else (last_tag k s) (lookup k tags)
unfolding collect_tags last_tag
lookup-collect_tags k nil tags = refl
lookup-collect_tags k (cons (segment r raw v ints n) rest) tags = ground (
  arith,
  lookup-collect_tags k rest tags,
  lookup-collect_tags k rest (insert r.tag_key raw tags),
  lookup-insert r.tag_key k raw tags,
)

-- The tags of a version are, for each key, the text of its last segment with that key; a segment
-- with an empty key gives no tag.
lookup-extract_tags :
    (k : Text) (pv : ParsedVersion) → lookup k (extract_tags pv) ≡ last_tag k (segments pv)
unfolding extract_tags lookup
lookup-extract_tags k (parsed_version f s) =
    lookup-collect_tags k s [] ∙ or_else-none (last_tag k s)

abbrev pub IsKnown : ParseAs → Type 0
IsKnown (ParseAs.unknown t) = ⊥
IsKnown _ = Unit

validate_segments_iff :
    (i : ℕ) (name : Text) (j : ℕ) (rules : List SegmentRule)
    → (validate_segments i name j rules ≡ none) ↔ All (λ s. IsKnown s.parse_as) rules
unfolding validate_segments
validate_segments_iff i name j [] = ground arith
validate_segments_iff i name j (s ∷ rules) =
    ground (arith, validate_segments_iff i name (suc j) rules)

module _ (compile : Text → Option Pattern) where
  -- Every pattern compiles and every `parse_as` is one of the four.
  abbrev pub IsValidVariant : VersionFormatVariant → Type 0
  IsValidVariant v = (compile v.pattern ≢ none) × All (λ s. IsKnown s.parse_as) v.segments

  validate_variants_iff :
      (i : ℕ) (variants : List VersionFormatVariant)
      → (validate_variants compile i variants ≡ none) ↔ All IsValidVariant variants
  unfolding validate_variants
  validate_variants_iff i [] = ground arith
  validate_variants_iff i (v ∷ variants) =
      ground
        (arith, validate_variants_iff (suc i) variants, validate_segments_iff i v.name 0 v.segments)

  -- `Validate` returns no error exactly when every pattern compiles and every `parse_as` of every
  -- segment is one of the four known values.
  pub validate_iff :
      (schema : VersionSchema)
      → (validate compile schema ≡ none) ↔ All IsValidVariant schema.variants
  unfolding validate
  validate_iff schema = validate_variants_iff 0 schema.variants
