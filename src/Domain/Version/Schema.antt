-- ===== src/Domain/Version/Schema.antt =====
-- internal/domain/version_schema.go. Package regexp is a parameter: `compile` takes a pattern to the
-- names of its groups and its `FindStringSubmatch`. The cache of compiled patterns holds what
-- `compile` returns, so a lookup in it is a call.
pub mod Form
pub mod Tags
use mathlib.Core.Option
use system_of_adownload.Prelude.{
  Bool, List, Option, Text, [], atoi, codes, if◌then◌else◌, is_empty, map, none, pos, some, suc,
  text_eq, true, upper, ℕ, ℤ, ◌||◌, ◌∷◌,
}
use system_of_adownload.Domain.Version.{
  VersionQualifier, ParseAs, minecraft, SegmentRule, ParsedVersion, parsed_version, Segments, nil,
  cons, ParsedSegment, segment, absent, present, segments, rule, blank,
}
use system_of_adownload.Domain.Version.Parse.{parse_dotted_ints, parse_simple_version}
use system_of_adownload.Prelude.Map.{Map, lookup, insert}

-- `*regexp.Regexp`: `SubexpNames` and `FindStringSubmatch`, both with the whole match at index 0.
pub record Pattern : Type 0 where
  pub subexp_names : List Text
  pub find_submatch : Text → Option (List Text)

pub record VersionFormatVariant : Type 0 where
  pub name : Text
  pub pattern : Text
  pub segments : List SegmentRule

pub record VersionSchema : Type 0 where
  pub use_mojang_manifest : Bool
  pub variants : List VersionFormatVariant

-- The errors of `Validate`: the variant's index and name, then the segment's, with its `parse_as`.
pub data SchemaError : Type 0 where
  bad_pattern : ℕ → Text → SchemaError
  unknown_parse_as : ℕ → Text → ℕ → Text → Text → SchemaError

-- The loop over the named groups: those that are empty are left out.
unfoldable collect_groups : List Text → List Text → Map Text → Map Text
collect_groups (n ∷ names) (m ∷ match) groups =
    collect_groups names match (if is_empty n || is_empty m then groups else insert n m groups)
collect_groups _ _ groups = groups

-- The map from names to values; index 0 is the whole match.
unfoldable groups_of : List Text → List Text → Map Text
unfolding collect_groups
groups_of (_ ∷ names) (_ ∷ match) = collect_groups names match []
groups_of _ _ = []

-- The switch on the group "qualifier", on its text in upper case.
unfoldable qualifier_of : Text → VersionQualifier
qualifier_of q =
    let u = map upper q in
    if text_eq u (codes "RC") || text_eq u (codes "BETA")
    then VersionQualifier.rc
    else if text_eq u (codes "PRE")
    then VersionQualifier.pre
    else if text_eq u (codes "DEV") || text_eq u (codes "SNAPSHOT")
    then VersionQualifier.snapshot
    else VersionQualifier.release

abbrev qualifier_group : Map Text → VersionQualifier
qualifier_group groups = elim (lookup (codes "qualifier") groups) [
  | none ↦ VersionQualifier.release
  | some q ↦ qualifier_of q
]

abbrev build_group : Map Text → ℤ
build_group groups = elim (lookup (codes "build") groups) [ none ↦ pos 0 | some b ↦ (atoi b).value ]

-- The switch on `rule.ParseAs`.
pub parse_segment : SegmentRule → Text → ParsedSegment
unfolding atoi
parse_segment r raw = elim r.parse_as [
  | ParseAs.minecraft ↦ segment r raw (present (parse_simple_version raw)) [] (pos 0)
  | ParseAs.dotted ↦ segment r raw absent (parse_dotted_ints raw) (pos 0)
  | ParseAs.integer ↦ segment r raw absent [] (atoi raw).value
  | _ ↦ segment r raw absent [] (pos 0)
]

-- A rule whose group captured nothing gives no segment.
pub add_segment : SegmentRule → Option Text → Segments → Segments
add_segment r none rest = rest
add_segment r (some raw) rest = cons (parse_segment r raw) rest

pub parse_segments : Map Text → List SegmentRule → Segments
unfolding add_segment parse_segment
parse_segments groups [] = nil
parse_segments groups (r ∷ rules) =
    add_segment r (lookup r.name groups) (parse_segments groups rules)

-- The loop that sets `Minecraft`: the first segment of that kind, counted from `i`.
unfoldable first_minecraft : ℕ → Segments → Option ℕ
first_minecraft i nil = none
first_minecraft i (cons s rest) =
    let later = first_minecraft (suc i) rest in
    elim (rule s).parse_as [ ParseAs.minecraft ↦ some i | _ ↦ later ]

-- The body of the loop over the variants, for a match.
unfoldable composite : Text → ℕ → VersionFormatVariant → Map Text → ParsedVersion
unfolding parse_segments first_minecraft qualifier_of
composite raw i variant groups =
    let found = parse_segments groups variant.segments in
    parsed_version
      (record (blank raw) {
        is_composite = true;
        qualifier = qualifier_group groups;
        qualifier_num = build_group groups;
        minecraft = first_minecraft 0 found;
        variant_name = variant.name;
        variant_order = i;
      })
      found

-- The inner loop of `Validate`: the first error; `none` is a nil error.
pub validate_segments : ℕ → Text → ℕ → List SegmentRule → Option SchemaError
validate_segments i name j [] = none
validate_segments i name j (s ∷ segments) =
    let later = validate_segments i name (suc j) segments in
    elim s.parse_as [
      | ParseAs.unknown text ↦ some (unknown_parse_as i name j s.name text)
      | _ ↦ later
    ]

-- The first match wins.
pub on_match : Text → ℕ → VersionFormatVariant → Option (Map Text) → ParsedVersion → ParsedVersion
unfolding composite
on_match raw i v none later = later
on_match raw i v (some groups) later = composite raw i v groups

module _ (compile : Text → Option Pattern) where
  -- One round of the loop over the variants: the match, if the pattern compiles.
  pub match_variant : Text → VersionFormatVariant → Option (Map Text)
  unfolding groups_of
  match_variant raw v = elim (compile v.pattern) [
    | none ↦ none
    | some re ↦ Option.map (λ m. groups_of re.subexp_names m) (re.find_submatch raw)
  ]

  -- The variants from index `i` on; one that does not match is passed over.
  pub parse_variants : Text → ℕ → List VersionFormatVariant → ParsedVersion
  unfolding on_match match_variant
  parse_variants raw i [] = parse_simple_version raw
  parse_variants raw i (v ∷ variants) =
      on_match raw i v (match_variant raw v) (parse_variants raw (suc i) variants)

  -- `ParseVersionWithSchema`
  unfoldable pub parse_version_with_schema : Text → Option VersionSchema → ParsedVersion
  unfolding parse_variants
  parse_version_with_schema raw none = parse_simple_version raw
  parse_version_with_schema raw (some schema) = parse_variants raw 0 schema.variants

  -- `Validate`: the first error, in the order of the loops.
  pub validate_variants : ℕ → List VersionFormatVariant → Option SchemaError
  unfolding validate_segments
  validate_variants i [] = none
  validate_variants i (v ∷ variants) =
      let later = validate_variants (suc i) variants in
      elim (compile v.pattern) [
        | none ↦ some (bad_pattern i v.name)
        | some re ↦ elim (validate_segments i v.name 0 v.segments) [
          | none ↦ later
          | some e ↦ some e
        ]
      ]

  pub validate : VersionSchema → Option SchemaError
  unfolding validate_variants
  validate schema = validate_variants 0 schema.variants

-- The loop of `ExtractTags`: a later segment with the same key replaces the value.
pub collect_tags : Segments → Map Text → Map Text
collect_tags nil tags = tags
collect_tags (cons (segment r raw v ints n) rest) tags =
    collect_tags rest (if is_empty r.tag_key then tags else insert r.tag_key raw tags)

-- `ExtractTags`; the nil map is the empty one.
unfoldable pub extract_tags : ParsedVersion → Map Text
unfolding collect_tags
extract_tags (parsed_version f s) = collect_tags s []
