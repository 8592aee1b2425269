-- ===== src/Domain/Version/Schema/Form.antt =====
-- The segments that a schema gives, and that versions of one form are ordered consistently.
-- The `ParseAs` values of the segments.
use mathlib.Core.Path.{subst}
use system_of_adownload.Prelude.{
  Bool, List, Option, Text, [], arith, before, false, none, refl, some, suc, true, ℕ, ◌∷◌, ◌≡◌,
}
use system_of_adownload.Domain.Version.{
  VersionQualifier, ParseAs, SegmentRule, ParsedVersion, Segments, nil, cons, segments, rule,
}
use system_of_adownload.Domain.Version.Compare.{compare_versions}
use system_of_adownload.Domain.Version.Compare.Order.{
  Coherent, HoldsPlain, HasForm, compare_versions-Coherent,
}
use system_of_adownload.Domain.Version.Parse.{fallback, simple_fields, parse_simple_fields}
use system_of_adownload.Domain.Version.Schema.{
  Pattern, VersionFormatVariant, VersionSchema, parse_segment, add_segment, parse_segments,
  on_match, match_variant, parse_variants, parse_version_with_schema,
}
use system_of_adownload.Prelude.Map.{Map, lookup}

unfoldable pub form : Segments → List ParseAs
form nil = []
form (cons s rest) = (rule s).parse_as ∷ form rest

-- `parseSimpleVersion` keeps the text.
raw-fallback : (raw : Text) (o : Option Text) → (fallback raw o).raw ≡ raw
raw-fallback raw o = ground arith

raw-simple_fields :
    (raw : Text) (w : Option (Text × Text × ℕ)) (s : Option (Text × Text))
    (q : Option (Text × VersionQualifier × Text)) (p : Bool)
    → (simple_fields raw w s q p).raw ≡ raw
unfolding simple_fields
raw-simple_fields raw (some w) s q p = refl
raw-simple_fields raw none (some s) q p = refl
raw-simple_fields raw none none (some q) p = refl
raw-simple_fields raw none none none true = refl
raw-simple_fields raw none none none false = raw-fallback raw (before b'-' raw)

raw-parse_simple_fields : (raw : Text) → (parse_simple_fields raw).raw ≡ raw
unfolding parse_simple_fields
raw-parse_simple_fields raw = raw-simple_fields raw _ _ _ _

parse_segment-HoldsPlain : (r : SegmentRule) (raw : Text) → HoldsPlain (parse_segment r raw)
unfolding parse_segment
parse_segment-HoldsPlain r raw = ground arith

rule-parse_segment : (r : SegmentRule) (raw : Text) → rule (parse_segment r raw) ≡ r
unfolding parse_segment
rule-parse_segment r raw = ground arith

add_segment-HasForm :
    (r : SegmentRule) (o : Option Text) (rest : Segments)
    → HasForm (form rest) rest
    → HasForm (form (add_segment r o rest)) (add_segment r o rest)
unfolding add_segment form
add_segment-HasForm r none rest h = h
add_segment-HasForm r (some raw) rest h = (refl, parse_segment-HoldsPlain r raw, h)

parse_segments-HasForm :
    (groups : Map Text) (rules : List SegmentRule)
    → HasForm (form (parse_segments groups rules)) (parse_segments groups rules)
unfolding parse_segments form
parse_segments-HasForm groups [] = tt
parse_segments-HasForm groups (r ∷ rules) =
    add_segment-HasForm r (lookup r.name groups) _ (parse_segments-HasForm groups rules)

-- A version has a form if its segments match their rules.
abbrev IsFormed : ParsedVersion → Type 0
IsFormed v = HasForm (form (segments v)) (segments v)

on_match-IsFormed :
    (raw : Text) (i : ℕ) (v : VersionFormatVariant) (o : Option (Map Text)) (later : ParsedVersion)
    → IsFormed later
    → IsFormed (on_match raw i v o later)
unfolding on_match
on_match-IsFormed raw i v none later h = h
on_match-IsFormed raw i v (some groups) later h = parse_segments-HasForm groups v.segments

pub has_form :
    (v : ParsedVersion) (ps : List ParseAs)
    → form (segments v) ≡ ps
    → IsFormed v
    → HasForm ps (segments v)
has_form v ps e h = subst (λ f. HasForm f (segments v)) e h

module _ (compile : Text → Option Pattern) where
  parse_variants-IsFormed :
      (raw : Text) (i : ℕ) (variants : List VersionFormatVariant)
      → IsFormed (parse_variants compile raw i variants)
  unfolding parse_variants form
  parse_variants-IsFormed raw i [] = tt
  parse_variants-IsFormed raw i (v ∷ variants) =
      on_match-IsFormed raw i v (match_variant compile raw v)
        (parse_variants compile raw (suc i) variants) (parse_variants-IsFormed raw (suc i) variants)

  pub parse-IsFormed :
      (raw : Text) (schema : Option VersionSchema)
      → IsFormed (parse_version_with_schema compile raw schema)
  unfolding parse_version_with_schema form
  parse-IsFormed raw none = tt
  parse-IsFormed raw (some schema) = parse_variants-IsFormed raw 0 schema.variants

  -- Three texts that `ParseVersionWithSchema` gives the same sequence of segment kinds (none at all,
  -- for texts that no variant matches) are compared transitively, whatever the patterns match.
  pub parse-Coherent :
      (schema : Option VersionSchema) (a b c : Text)
      → form (segments (parse_version_with_schema compile b schema))
        ≡ form (segments (parse_version_with_schema compile a schema))
      → form (segments (parse_version_with_schema compile c schema))
        ≡ form (segments (parse_version_with_schema compile a schema))
      → Coherent
          (compare_versions
            (parse_version_with_schema compile a schema)
            (parse_version_with_schema compile b schema))
          (compare_versions
            (parse_version_with_schema compile b schema)
            (parse_version_with_schema compile c schema))
          (compare_versions
            (parse_version_with_schema compile a schema)
            (parse_version_with_schema compile c schema))
  parse-Coherent schema a b c eb ec =
      compare_versions-Coherent _ _ _ _ (parse-IsFormed a schema)
        (has_form (parse_version_with_schema compile b schema) _ eb (parse-IsFormed b schema))
        (has_form (parse_version_with_schema compile c schema) _ ec (parse-IsFormed c schema))
