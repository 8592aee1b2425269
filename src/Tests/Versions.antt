-- ===== src/Tests/Versions.antt =====
-- internal/domain on the versions of its own tests.
use system_of_adownload.Prelude.{
  All, Option, Ordering, String, Text, [], atoi, codes, if◌then◌else◌, max_int, none, pos, refl,
  some, text_eq, true, ◌↔◌, ◌∷◌, ◌≡◌,
}
use system_of_adownload.Domain.Version.{VersionQualifier, ParseAs, ParsedVersion}
use system_of_adownload.Domain.Version.Compare.{flip, compare_versions}
use system_of_adownload.Domain.Version.Compare.Flip.{compare_versions-flip}
use system_of_adownload.Domain.Version.Compare.Order.{Coherent}
use system_of_adownload.Domain.Version.Parse.{parse_simple_fields, parse_simple_version}
use system_of_adownload.Domain.Version.Schema.{
  Pattern, VersionSchema, parse_version_with_schema, validate,
}
use system_of_adownload.Domain.Version.Schema.Form.{form, parse-Coherent}
use system_of_adownload.Domain.Version.Schema.Tags.{IsValidVariant, validate_iff}
use system_of_adownload.Prelude.Map.{lookup, insert}

weekly_parse :
    (parse_simple_fields (codes "25w45a")).weekly
    ≡ some (record { year = pos 25; week = pos 45; build = b'a' })
unfolding parse_simple_fields
weekly_parse = refl

rc_parse : (parse_simple_fields (codes "1.21.10-RC.2")).qualifier ≡ VersionQualifier.rc
unfolding parse_simple_fields
rc_parse = refl

snapshot_parse : (parse_simple_fields (codes "26.1-snapshot-6")).qualifier_num ≡ pos 6
unfolding parse_simple_fields
snapshot_parse = refl

-- A part that does not fit an `int` is left out.
overflow_parse :
    (parse_simple_fields (codes "1.99999999999999999999.2")).primary ≡ pos 1 ∷ pos 2 ∷ []
unfolding parse_simple_fields
overflow_parse = refl

atoi_bounds :
    ((atoi (codes "-9223372036854775808")).valid ≡ true)
    × ((atoi (codes "9223372036854775808")).value ≡ max_int)
    × ((atoi (codes "+7")).value ≡ pos 7)
unfolding atoi
atoi_bounds = (refl, refl, refl)

abbrev plain : String → ParsedVersion
plain s = parse_simple_version (codes s)

rc_before_release : compare_versions (plain "1.21-rc1") (plain "1.21") ≡ Ordering.lt
unfolding compare_versions parse_simple_fields
rc_before_release = refl

compare_versions-flip_example :
    compare_versions (plain "1.21") (plain "1.21-rc1")
    ≡ flip (compare_versions (plain "1.21-rc1") (plain "1.21"))
compare_versions-flip_example = compare_versions-flip (plain "1.21-rc1") (plain "1.21")

-- A pattern for `<minecraft>-<integer>`, on two texts.
abbrev sponge_pattern : Pattern
sponge_pattern = record {
  subexp_names = [] ∷ codes "minecraft" ∷ codes "api" ∷ [];
  find_submatch = λ t.
      if text_eq t (codes "1.12-7")
      then some (t ∷ codes "1.12" ∷ codes "7" ∷ [])
      else if text_eq t (codes "1.12-8")
      then some (t ∷ codes "1.12" ∷ codes "8" ∷ [])
      else none;
}

abbrev pub sponge_compile : Text → Option Pattern
sponge_compile p = if text_eq p (codes "sponge") then some sponge_pattern else none

abbrev pub sponge_schema : VersionSchema
sponge_schema = record {
  use_mojang_manifest = true;
  variants =
      record {
        name = codes "current";
        pattern = codes "sponge";
        segments =
            record {
              name = codes "minecraft";
              parse_as = ParseAs.minecraft;
              tag_key = codes "minecraft";
            }
            ∷ record { name = codes "api"; parse_as = ParseAs.integer; tag_key = codes "api" }
            ∷ [];
      }
      ∷ [];
}

abbrev sponge : String → ParsedVersion
sponge s = parse_version_with_schema sponge_compile (codes s) (some sponge_schema)

parse-Coherent_example :
    Coherent
      (compare_versions (sponge "1.12-7") (sponge "1.12-8"))
      (compare_versions (sponge "1.12-8") (sponge "1.12-8"))
      (compare_versions (sponge "1.12-7") (sponge "1.12-8"))
unfolding form parse_version_with_schema insert lookup
parse-Coherent_example =
    parse-Coherent sponge_compile (some sponge_schema) (codes "1.12-7") (codes "1.12-8")
      (codes "1.12-8") refl refl

validate_iff_example :
    (validate sponge_compile sponge_schema ≡ none)
    ↔ All (IsValidVariant sponge_compile) sponge_schema.variants
validate_iff_example = validate_iff sponge_compile sponge_schema
