-- ===== src/Domain/Json/Schemas.antt =====
-- The JSON of a version schema, by the struct tags of internal/domain/version_schema.go. A nil slice
-- is not told from an empty one.
use system_of_adownload.Prelude.{
  All, List, Option, Text, [], ap, codes, false, if◌then◌else◌, some, text_eq, ◌∷◌, ◌≡◌,
}
use system_of_adownload.Domain.Json.{
  Json, bool, string, array, object, end, member, is_key, omit_text, put_text, put_bool, put_list,
  and_then, set_list, read_members, read_struct, read_items, items_of, read_items-items_of,
}
use system_of_adownload.Domain.Version.{ParseAs, SegmentRule}
use system_of_adownload.Domain.Version.Schema.{VersionFormatVariant, VersionSchema}

-- The text of a `parse_as`, which the source keeps as it is.
abbrev pub text_of : ParseAs → Text
text_of ParseAs.minecraft = codes "minecraft"
text_of ParseAs.dotted = codes "dotted"
text_of ParseAs.integer = codes "integer"
text_of ParseAs.ignore = codes "ignore"
text_of (ParseAs.unknown t) = t

abbrev pub parse_as_of : Text → ParseAs
parse_as_of t =
    if text_eq t (codes "minecraft")
    then ParseAs.minecraft
    else if text_eq t (codes "dotted")
    then ParseAs.dotted
    else if text_eq t (codes "integer")
    then ParseAs.integer
    else if text_eq t (codes "ignore")
    then ParseAs.ignore
    else ParseAs.unknown t

-- `SegmentRule`
unfoldable pub marshal_rule : SegmentRule → Json
marshal_rule r = object (
    member (codes "name") (string r.name) (
      member (codes "parse_as") (string (text_of r.parse_as))
        (omit_text (codes "tag_key") r.tag_key end)))

unfoldable pub put_rule : Text → Json → SegmentRule → Option SegmentRule
put_rule k j r =
    if is_key (codes "name") k
    then put_text (λ t. record r { name = t }) r j
    else if is_key (codes "parse_as") k
    then put_text (λ t. record r { parse_as = parse_as_of t }) r j
    else if is_key (codes "tag_key") k
    then put_text (λ t. record r { tag_key = t }) r j
    else some r

unfoldable pub unmarshal_rule : Json → Option SegmentRule
unfolding put_rule read_members
unmarshal_rule =
    read_struct put_rule (record { name = []; parse_as = ParseAs.unknown []; tag_key = [] })

-- `VersionFormatVariant`
unfoldable pub marshal_variant : VersionFormatVariant → Json
unfolding marshal_rule items_of
marshal_variant v = object (
    member (codes "name") (string v.name) (
      member (codes "pattern") (string v.pattern)
        (member (codes "segments") (array (items_of marshal_rule v.segments)) end)))

unfoldable pub put_variant : Text → Json → VersionFormatVariant → Option VersionFormatVariant
unfolding unmarshal_rule read_items
put_variant k j v =
    if is_key (codes "name") k
    then put_text (λ t. record v { name = t }) v j
    else if is_key (codes "pattern") k
    then put_text (λ t. record v { pattern = t }) v j
    else if is_key (codes "segments") k
    then put_list unmarshal_rule (λ rs. record v { segments = rs }) v j
    else some v

unfoldable pub unmarshal_variant : Json → Option VersionFormatVariant
unfolding put_variant read_members
unmarshal_variant = read_struct put_variant (record { name = []; pattern = []; segments = [] })

-- `json.Marshal` of a `VersionSchema`
unfoldable pub marshal_schema : VersionSchema → Json
unfolding marshal_variant items_of
marshal_schema s = object (
    member (codes "use_mojang_manifest") (bool s.use_mojang_manifest)
      (member (codes "variants") (array (items_of marshal_variant s.variants)) end))

unfoldable pub put_schema : Text → Json → VersionSchema → Option VersionSchema
unfolding unmarshal_variant read_items
put_schema k j s =
    if is_key (codes "use_mojang_manifest") k
    then put_bool (λ b. record s { use_mojang_manifest = b }) s j
    else if is_key (codes "variants") k
    then put_list unmarshal_variant (λ vs. record s { variants = vs }) s j
    else some s

-- `json.Unmarshal` into an empty `VersionSchema`
unfoldable pub unmarshal_schema : Json → Option VersionSchema
unfolding put_schema read_members
unmarshal_schema = read_struct put_schema (record { use_mojang_manifest = false; variants = [] })

-- An unknown `parse_as` is none of the four known ones.
abbrev pub IsCanonical : SegmentRule → Type 0
IsCanonical r = parse_as_of (text_of r.parse_as) ≡ r.parse_as

abbrev pub AreCanonical : VersionSchema → Type 0
AreCanonical s = All (λ v. All IsCanonical v.segments) s.variants

rule-back :
    (n t : Text) (p : ParseAs)
    → parse_as_of (text_of p) ≡ p
    → unmarshal_rule (marshal_rule (record { name = n; parse_as = p; tag_key = t }))
      ≡ some (record { name = n; parse_as = p; tag_key = t })
unfolding unmarshal_rule marshal_rule put_rule read_members
rule-back n [] p h = ap (λ p. some (record { name = n; parse_as = p; tag_key = [] })) h
rule-back n (c ∷ t) p h = ap (λ p. some (record { name = n; parse_as = p; tag_key = c ∷ t })) h

rules-back :
    (rules : List SegmentRule)
    → All IsCanonical rules
    → All (λ r. unmarshal_rule (marshal_rule r) ≡ some r) rules
rules-back [] h = tt
rules-back (r ∷ rules) (h, hs) = (rule-back r.name r.tag_key r.parse_as h, rules-back rules hs)

variant-back :
    (v : VersionFormatVariant)
    → All IsCanonical v.segments
    → unmarshal_variant (marshal_variant v) ≡ some v
unfolding unmarshal_variant marshal_variant put_variant read_members
variant-back v h =
    ap (λ o. and_then (set_list (λ rs. record v { segments = rs }) o) (λ w. some w))
      (read_items-items_of unmarshal_rule marshal_rule v.segments (rules-back v.segments h))

variants-back :
    (variants : List VersionFormatVariant)
    → All (λ v. All IsCanonical v.segments) variants
    → All (λ v. unmarshal_variant (marshal_variant v) ≡ some v) variants
variants-back [] h = tt
variants-back (v ∷ variants) (h, hs) = (variant-back v h, variants-back variants hs)

-- Unmarshalling what was marshalled gives the schema back.
pub unmarshal_schema-marshal_schema :
    (s : VersionSchema) → AreCanonical s → unmarshal_schema (marshal_schema s) ≡ some s
unfolding unmarshal_schema marshal_schema put_schema read_members
unmarshal_schema-marshal_schema s h =
    ap (λ o. and_then (set_list (λ vs. record s { variants = vs }) o) (λ t. some t))
      (read_items-items_of unmarshal_variant marshal_variant s.variants
        (variants-back s.variants h))
