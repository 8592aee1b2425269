-- ===== src/Httpapi/Schema/RoundTrip.antt =====
-- A schema through the API and back.
use system_of_adownload.Prelude.{
  List, Text, [], ap, if◌then◌else◌, is_empty, map, none, refl, some, ◌∷◌, ◌≡◌,
}
use system_of_adownload.Domain.Version.{SegmentRule}
use system_of_adownload.Domain.Version.Schema.{VersionFormatVariant, VersionSchema}
use system_of_adownload.Httpapi.Schema.{
  segment_to_api, variant_to_api, domain_schema_to_api, or_default, segment_to_domain,
  variant_to_domain, api_schema_to_domain,
}

map_inverse {ℓ κ} :
    {A : Type ℓ} {B : Type κ} (f : A → B) (g : B → A)
    → ((a : A) → g (f a) ≡ a)
    → (xs : List A) → map g (map f xs) ≡ xs
map_inverse f g h [] = refl
map_inverse f g h (x ∷ xs) = rw (h x, map_inverse f g h xs) refl

key_back : (k : Text) → or_default (if is_empty k then none else some k) [] ≡ k
key_back [] = refl
key_back (c ∷ k) = refl

segment_back : (r : SegmentRule) → segment_to_domain (segment_to_api r) ≡ r
segment_back r =
    ap (λ k. record { name = r.name; parse_as = r.parse_as; tag_key = k }) (key_back r.tag_key)

variant_back : (v : VersionFormatVariant) → variant_to_domain (variant_to_api v) ≡ v
variant_back v =
    ap (λ segments. record { name = v.name; pattern = v.pattern; segments = segments })
      (map_inverse segment_to_api segment_to_domain segment_back v.segments)

-- A schema that the API shows is the one that it stores when it is sent back.
pub api_schema_to_domain-domain_schema_to_api :
    (schema : VersionSchema) → api_schema_to_domain (domain_schema_to_api schema) ≡ schema
unfolding api_schema_to_domain domain_schema_to_api
api_schema_to_domain-domain_schema_to_api schema =
    ap
      (λ variants. record { use_mojang_manifest = schema.use_mojang_manifest; variants = variants })
      (map_inverse variant_to_api variant_to_domain variant_back schema.variants)
