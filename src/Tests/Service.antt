-- ===== src/Tests/Service.antt =====
-- internal/app on a store with one group and one artifact.
use system_of_adownload.Prelude.{
  All, Text, [], codes, false, lower, map, none, refl, some, true, ◌∷◌, ◌≡◌,
}
use system_of_adownload.App.Schema.{validate_schema}
use system_of_adownload.App.Schema.Laws.{HasGroups, validate_schema_lem}
use system_of_adownload.App.Service.{
  Group, register_group, update_version_schema, get_version_schema,
}
use system_of_adownload.App.Service.Consistent.{write_group, IsConsistent, run}
use system_of_adownload.App.Service.Keeps.{run-IsConsistent}
use system_of_adownload.App.Service.Reads.{get_version_schema-update_version_schema}
use system_of_adownload.Db.Models.{GroupRow, ArtifactRow, Store}
use system_of_adownload.Db.Tx.{group_already_exists, ok, err, Faults, with_tx}
use system_of_adownload.Domain.Json.Schemas.{marshal_schema, AreCanonical}
use system_of_adownload.Domain.Version.Schema.{validate}
use system_of_adownload.Httpapi.Schema.{domain_schema_to_api, api_schema_to_domain}
use system_of_adownload.Httpapi.Schema.RoundTrip.{api_schema_to_domain-domain_schema_to_api}
use system_of_adownload.Prelude.Rows.{find, any, update}
use system_of_adownload.Tests.Versions.{sponge_compile, sponge_schema}

abbrev sponge_group : Group
sponge_group = record {
  group_id = codes "org.spongepowered";
  name = codes "Sponge";
  website = none;
}

abbrev pub no_faults : Faults
no_faults _ _ = false

-- LOWER on ASCII.
abbrev ascii_lower : Text → Text
ascii_lower t = map lower t

abbrev empty_store : Store
empty_store = record {
  groups = [];
  artifacts = [];
  versions = [];
  tags = [];
  assets = [];
  next_artifact = 1;
  next_version = 1;
  next_asset = 1;
}

abbrev pub vanilla_row : ArtifactRow
vanilla_row = record {
  id = 1;
  group_id = codes "org.spongepowered";
  artifact_id = codes "spongevanilla";
  name = codes "SpongeVanilla";
  website = none;
  issues = none;
  git_repositories = none;
  version_schema = none;
}

abbrev sponge_row : GroupRow
sponge_row = record { maven_id = codes "org.spongepowered"; name = codes "Sponge"; website = none }

abbrev pub vanilla : Store
vanilla = record empty_store {
  groups = sponge_row ∷ [];
  artifacts = vanilla_row ∷ [];
  next_artifact = 2;
}

abbrev with_group : Store
with_group = record empty_store { groups = sponge_row ∷ [] }

abbrev shouting : Group
shouting = record { group_id = codes "ORG.SPONGEPOWERED"; name = []; website = none }

-- The group ids differ in case only.
registered_twice :
    register_group no_faults ascii_lower shouting with_group
    ≡ (err group_already_exists, with_group)
unfolding register_group with_tx any
registered_twice = refl

run-IsConsistent_example :
    IsConsistent ascii_lower
      (run ascii_lower no_faults (λ _. true) (write_group sponge_group) empty_store).1
run-IsConsistent_example =
    run-IsConsistent ascii_lower no_faults (λ _. true) (write_group sponge_group) empty_store
      (tt, tt, tt)

abbrev with_sponge_schema : Store
with_sponge_schema = record vanilla {
  artifacts = record vanilla_row { version_schema = some (marshal_schema sponge_schema) } ∷ [];
}

sponge-AreCanonical : AreCanonical sponge_schema
sponge-AreCanonical = ((refl, (refl, tt)), tt)

get_version_schema-update_version_schema_example :
    get_version_schema no_faults
      (codes "org.spongepowered")
      (codes "spongevanilla")
      with_sponge_schema
    ≡ (ok sponge_schema, with_sponge_schema)
unfolding update_version_schema find with_tx update
get_version_schema-update_version_schema_example =
    get_version_schema-update_version_schema no_faults (λ _. true) (codes "org.spongepowered")
      (codes "spongevanilla") sponge_schema vanilla with_sponge_schema sponge-AreCanonical refl refl

validate_schema_lem_example :
    (validate sponge_compile sponge_schema ≡ none)
    × All (HasGroups sponge_compile) sponge_schema.variants
unfolding validate_schema
validate_schema_lem_example = validate_schema_lem sponge_compile sponge_schema refl

api_schema_to_domain-domain_schema_to_api_example :
    api_schema_to_domain (domain_schema_to_api sponge_schema) ≡ sponge_schema
api_schema_to_domain-domain_schema_to_api_example =
    api_schema_to_domain-domain_schema_to_api sponge_schema
