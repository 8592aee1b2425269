-- ===== src/App/Service.antt =====
-- internal/app/service.go: groups, artifacts and schemas. A Go pointer that may be nil is an
-- `Option`, and so is a slice whose nil differs from an empty one.
pub mod Consistent
pub mod Keeps
pub mod Reads
use mathlib.Core.Option
use system_of_adownload.Db.Registry
use system_of_adownload.Prelude.{Bool, List, Option, Text, [], if◌then◌else◌, map, none, some}
use system_of_adownload.Db.Models.{GroupRow, ArtifactRow, Store}
use system_of_adownload.Db.Registry.{CreateArtifactParams, UpdateArtifactFieldsParams}
use system_of_adownload.Db.Tx.{
  Error, no_rows, group_already_exists, group_not_found, artifact_already_exists,
  artifact_not_found, schema_not_found, invalid_schema, other, Result, ok, err, Db, ◌>>=◌, pure,
  raise, attempt, Faults, with_tx,
}
use system_of_adownload.Domain.Json.{Json}
use system_of_adownload.Domain.Json.Schemas.{marshal_schema, unmarshal_schema}
use system_of_adownload.Domain.Version.Schema.{VersionSchema}

-- `domain.Group`
pub record Group : Type 0 where
  pub group_id : Text
  pub name : Text
  pub website : Option Text

-- `domain.Artifact`
pub record Artifact : Type 0 where
  pub group_id : Text
  pub artifact_id : Text
  pub display_name : Text
  pub website : Option Text
  pub git_repositories : Option (List Text)
  pub issues : Option Text

-- `UpdateArtifactInput`
pub record UpdateArtifactInput : Type 0 where
  pub display_name : Option Text
  pub website : Option Text
  pub issues : Option Text
  pub git_repositories : Option (List Text)

abbrev pub domain_group : GroupRow → Group
domain_group g = record { group_id = g.maven_id; name = g.name; website = g.website }

abbrev pub group_row : Group → GroupRow
group_row g = record { maven_id = g.group_id; name = g.name; website = g.website }

abbrev pub domain_artifact : ArtifactRow → Artifact
domain_artifact a = record {
  group_id = a.group_id;
  artifact_id = a.artifact_id;
  display_name = a.name;
  website = a.website;
  git_repositories = a.git_repositories;
  issues = a.issues;
}

-- `if errors.Is(err, pgx.ErrNoRows)`
abbrev pub not_found : Error → Error → Error
not_found e no_rows = e
not_found e e' = e'

abbrev renamed {ℓ} : {A : Type ℓ} → Error → Result A × Store → Result A × Store
renamed e (ok a, s) = (ok a, s)
renamed e (err e', s) = (err (not_found e e'), s)

abbrev pub or_not_found {ℓ} : {A : Type ℓ} → Error → Db A → Db A
or_not_found e m s = renamed e (m s)

abbrev pub create_params : Artifact → CreateArtifactParams
create_params a = record {
  group_id = a.group_id;
  artifact_id = a.artifact_id;
  name = a.display_name;
  website = a.website;
  issues = a.issues;
  git_repositories = a.git_repositories;
  version_schema = none;
}

-- The bytes of a nil slice of repositories stay nil.
abbrev pub update_params : Text → Text → UpdateArtifactInput → UpdateArtifactFieldsParams
update_params group artifact i = record {
  group_id = group;
  artifact_id = artifact;
  name = i.display_name;
  website = i.website;
  issues = i.issues;
  git_repositories = Option.map some i.git_repositories;
}

-- The three ways on after the lookup of `RegisterArtifact`.
abbrev create_missing {ℓ} : {A : Type ℓ} → Db (Unit {0}) → Result A → Db (Unit {0})
create_missing create (ok a) = raise artifact_already_exists
create_missing create (err no_rows) = create
create_missing create (err e) = raise e

-- JSON that does not unmarshal is an error.
abbrev or_other {ℓ} : {A : Type ℓ} → Option A → Db A
or_other none = raise other
or_other (some a) = pure a

-- `schemaBytes == nil`, and `json.Unmarshal` of the bytes
abbrev or_no_schema : Option Json → Db VersionSchema
or_no_schema none = raise schema_not_found
or_no_schema (some j) = or_other (unmarshal_schema j)

module _ (fails : Faults) where
  -- `GetGroup`
  unfoldable pub get_group : Text → Db Group
  get_group id = do
    g ← or_not_found group_not_found (Registry.get_group fails id)
    pure (domain_group g)

  -- `ListGroups`
  unfoldable pub list_groups : Db (List Group)
  list_groups = do groups ← Registry.list_groups fails; pure (map domain_group groups)

  -- `RegisterGroup`
  unfoldable pub register_group : (Text → Text) → Group → Db (Unit {0})
  register_group fold group = with_tx fails (do
    exists ← Registry.group_exists_by_maven_id fails fold group.group_id
    if exists
        then raise group_already_exists
        else (do _ ← Registry.create_group fails (group_row group); pure tt))

  -- `ListArtifacts`
  unfoldable pub list_artifacts : Text → Db (List Text)
  list_artifacts group = do
    artifacts ← Registry.list_artifacts_by_group fails group
    pure (map (λ a. a.artifact_id) artifacts)

  -- `RegisterArtifact`
  unfoldable pub register_artifact : Artifact → Db (Unit {0})
  register_artifact a = with_tx fails (do
    _ ← or_not_found group_not_found (Registry.get_group fails a.group_id)
    found ← attempt (Registry.get_artifact_by_group_and_id fails a.group_id a.artifact_id)
    create_missing (Registry.create_artifact fails (create_params a)) found)

  -- `UpdateArtifact`: the repositories of the result may be nil.
  unfoldable pub update_artifact : Text → Text → UpdateArtifactInput → Db Artifact
  update_artifact group artifact input = do
    updated ←
        or_not_found artifact_not_found (
          with_tx fails
            (Registry.update_artifact_fields fails (update_params group artifact input)))
    pure (domain_artifact updated)

  -- `UpdateVersionSchema`, behind the verdict of `ValidateSchema`.
  unfoldable pub update_version_schema :
      (VersionSchema → Bool) → Text → Text → VersionSchema → Db (Unit {0})
  update_version_schema is_valid group artifact schema =
      if is_valid schema
      then (do
        _ ←
            or_not_found artifact_not_found
              (Registry.get_artifact_by_group_and_id fails group artifact)
        with_tx fails (
            Registry.update_artifact_version_schema fails group artifact
              (some (marshal_schema schema))))
      else raise invalid_schema

  -- `GetVersionSchema`
  unfoldable pub get_version_schema : Text → Text → Db VersionSchema
  get_version_schema group artifact = do
    schema ←
        or_not_found artifact_not_found (Registry.get_artifact_version_schema fails group artifact)
    or_no_schema schema
