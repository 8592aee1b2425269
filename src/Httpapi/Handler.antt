-- ===== src/Httpapi/Handler.antt =====
-- The handlers of groups, artifacts and schemas in internal/httpapi/handler.go. The bodies of the
-- answers have the fields of the service's values.
pub mod Laws
use system_of_adownload.App.Service
use system_of_adownload.Prelude.{Bool, List, Option, Text, if◌then◌else◌, none, some, ℕ}
use system_of_adownload.App.Service.{Group, Artifact}
use system_of_adownload.Db.Models.{Store}
use system_of_adownload.Db.Tx.{
  Error, group_not_found, artifact_already_exists, artifact_not_found, schema_not_found,
  invalid_schema, Result, ok, err, ◌>>=◌, pure, Faults,
}
use system_of_adownload.Domain.Version.Schema.{VersionSchema}
use system_of_adownload.Httpapi.Schedules.{ScheduleOptions, create_dual_schedules}
use system_of_adownload.Httpapi.Schema.{ApiSchema, domain_schema_to_api, api_schema_to_domain}
use system_of_adownload.Httpapi.Versions.{
  Response, answered, bad_request, conflict, missing, passed_on,
}

-- `RegisterArtifact201JSONResponse` and its like: the artifact; its tags are empty.
pub record ArtifactResponse : Type 0 where
  pub group_id : Text
  pub artifact_id : Text
  pub display_name : Text
  pub git_repository : Option (List Text)
  pub website : Option Text
  pub issues : Option Text

-- The body of `RegisterArtifact`.
pub record ArtifactBody : Type 0 where
  pub artifact_id : Text
  pub display_name : Text
  pub git_repository : Option (List Text)
  pub website : Option Text
  pub issues : Option Text

-- The body of `UpdateArtifact`: of the repositories, a nil slice counts as left out.
record UpdateBody : Type 0 where
  pub display_name : Option Text
  pub website : Option Text
  pub issues : Option Text
  pub git_repository : Option (List Text)

-- The errors of the service that a handler knows, as its answers; it passes the others on.
abbrev pub answer {ℓ} : {A : Type ℓ} → (Error → Response A) → Result A × Store → Response A × Store
answer handle (ok a, s) = (answered a, s)
answer handle (err e, s) = (handle e, s)

abbrev group_errors {ℓ} : {A : Type ℓ} → Error → Response A
group_errors group_not_found = missing
group_errors e = passed_on e

abbrev pub register_errors {ℓ} : {A : Type ℓ} → Error → Response A
register_errors group_not_found = missing
register_errors artifact_already_exists = conflict
register_errors e = passed_on e

abbrev pub schema_errors {ℓ} : {A : Type ℓ} → Error → Response A
schema_errors artifact_not_found = missing
schema_errors schema_not_found = missing
schema_errors e = passed_on e

abbrev pub put_schema_errors {ℓ} : {A : Type ℓ} → Error → Response A
put_schema_errors artifact_not_found = missing
put_schema_errors invalid_schema = bad_request
put_schema_errors e = passed_on e

abbrev pub artifact_errors {ℓ} : {A : Type ℓ} → Error → Response A
artifact_errors artifact_not_found = missing
artifact_errors e = passed_on e

abbrev pub body_artifact : Text → ArtifactBody → Artifact
body_artifact group b = record {
  group_id = group;
  artifact_id = b.artifact_id;
  display_name = b.display_name;
  website = b.website;
  git_repositories = b.git_repository;
  issues = b.issues;
}

abbrev pub artifact_response : Artifact → ArtifactResponse
artifact_response a = record {
  group_id = a.group_id;
  artifact_id = a.artifact_id;
  display_name = a.display_name;
  git_repository = a.git_repositories;
  website = a.website;
  issues = a.issues;
}

module _ (fails : Faults) where
  -- `GetGroups`
  unfoldable get_groups : Store → Response (List Group) × Store
  unfolding Service.list_groups
  get_groups s = answer passed_on (Service.list_groups fails s)

  -- `GetGroup`
  unfoldable get_group_handler : Text → Store → Response Group × Store
  unfolding Service.get_group
  get_group_handler group s = answer group_errors (Service.get_group fails group s)

  -- `RegisterGroup`: the error of a group that is there is passed on.
  unfoldable register_group_handler : (Text → Text) → Group → Store → Response Group × Store
  unfolding Service.register_group
  register_group_handler fold g s =
      answer passed_on ((Service.register_group fails fold g >>= (λ _. pure g)) s)

  -- `GetArtifacts`
  unfoldable get_artifacts : Text → Store → Response (List Text) × Store
  unfolding Service.list_artifacts
  get_artifacts group s = answer passed_on (Service.list_artifacts fails group s)

  -- The end of `RegisterArtifact`: the schedules of an artifact that has been registered.
  abbrev pub schedule_registered :
      Bool
      → (ℕ → Bool)
      → Text
      → Text
      → Response ArtifactResponse × Store
      → List ScheduleOptions
      → Response ArtifactResponse × Store × List ScheduleOptions
  schedule_registered has_client broken_calls group artifact (answered a, s) schedules = (
    answered a,
    s,
    if has_client then create_dual_schedules broken_calls group artifact schedules else schedules,
  )
  schedule_registered has_client broken_calls group artifact (r, s) schedules = (r, s, schedules)

  -- `RegisterArtifact`, with whether there is a schedule client, and the schedules that there are.
  unfoldable pub register_artifact_handler :
      Bool
      → (ℕ → Bool)
      → Text
      → Option ArtifactBody
      → Store
      → List ScheduleOptions
      → Response ArtifactResponse × Store × List ScheduleOptions
  unfolding Service.register_artifact create_dual_schedules
  register_artifact_handler has_client broken_calls group none s schedules =
      (bad_request, s, schedules)
  register_artifact_handler has_client broken_calls group (some b) s schedules =
      schedule_registered has_client broken_calls group b.artifact_id
        (answer register_errors (
          (Service.register_artifact fails (body_artifact group b)
              >>= (λ _. pure (artifact_response (body_artifact group b))))
            s))
        schedules

  -- `GetArtifactSchema`
  unfoldable pub get_artifact_schema : Text → Text → Store → Response ApiSchema × Store
  unfolding Service.get_version_schema domain_schema_to_api
  get_artifact_schema group artifact s = answer schema_errors (
      (Service.get_version_schema fails group artifact
          >>= (λ schema. pure (domain_schema_to_api schema)))
        s)

  -- `PutArtifactSchema`, up to the ordering workflow that it starts (Orderings).
  unfoldable pub put_artifact_schema :
      (VersionSchema → Bool) → Text → Text → Option ApiSchema → Store → Response ApiSchema × Store
  unfolding Service.update_version_schema api_schema_to_domain domain_schema_to_api
  put_artifact_schema is_valid group artifact none s = (bad_request, s)
  put_artifact_schema is_valid group artifact (some body) s =
      let schema = api_schema_to_domain body in
      answer put_schema_errors (
        (Service.update_version_schema fails is_valid group artifact schema
            >>= (λ _. pure (domain_schema_to_api schema)))
          s)

  -- `UpdateArtifact`: a request without a body is not found.
  unfoldable update_artifact_handler :
      Text → Text → Option UpdateBody → Store → Response ArtifactResponse × Store
  unfolding Service.update_artifact
  update_artifact_handler group artifact none s = (missing, s)
  update_artifact_handler group artifact (some b) s = answer artifact_errors (
      (Service.update_artifact fails group artifact (record {
        display_name = b.display_name;
        website = b.website;
        issues = b.issues;
        git_repositories = b.git_repository;
      })
          >>= (λ a. pure (artifact_response a)))
        s)
