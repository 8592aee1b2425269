-- ===== src/Db/Registry.antt =====
-- The queries on groups and artifacts of internal/db/query.sql.go. A list without ORDER BY is in
-- the order of insertion, which is one that Postgres may choose. `fold` is Postgres's LOWER, which
-- depends on the locale.
use mathlib.Core.Option
use system_of_adownload.Prelude.{
  Bool, List, Option, Text, [], codes, if◌then◌else◌, none, some, suc, text_eq, ℕ, ◌&&◌, ◌++◌, ◌∷◌,
}
use system_of_adownload.Db.Models.{GroupRow, ArtifactRow}
use system_of_adownload.Db.Tx.{no_rows, other, ok, err, Db, pure, raise, Faults, ask}
use system_of_adownload.Domain.Json.{Json}
use system_of_adownload.Prelude.Rows.{find, any, select, update}

-- `$1 = maven_id`
abbrev pub has_maven_id : Text → GroupRow → Bool
has_maven_id id g = text_eq g.maven_id id

-- `group_id = $1 AND artifact_id = $2`
abbrev pub is_artifact : Text → Text → ArtifactRow → Bool
is_artifact group artifact a = text_eq a.group_id group && text_eq a.artifact_id artifact

-- The row of a `:one` query.
abbrev pub one {ℓ} : {A : Type ℓ} → Option A → Db A
one none = raise no_rows
one (some a) = pure a

-- COALESCE
abbrev coalesce {ℓ} : {A : Type ℓ} → Option A → A → A
coalesce none a = a
coalesce (some b) a = b

abbrev coalesce_null {ℓ} : {A : Type ℓ} → Option A → Option A → Option A
coalesce_null none a = a
coalesce_null (some b) a = some b

-- INSERT ... ON CONFLICT DO UPDATE on a key: the rows with the key are updated, and a new row is
-- added if there is none.
unfoldable pub upsert {ℓ} : {A : Type ℓ} → (A → Bool) → (A → A) → A → List A → List A
unfolding any update
upsert p f a rows = if any p rows then update p f rows else rows ++ a ∷ []

-- `CreateArtifactParams`
pub record CreateArtifactParams : Type 0 where
  pub group_id : Text
  pub artifact_id : Text
  pub name : Text
  pub website : Option Text
  pub issues : Option Text
  pub git_repositories : Option (List Text)
  pub version_schema : Option Json

-- `UpdateArtifactFieldsParams`: `none` is a nil pointer, or the nil bytes of `git_repositories`.
pub record UpdateArtifactFieldsParams : Type 0 where
  pub group_id : Text
  pub artifact_id : Text
  pub name : Option Text
  pub website : Option Text
  pub issues : Option Text
  pub git_repositories : Option (Option (List Text))

-- The SET lists of the three statements that write artifacts.
abbrev replaced : CreateArtifactParams → ArtifactRow → ArtifactRow
replaced p a = record a {
  name = p.name;
  website = p.website;
  issues = p.issues;
  git_repositories = p.git_repositories;
  version_schema = p.version_schema;
}

abbrev pub new_artifact : CreateArtifactParams → ℕ → ArtifactRow
new_artifact p i = record {
  id = i;
  group_id = p.group_id;
  artifact_id = p.artifact_id;
  name = p.name;
  website = p.website;
  issues = p.issues;
  git_repositories = p.git_repositories;
  version_schema = p.version_schema;
}

abbrev pub with_fields : UpdateArtifactFieldsParams → ArtifactRow → ArtifactRow
with_fields p a = record a {
  name = coalesce p.name a.name;
  website = coalesce_null p.website a.website;
  issues = coalesce_null p.issues a.issues;
  git_repositories = coalesce p.git_repositories a.git_repositories;
}

abbrev pub with_schema : Option Json → ArtifactRow → ArtifactRow
with_schema schema a = record a { version_schema = schema }

-- `LOWER(maven_id) = LOWER($1)`
abbrev pub folds_to : (Text → Text) → Text → GroupRow → Bool
folds_to fold id g = text_eq (fold g.maven_id) (fold id)

module _ (fails : Faults) where
  abbrev pub get_group : Text → Db GroupRow
  get_group id = ask fails (codes "GetGroup") 0 (λ s. one (find (has_maven_id id) s.groups) s)

  abbrev pub group_exists_by_maven_id : (Text → Text) → Text → Db Bool
  group_exists_by_maven_id fold id =
      ask fails (codes "GroupExistsByMavenID") 0 (λ s. pure (any (folds_to fold id) s.groups) s)

  abbrev pub list_groups : Db (List GroupRow)
  list_groups = ask fails (codes "ListGroups") 0 (λ s. pure s.groups s)

  abbrev pub create_group : GroupRow → Db GroupRow
  create_group g = ask fails (codes "CreateGroup") 0 (λ s. (
    ok g,
    record s {
      groups =
          upsert (has_maven_id g.maven_id)
            (λ old. record old { name = g.name; website = g.website }) g s.groups;
    },
  ))

  abbrev pub list_artifacts_by_group : Text → Db (List ArtifactRow)
  list_artifacts_by_group group =
      ask fails (codes "ListArtifactsByGroup") 0
        (λ s. pure (select (λ a. text_eq a.group_id group) s.artifacts) s)

  abbrev pub get_artifact_by_group_and_id : Text → Text → Db ArtifactRow
  get_artifact_by_group_and_id group artifact =
      ask fails (codes "GetArtifactByGroupAndId") 0
        (λ s. one (find (is_artifact group artifact) s.artifacts) s)

  abbrev pub get_artifact_version_schema : Text → Text → Db (Option Json)
  get_artifact_version_schema group artifact = ask fails (codes "GetArtifactVersionSchema") 0 (λ s.
      one (Option.map (λ a. a.version_schema) (find (is_artifact group artifact) s.artifacts)) s)

  -- The foreign key on the group is checked; a serial id is taken even where the row exists.
  abbrev pub create_artifact : CreateArtifactParams → Db (Unit {0})
  create_artifact p = ask fails (codes "CreateArtifact") 0 (λ s.
      if any (has_maven_id p.group_id) s.groups
      then (
        ok tt,
        record s {
          artifacts =
              upsert (is_artifact p.group_id p.artifact_id) (replaced p)
                (new_artifact p s.next_artifact) s.artifacts;
          next_artifact = suc s.next_artifact;
        },
      )
      else (err other, s))

  -- RETURNING gives the row as it is then.
  abbrev pub update_artifact_fields : UpdateArtifactFieldsParams → Db ArtifactRow
  update_artifact_fields p = ask fails (codes "UpdateArtifactFields") 0 (λ s.
      one
        (find (is_artifact p.group_id p.artifact_id)
          (update (is_artifact p.group_id p.artifact_id) (with_fields p) s.artifacts))
        (record s {
          artifacts = update (is_artifact p.group_id p.artifact_id) (with_fields p) s.artifacts;
        }))

  -- `:exec`: no row is no error.
  abbrev pub update_artifact_version_schema : Text → Text → Option Json → Db (Unit {0})
  update_artifact_version_schema group artifact schema =
      ask fails (codes "UpdateArtifactVersionSchema") 0 (λ s. (
        ok tt,
        record s {
          artifacts = update (is_artifact group artifact) (with_schema schema) s.artifacts;
        },
      ))
