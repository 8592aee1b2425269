-- ===== src/App/Service/Consistent.antt =====
-- What the writes of the service keep: the keys of the tables.
use system_of_adownload.Prelude.{All, Bool, Text, text_eq, true, ◌≡◌}
use system_of_adownload.App.Service.{
  Group, Artifact, UpdateArtifactInput, register_group, register_artifact, update_artifact,
  update_version_schema,
}
use system_of_adownload.Db.Models.{GroupRow, ArtifactRow, Store}
use system_of_adownload.Db.Registry.{has_maven_id, is_artifact}
use system_of_adownload.Db.Tx.{Result, ok, err, Db, Faults}
use system_of_adownload.Domain.Version.Schema.{VersionSchema}
use system_of_adownload.Prelude.Rows.{any, IsUnique}

-- The four operations of the service that write.
pub data Write : Type 0 where
  write_group : Group → Write
  write_artifact : Artifact → Write
  write_fields : Text → Text → UpdateArtifactInput → Write
  write_schema : Text → Text → VersionSchema → Write

-- The result of an operation, as far as it is an error.
abbrev pub outcome {ℓ} : {A : Type ℓ} → Result A × Store → Result (Unit {0}) × Store
outcome (ok a, s) = (ok tt, s)
outcome (err e, s) = (err e, s)

abbrev pub same_group : (Text → Text) → GroupRow → GroupRow → Bool
same_group fold a b = text_eq (fold a.maven_id) (fold b.maven_id)

abbrev pub same_artifact : ArtifactRow → ArtifactRow → Bool
same_artifact a b = is_artifact b.group_id b.artifact_id a

-- No two groups have the same id up to case, no two artifacts the same coordinates, and the group
-- of each artifact exists.
abbrev pub IsConsistent : (Text → Text) → Store → Type 0
IsConsistent fold s =
    IsUnique (same_group fold) s.groups
    × IsUnique same_artifact s.artifacts
    × All (λ a. any (has_maven_id a.group_id) s.groups ≡ true) s.artifacts

module _ (fold : Text → Text) (fails : Faults) (is_valid : VersionSchema → Bool) where
  unfoldable pub run : Write → Db (Unit {0})
  run (write_group g) s = outcome (register_group fails fold g s)
  run (write_artifact a) s = outcome (register_artifact fails a s)
  run (write_fields group artifact input) s = outcome (update_artifact fails group artifact input s)
  run (write_schema group artifact schema) s =
      outcome (update_version_schema fails is_valid group artifact schema s)
