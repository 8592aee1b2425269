-- ===== src/App/Service/Reads.antt =====
-- What the reads of the service return after its writes.
use system_of_adownload.Prelude.{
  Bool, Text, [], arith, codes, false, refl, some, text_eq_refl, ◌++◌, ◌∷◌, ◌≡◌,
}
use system_of_adownload.App.Service.{
  get_group, Group, domain_group, group_row, register_group, update_version_schema,
  get_version_schema,
}
use system_of_adownload.App.Service.Keeps.{fresh_group}
use system_of_adownload.Db.Models.{GroupRow, ArtifactRow, Store}
use system_of_adownload.Db.Registry.{has_maven_id, is_artifact, upsert, with_schema, folds_to}
use system_of_adownload.Db.Tx.{ok, Faults, with_tx}
use system_of_adownload.Domain.Json.Schemas.{
  marshal_schema, AreCanonical, unmarshal_schema-marshal_schema,
}
use system_of_adownload.Domain.Version.Schema.{VersionSchema}
use system_of_adownload.Prelude.Rows.{
  find, any, update, find-holds, found_last, find_cases, find-update,
}

module _ (fails : Faults) where
  get_group-found :
      (id : Text) (g : GroupRow) (s : Store)
      → fails (codes "GetGroup") 0 ≡ false
      → find (has_maven_id id) s.groups ≡ some g
      → get_group fails id s ≡ (ok (domain_group g), s)
  unfolding get_group
  get_group-found id g s e h = rw (e, h) refl

  register_group-ok :
      (fold : Text → Text) (g : Group) (s s' : Store)
      → register_group fails fold g s ≡ (ok tt, s')
      → (any (folds_to fold g.group_id) s.groups ≡ false)
        × (s' ≡ record s { groups = s.groups ++ group_row g ∷ [] })
  unfolding register_group with_tx upsert
  register_group-ok fold g s s' h = ground (arith, fresh_group fold (group_row g) s.groups)

  -- When `RegisterGroup` succeeds, a following `GetGroup` of the id that does not fail returns the
  -- group.
  get_group-register_group :
      (fold : Text → Text) (g : Group) (s s' : Store)
      → register_group fails fold g s ≡ (ok tt, s')
      → fails (codes "GetGroup") 0 ≡ false
      → get_group fails g.group_id s' ≡ (ok g, s')
  get_group-register_group fold g s s' h e =
      let (fresh, stored) = register_group-ok fold g s s' h in
      get_group-found g.group_id (group_row g) s' e (
        rw stored (
          found_last (has_maven_id g.group_id) s.groups (group_row g) (text_eq_refl g.group_id)
            (fresh_group fold (group_row g) s.groups fresh)))

  get_version_schema-found :
      (group artifact : Text) (a : ArtifactRow) (schema : VersionSchema) (s : Store)
      → fails (codes "GetArtifactVersionSchema") 0 ≡ false
      → find (is_artifact group artifact) s.artifacts ≡ some a
      → AreCanonical schema
      → a.version_schema ≡ some (marshal_schema schema)
      → get_version_schema fails group artifact s ≡ (ok schema, s)
  unfolding get_version_schema
  get_version_schema-found group artifact a schema s e h c hs =
      rw (e, h) (rw hs (rw (unmarshal_schema-marshal_schema schema c) refl))

  update_version_schema-ok :
      (is_valid : VersionSchema → Bool) (group artifact : Text) (schema : VersionSchema)
      (s s' : Store)
      → update_version_schema fails is_valid group artifact schema s ≡ (ok tt, s')
      → ((a : ArtifactRow) × (find (is_artifact group artifact) s.artifacts ≡ some a))
        × (s' ≡ record s {
          artifacts =
              update
                (is_artifact group artifact)
                (with_schema (some (marshal_schema schema)))
                s.artifacts;
        })
  unfolding update_version_schema with_tx
  update_version_schema-ok is_valid group artifact schema s s' h =
      ground (arith, find_cases (is_artifact group artifact) s.artifacts)

  -- When `UpdateVersionSchema` of a schema succeeds, in which no unknown `parse_as` is spelled like a
  -- known one, a following `GetVersionSchema` that does not fail unmarshals the schema from the JSON
  -- that was stored.
  pub get_version_schema-update_version_schema :
      (is_valid : VersionSchema → Bool) (group artifact : Text) (schema : VersionSchema)
      (s s' : Store)
      → AreCanonical schema
      → update_version_schema fails is_valid group artifact schema s ≡ (ok tt, s')
      → fails (codes "GetArtifactVersionSchema") 0 ≡ false
      → get_version_schema fails group artifact s' ≡ (ok schema, s')
  get_version_schema-update_version_schema is_valid group artifact schema s s' c h e =
      let ((a, found), stored) = update_version_schema-ok is_valid group artifact schema s s' h in
      get_version_schema-found group artifact (with_schema (some (marshal_schema schema)) a) schema
        s' e
        (rw stored (
          find-update (is_artifact group artifact) (with_schema (some (marshal_schema schema)))
            s.artifacts a (find-holds (is_artifact group artifact) s.artifacts a found) found))
        c refl
