-- ===== src/App/Service/Keeps.antt =====
-- Every write keeps the keys of the tables.
use system_of_adownload.Prelude.{
  All-append, All-map, Bool, List, Text, [], ap, arith, false, inl, inr, refl, some, suc, text_eq,
  text_eq_iff, text_eq_refl, true, ℕ, ◌++◌, ◌∙◌, ◌∷◌, ◌≡◌, ◌⊎◌,
}
use system_of_adownload.App.Service.{
  Group, Artifact, UpdateArtifactInput, group_row, create_params, update_params, register_group,
  register_artifact, update_artifact, update_version_schema,
}
use system_of_adownload.App.Service.Consistent.{
  Write, write_group, write_artifact, write_fields, write_schema, outcome, same_group,
  same_artifact, IsConsistent, run,
}
use system_of_adownload.Db.Models.{GroupRow, ArtifactRow, Store}
use system_of_adownload.Db.Registry.{
  has_maven_id, is_artifact, upsert, new_artifact, with_fields, with_schema, folds_to,
}
use system_of_adownload.Db.Tx.{Result, ok, err, Faults, with_tx}
use system_of_adownload.Domain.Json.Schemas.{marshal_schema}
use system_of_adownload.Domain.Version.Schema.{VersionSchema}
use system_of_adownload.Prelude.Rows.{
  any, update, any-append, find_cases, any_weaken, All-update, IsUnique-append, IsUnique-update,
}

-- With no row that folds to the new id, the upsert of `create_group` adds a row.
pub fresh_group :
    (fold : Text → Text) (g : GroupRow) (rows : List GroupRow)
    → any (folds_to fold g.maven_id) rows ≡ false
    → any (has_maven_id g.maven_id) rows ≡ false
fresh_group fold g = any_weaken (has_maven_id g.maven_id) (folds_to fold g.maven_id) (λ a e.
    ap (λ z. text_eq (fold z) (fold g.maven_id)) ((text_eq_iff a.maven_id g.maven_id).0 e)
    ∙ text_eq_refl (fold g.maven_id))

module _ (fold : Text → Text) (fails : Faults) where
  register_group-store :
      (g : Group) (s : Store)
      → ((register_group fails fold g s).1 ≡ s)
        ⊎ ((any (folds_to fold g.group_id) s.groups ≡ false)
            × ((register_group fails fold g s).1
                ≡ record s { groups = s.groups ++ group_row g ∷ [] }))
  unfolding register_group with_tx upsert
  register_group-store g s = ground (arith, fresh_group fold (group_row g) s.groups)

  register_artifact-store :
      (a : Artifact) (s : Store)
      → ((register_artifact fails a s).1 ≡ s)
        ⊎ ((any (is_artifact a.group_id a.artifact_id) s.artifacts ≡ false)
            × (any (has_maven_id a.group_id) s.groups ≡ true)
            × ((register_artifact fails a s).1 ≡ record s {
              artifacts = s.artifacts ++ new_artifact (create_params a) s.next_artifact ∷ [];
              next_artifact = suc s.next_artifact;
            }))
  unfolding register_artifact with_tx upsert
  register_artifact-store a s = ground (
    arith,
    find_cases (has_maven_id a.group_id) s.groups,
    find_cases (is_artifact a.group_id a.artifact_id) s.artifacts,
  )

  update_artifact-store :
      (group artifact : Text) (input : UpdateArtifactInput) (s : Store)
      → ((update_artifact fails group artifact input s).1 ≡ s)
        ⊎ ((update_artifact fails group artifact input s).1 ≡ record s {
          artifacts =
              update
                (is_artifact group artifact)
                (with_fields (update_params group artifact input))
                s.artifacts;
        })
  unfolding update_artifact with_tx
  update_artifact-store group artifact input s = ground arith

  update_version_schema-store :
      (is_valid : VersionSchema → Bool) (group artifact : Text) (schema : VersionSchema) (s : Store)
      → ((update_version_schema fails is_valid group artifact schema s).1 ≡ s)
        ⊎ ((update_version_schema fails is_valid group artifact schema s).1 ≡ record s {
          artifacts =
              update
                (is_artifact group artifact)
                (with_schema (some (marshal_schema schema)))
                s.artifacts;
        })
  unfolding update_version_schema with_tx
  update_version_schema-store is_valid group artifact schema s = ground arith

  outcome-store {ℓ} : {A : Type ℓ} (r : Result A × Store) → (outcome r).1 ≡ r.1
  outcome-store (ok a, s) = refl
  outcome-store (err e, s) = refl

-- A change of the columns that are not in a key.
update_artifacts-IsConsistent :
    (fold : Text → Text) (p : ArtifactRow → Bool) (f : ArtifactRow → ArtifactRow) (s : Store)
    → ((a : ArtifactRow) → (f a).group_id ≡ a.group_id)
    → ((a : ArtifactRow) → (f a).artifact_id ≡ a.artifact_id)
    → IsConsistent fold s
    → IsConsistent fold (record s { artifacts = update p f s.artifacts })
update_artifacts-IsConsistent fold p f s hg ha (ug, ua, gs) = (
  ug,
  IsUnique-update same_artifact p f (λ a b. rw (hg a, ha a) refl) (λ a b. rw (hg b, ha b) refl)
      s.artifacts ua,
  All-update p f (λ a e. rw (hg a) e) s.artifacts gs,
)

add_group-IsConsistent :
    (fold : Text → Text) (g : GroupRow) (s : Store)
    → any (folds_to fold g.maven_id) s.groups ≡ false
    → IsConsistent fold s
    → IsConsistent fold (record s { groups = s.groups ++ g ∷ [] })
add_group-IsConsistent fold g s h (ug, ua, gs) = (
  IsUnique-append (same_group fold) s.groups g ug h,
  ua,
  All-map (λ a e. any-append (has_maven_id a.group_id) s.groups (g ∷ []) ∙ rw e refl) s.artifacts
      gs,
)

add_artifact-IsConsistent :
    (fold : Text → Text) (a : ArtifactRow) (i : ℕ) (s : Store)
    → any (is_artifact a.group_id a.artifact_id) s.artifacts ≡ false
    → any (has_maven_id a.group_id) s.groups ≡ true
    → IsConsistent fold s
    → IsConsistent fold (record s { artifacts = s.artifacts ++ a ∷ []; next_artifact = i })
add_artifact-IsConsistent fold a i s h hg (ug, ua, gs) = (
  ug,
  IsUnique-append same_artifact s.artifacts a ua h,
  All-append (λ b. any (has_maven_id b.group_id) s.groups ≡ true) s.artifacts (a ∷ []) gs (hg, tt),
)

module _ (fold : Text → Text) (fails : Faults) (is_valid : VersionSchema → Bool) where
  -- Every write, whether it succeeds or fails at whatever call of the database, keeps group ids
  -- unique up to case, artifact coordinates unique, and the group of each artifact in the table.
  pub run-IsConsistent :
      (w : Write) (s : Store)
      → IsConsistent fold s
      → IsConsistent fold (run fold fails is_valid w s).1
  unfolding run
  run-IsConsistent (write_group g) s c =
      rw (outcome-store fold fails (register_group fails fold g s))
        (elim (register_group-store fold fails g s) [
          | inl e ↦ rw e c
          | inr (h, e) ↦ rw e (add_group-IsConsistent fold (group_row g) s h c)
        ])
  run-IsConsistent (write_artifact a) s c =
      rw (outcome-store fold fails (register_artifact fails a s))
        (elim (register_artifact-store fold fails a s) [
          | inl e ↦ rw e c
          | inr (h, hg, e) ↦ rw e (
              add_artifact-IsConsistent fold (new_artifact (create_params a) s.next_artifact)
                (suc s.next_artifact) s h hg c)
        ])
  run-IsConsistent (write_fields group artifact input) s c =
      rw (outcome-store fold fails (update_artifact fails group artifact input s))
        (elim (update_artifact-store fold fails group artifact input s) [
          | inl e ↦ rw e c
          | inr e ↦ rw e (
              update_artifacts-IsConsistent fold (is_artifact group artifact)
                (with_fields (update_params group artifact input)) s (λ a. refl) (λ a. refl) c)
        ])
  run-IsConsistent (write_schema group artifact schema) s c =
      rw (outcome-store fold fails (update_version_schema fails is_valid group artifact schema s))
        (elim (update_version_schema-store fold fails is_valid group artifact schema s) [
          | inl e ↦ rw e c
          | inr e ↦ rw e (
              update_artifacts-IsConsistent fold (is_artifact group artifact)
                (with_schema (some (marshal_schema schema))) s (λ a. refl) (λ a. refl) c)
        ])
