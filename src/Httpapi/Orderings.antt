-- ===== src/Httpapi/Orderings.antt =====
-- `PutArtifactSchema` of internal/httpapi/handler.go with the ordering workflow that it starts. An
-- error of the start is only logged.
use system_of_adownload.Prelude.{
  Bool, List, Option, Text, [], codes, false, if◌then◌else◌, refl, ◌++◌, ◌∷◌, ◌≡◌, ◌⊎◌, inl, inr,
}
use system_of_adownload.Db.Models.{Store}
use system_of_adownload.Db.Tx.{Faults}
use system_of_adownload.Domain.Version.Schema.{VersionSchema}
use system_of_adownload.Httpapi.Handler.{put_artifact_schema, get_artifact_schema}
use system_of_adownload.Httpapi.Handler.Laws.{IsSpelled, get_artifact_schema-put_artifact_schema}
use system_of_adownload.Httpapi.Schema.{ApiSchema}
use system_of_adownload.Httpapi.Versions.{
  Response, answered, bad_request, conflict, missing, broken, passed_on,
}

-- A call of `ExecuteWorkflow`: the id, which ends a run that has it, and the input.
record OrderingStart : Type 0 where
  workflow_id : Text
  group_id : Text
  artifact_id : Text

abbrev ordering_start : Text → Text → OrderingStart
ordering_start group artifact = record {
  workflow_id = codes "version-ordering-" ++ group ++ codes "-" ++ artifact;
  group_id = group;
  artifact_id = artifact;
}

-- Only a schema that is stored starts a workflow, and only if there is a client.
abbrev ordering_started :
    Bool
    → Text
    → Text
    → Response ApiSchema × Store
    → List OrderingStart
    → Response ApiSchema × Store × List OrderingStart
ordering_started has_client group artifact (answered r, s) starts =
    (answered r, s, if has_client then starts ++ ordering_start group artifact ∷ [] else starts)
ordering_started has_client group artifact (r, s) starts = (r, s, starts)

module _ (fails : Faults) (is_valid : VersionSchema → Bool) (has_client : Bool)
    (group artifact : Text) where
  -- `PutArtifactSchema`
  unfoldable put_artifact_schema_handler :
      Option ApiSchema
      → Store
      → List OrderingStart
      → Response ApiSchema × Store × List OrderingStart
  unfolding put_artifact_schema
  put_artifact_schema_handler body s starts =
      ordering_started has_client group artifact
        (put_artifact_schema fails is_valid group artifact body s) starts

  started_split :
      (m : Response ApiSchema × Store) (starts : List OrderingStart)
      → ((ordering_started has_client group artifact m starts).2 ≡ starts)
        ⊎ ((stored : ApiSchema) × (m ≡ (answered stored, m.1)))
  started_split (answered r, s) starts = inr (r, refl)
  started_split (bad_request, s) starts = inl refl
  started_split (conflict, s) starts = inl refl
  started_split (missing, s) starts = inl refl
  started_split (broken, s) starts = inl refl
  started_split (passed_on e, s) starts = inl refl

  -- A workflow is started only for a schema that `GetArtifactSchema`, where its query works, answers
  -- from then on.
  put_artifact_schema_handler-starts :
      (body : Option ApiSchema) (s : Store) (starts : List OrderingStart)
      → IsSpelled fails body
      → fails (codes "GetArtifactVersionSchema") 0 ≡ false
      → ((put_artifact_schema_handler body s starts).2 ≡ starts)
        ⊎ ((stored : ApiSchema) × (let t =
                (put_artifact_schema fails is_valid group artifact body s).1 in
              get_artifact_schema fails group artifact t ≡ (answered stored, t)))
  unfolding put_artifact_schema_handler
  put_artifact_schema_handler-starts body s starts c f =
      elim (started_split (put_artifact_schema fails is_valid group artifact body s) starts) [
        | inl e ↦ inl e
        | inr (stored, e) ↦ inr (
          stored,
          get_artifact_schema-put_artifact_schema fails is_valid group artifact body s _ stored c e
              f,
        )
      ]
