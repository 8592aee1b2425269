-- ===== src/Httpapi/Handler/Laws.antt =====
-- What the handlers of schemas and artifacts answer.
use mathlib.Core.Path.{subst}
use system_of_adownload.App.Service
use system_of_adownload.Prelude.{
  Bool, List, Option, Text, ap, arith, codes, false, inl, inr, none, refl, some, sym, ℕ, ◌∙◌, ◌≡◌,
  ◌⊎◌,
}
use system_of_adownload.App.Service.Reads.{get_version_schema-update_version_schema}
use system_of_adownload.Db.Models.{Store}
use system_of_adownload.Db.Tx.{Error, Result, ok, err, after, pure, Faults}
use system_of_adownload.Db.Tx.Laws.{with_tx-rollback, after-split, ok-injective}
use system_of_adownload.Domain.Json.Schemas.{AreCanonical}
use system_of_adownload.Domain.Version.Schema.{VersionSchema}
use system_of_adownload.Httpapi.Handler.{
  ArtifactResponse, ArtifactBody, answer, register_errors, schema_errors, put_schema_errors,
  body_artifact, artifact_response, schedule_registered, register_artifact_handler,
  get_artifact_schema, put_artifact_schema,
}
use system_of_adownload.Httpapi.Schedules.{ScheduleOptions}
use system_of_adownload.Httpapi.Schema.{ApiSchema, domain_schema_to_api, api_schema_to_domain}
use system_of_adownload.Httpapi.Versions.{
  Response, answered, bad_request, conflict, missing, broken, passed_on,
}

not_put : (e : Error) (a : ApiSchema) → put_schema_errors e ≡ answered a → ⊥
not_put e a h = ground arith

value_of {ℓ} : {A : Type ℓ} → A → Response A → A
value_of d (answered a) = a
value_of d _ = d

put_answered :
    (m : Result ApiSchema × Store) (a : ApiSchema) (s : Store)
    → answer put_schema_errors m ≡ (answered a, s)
    → m ≡ (ok a, s)
unfolding value_of
put_answered (ok b, t) a s h = ap (λ r. (ok (value_of b r.0), r.1)) h
put_answered (err e, t) a s h = absurd (not_put e a (ap (λ r. r.0) h))

-- What `RegisterArtifact` leaves: an answer with an artifact, or the store and the schedules.
abbrev pub Registered :
    Store → List ScheduleOptions → Response ArtifactResponse × Store × List ScheduleOptions → Type 0
Registered s schedules r =
    ((a : ArtifactResponse) × (r.0 ≡ answered a)) ⊎ ((r.1 ≡ s) × (r.2 ≡ schedules))

module _ (fails : Faults) where
  schedule_cases :
      (has_client : Bool) (broken_calls : ℕ → Bool) (group artifact : Text) (s t : Store)
      (schedules : List ScheduleOptions) (q : Response ArtifactResponse)
      → t ≡ s
      → Registered s schedules
          (schedule_registered fails has_client broken_calls group artifact (q, t) schedules)
  schedule_cases c b g a s t schedules (answered r) h = inl (r, refl)
  schedule_cases c b g a s t schedules bad_request h = inr (h, refl)
  schedule_cases c b g a s t schedules conflict h = inr (h, refl)
  schedule_cases c b g a s t schedules missing h = inr (h, refl)
  schedule_cases c b g a s t schedules broken h = inr (h, refl)
  schedule_cases c b g a s t schedules (passed_on e) h = inr (h, refl)

  register_cases :
      (has_client : Bool) (broken_calls : ℕ → Bool) (group artifact : Text) (s : Store)
      (schedules : List ScheduleOptions) (r : ArtifactResponse) (m : Result (Unit {0}) × Store)
      → ((e : Error) (t : Store) → m ≡ (err e, t) → t ≡ s)
      → Registered s schedules (
          schedule_registered fails has_client broken_calls group artifact
            (answer register_errors (after (λ _. pure r) m))
            schedules)
  register_cases c b g a s schedules r (ok u, t) h = inl (r, refl)
  register_cases c b g a s schedules r (err e, t) h =
      schedule_cases c b g a s t schedules (register_errors e) (h e t refl)

  -- In a request's schema no unknown `parse_as` is spelled like a known one.
  abbrev pub IsSpelled : Option ApiSchema → Type 0
  IsSpelled none = Unit
  IsSpelled (some body) = AreCanonical (api_schema_to_domain body)

  -- When `PutArtifactSchema` answers a request, it answers with the schema that it has stored: a
  -- `GetArtifactSchema` that follows, and does not fail, answers the same.
  pub get_artifact_schema-put_artifact_schema :
      (is_valid : VersionSchema → Bool) (group artifact : Text) (body : Option ApiSchema)
      (s s' : Store) (stored : ApiSchema)
      → IsSpelled body
      → put_artifact_schema fails is_valid group artifact body s ≡ (answered stored, s')
      → fails (codes "GetArtifactVersionSchema") 0 ≡ false
      → get_artifact_schema fails group artifact s' ≡ (answered stored, s')
  unfolding put_artifact_schema get_artifact_schema
  get_artifact_schema-put_artifact_schema is_valid group artifact none s s' stored c h f = absurd cc
  get_artifact_schema-put_artifact_schema is_valid group artifact (some body) s s' stored c h f =
      let schema = api_schema_to_domain body in
      let m =
        put_answered
          (after (λ _. pure (domain_schema_to_api schema))
            (Service.update_version_schema fails is_valid group artifact schema s))
          stored s' h in
      let (u, t, e, k) =
        after-split (λ _. pure (domain_schema_to_api schema))
          (Service.update_version_schema fails is_valid group artifact schema s) stored s' m in
      let (x, y) = ok-injective (domain_schema_to_api schema) stored t s' k in
      let g =
        get_version_schema-update_version_schema fails is_valid group artifact schema s t c e f in
      subst (λ z. get_artifact_schema fails group artifact z ≡ (answered stored, z)) (sym y)
        (ap (λ r. answer schema_errors (after (λ schema. pure (domain_schema_to_api schema)) r)) g
          ∙ ap (λ z. (answered z, t)) (sym x))

  -- `RegisterArtifact` makes schedules only for a request that it answers with the artifact; otherwise
  -- the schedules and the database are as they were.
  pub register_artifact_handler-refused :
      (has_client : Bool) (broken_calls : ℕ → Bool) (group : Text) (body : Option ArtifactBody)
      (s : Store) (schedules : List ScheduleOptions)
      → Registered s schedules
          (register_artifact_handler fails has_client broken_calls group body s schedules)
  unfolding register_artifact_handler
  register_artifact_handler-refused has_client broken_calls group none s schedules =
      inr (refl, refl)
  register_artifact_handler-refused has_client broken_calls group (some b) s schedules =
      let reg = Service.register_artifact fails (body_artifact group b) s in
      register_cases has_client broken_calls group b.artifact_id s schedules
        (artifact_response (body_artifact group b)) reg (λ e t h. with_tx-rollback fails _ s t e h)
