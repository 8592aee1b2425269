-- ===== src/Httpapi/Schedules.antt =====
-- The schedules of an artifact, and `TriggerSync`, in internal/httpapi/handler.go.
pub mod Laws
use system_of_adownload.Prelude.{
  Bool, List, Option, Text, [], codes, false, if◌then◌else◌, none, some, text_eq, true, ℕ, ◌++◌,
  ◌||◌, ◌∷◌,
}
use system_of_adownload.Prelude.Rows.{any}

pub data SyncSource : Type 0 where
  metadata search : SyncSource

pub data OverlapPolicy : Type 0 where
  buffer_one skip_new : OverlapPolicy

-- `client.ScheduleOptions`, with the times in seconds.
pub record ScheduleOptions : Type 0 where
  pub id : Text
  pub every : ℕ
  pub jitter : ℕ
  pub group_id : Text
  pub artifact_id : Text
  pub source : SyncSource
  pub execution_timeout : ℕ
  pub overlap : OverlapPolicy
  pub trigger_immediately : Bool

-- `VersionSyncFastScheduleID`
unfoldable pub fast_schedule_id : Text → Text → Text
fast_schedule_id group artifact = codes "version-sync-fast-" ++ group ++ codes "-" ++ artifact

-- `VersionSyncFullScheduleID`
unfoldable pub full_schedule_id : Text → Text → Text
full_schedule_id group artifact = codes "version-sync-full-" ++ group ++ codes "-" ++ artifact

abbrev execution_timeout_seconds : ℕ
execution_timeout_seconds = 1800

-- `NewFastVersionSyncScheduleOptions`
abbrev pub fast_schedule : Text → Text → ScheduleOptions
fast_schedule group artifact = record {
  id = fast_schedule_id group artifact;
  every = 120;
  jitter = 15;
  group_id = group;
  artifact_id = artifact;
  source = metadata;
  execution_timeout = execution_timeout_seconds;
  overlap = buffer_one;
  trigger_immediately = true;
}

-- `NewFullVersionSyncScheduleOptions`
abbrev pub full_schedule : Text → Text → ScheduleOptions
full_schedule group artifact = record {
  id = full_schedule_id group artifact;
  every = 3600;
  jitter = 600;
  group_id = group;
  artifact_id = artifact;
  source = search;
  execution_timeout = execution_timeout_seconds;
  overlap = skip_new;
  trigger_immediately = false;
}

-- Temporal's schedules: creating one whose id is taken fails. `fails i`: whether call `i` fails.
abbrev pub create_schedule :
    (ℕ → Bool) → ℕ → ScheduleOptions → List ScheduleOptions → List ScheduleOptions
create_schedule fails i o schedules =
    if fails i || any (λ p. text_eq p.id o.id) schedules then schedules else schedules ++ o ∷ []

-- `createDualVersionSyncSchedules`: an error is logged.
unfoldable pub create_dual_schedules :
    (ℕ → Bool) → Text → Text → List ScheduleOptions → List ScheduleOptions
unfolding fast_schedule_id full_schedule_id any
create_dual_schedules fails group artifact schedules =
    create_schedule fails 1 (full_schedule group artifact)
      (create_schedule fails 0 (fast_schedule group artifact) schedules)

-- What triggering a schedule gives.
data Trigger : Type 0 where
  triggered no_schedule trigger_failed : Trigger

-- The answers of `TriggerSync`.
data TriggerResponse : Type 0 where
  trigger_200 trigger_400 trigger_404 trigger_500 : TriggerResponse

-- `source.Valid()` and the switch: the schedule of a source that a request names.
abbrev source_of : Option Text → Option SyncSource
source_of none = some metadata
source_of (some t) =
    if text_eq t (codes "search")
    then some search
    else if text_eq t (codes "metadata")
    then some metadata
    else none

abbrev pub schedule_id : SyncSource → Text → Text → Text
schedule_id search group artifact = full_schedule_id group artifact
schedule_id metadata group artifact = fast_schedule_id group artifact

abbrev trigger_response : Trigger → TriggerResponse
trigger_response triggered = trigger_200
trigger_response no_schedule = trigger_404
trigger_response trigger_failed = trigger_500

-- `TriggerSync`, with what Temporal does on a schedule's id, if there is a client.
unfoldable trigger_sync : Option (Text → Trigger) → Option Text → Text → Text → TriggerResponse
unfolding fast_schedule_id full_schedule_id
trigger_sync none source group artifact = trigger_500
trigger_sync (some trigger) source group artifact = elim (source_of source) [
  | none ↦ trigger_400
  | some src ↦ trigger_response (trigger (schedule_id src group artifact))
]
