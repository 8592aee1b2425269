-- ===== src/Httpapi/Schedules/Laws.antt =====
-- What the schedules of an artifact are.
use system_of_adownload.Prelude.{
  Bool, List, Text, [], arith, false, refl, text_eq, text_eq_refl, true, ℕ, ◌∷◌, ◌≡◌,
}
use system_of_adownload.Httpapi.Schedules.{
  SyncSource, metadata, search, ScheduleOptions, fast_schedule_id, full_schedule_id, fast_schedule,
  full_schedule, create_schedule, create_dual_schedules, schedule_id,
}
use system_of_adownload.Prelude.Rows.{any, any-append}

abbrev has_schedule : Text → List ScheduleOptions → Bool
has_schedule i schedules = any (λ p. text_eq p.id i) schedules

abbrev same_schedule : ScheduleOptions → ScheduleOptions → Bool
same_schedule a b = text_eq a.id b.id

-- The two schedules of artifacts never share an id: the kinds of the ids differ.
fast-full : (g a g' a' : Text) → text_eq (fast_schedule_id g a) (full_schedule_id g' a') ≡ false
unfolding fast_schedule_id full_schedule_id
fast-full g a g' a' = refl

module _ (fails : ℕ → Bool) where
  has_schedule-create :
      (i : ℕ) (o : ScheduleOptions) (schedules : List ScheduleOptions) (id : Text)
      → has_schedule id schedules ≡ true
      → has_schedule id (create_schedule fails i o schedules) ≡ true
  unfolding any
  has_schedule-create i o schedules id h =
      ground (arith, h, any-append (λ p. text_eq p.id id) schedules (o ∷ []))

  created :
      (i : ℕ) (o : ScheduleOptions) (schedules : List ScheduleOptions)
      → fails i ≡ false
      → has_schedule o.id (create_schedule fails i o schedules) ≡ true
  unfolding any
  created i o schedules f =
      ground (arith, f, text_eq_refl o.id, any-append (λ p. text_eq p.id o.id) schedules (o ∷ []))

  -- When no call fails, each source that `TriggerSync` takes has a schedule of the artifact.
  create_dual_schedules-has_schedule :
      (group artifact : Text) (schedules : List ScheduleOptions) (src : SyncSource)
      → fails 0 ≡ false
      → fails 1 ≡ false
      → has_schedule
          (schedule_id src group artifact)
          (create_dual_schedules fails group artifact schedules)
        ≡ true
  unfolding create_dual_schedules
  create_dual_schedules-has_schedule group artifact schedules metadata f g =
      has_schedule-create 1 (full_schedule group artifact)
        (create_schedule fails 0 (fast_schedule group artifact) schedules)
        (fast_schedule_id group artifact) (created 0 (fast_schedule group artifact) schedules f)
  create_dual_schedules-has_schedule group artifact schedules search f g =
      created 1 (full_schedule group artifact)
        (create_schedule fails 0 (fast_schedule group artifact) schedules) g
