-- ===== src/Tests/SyncRun.antt =====
-- internal/workflow/version_sync.go on one new version, from its start to its end.
use mathlib.Core.Path.{subst}
use system_of_adownload.Prelude.{Bool, List, [], ap, codes, false, map, none, refl, some, true, ◌∷◌}
use system_of_adownload.Activity.Enrichment.{FetchVersionsForEnrichmentOutput}
use system_of_adownload.Activity.Sync.{VersionInfo}
use system_of_adownload.Db.Tx.{Result, ok, err}
use system_of_adownload.Prelude.Rows.{any}
use system_of_adownload.Tests.Batches.{first_version, at_start, at_result, to_result}
use system_of_adownload.Workflow.Batch.{
  BatchState, begin, start_child, end_page, complete, Reach, here, next,
}
use system_of_adownload.Workflow.Batch.Sets.{IsSetOf}
use system_of_adownload.Workflow.CommitEnrichment.{fetching, finished, has_none}
use system_of_adownload.Workflow.Index.{version_batch}
use system_of_adownload.Workflow.Sync.{
  VersionSyncInput, sync_output, SyncPhase, reading, storing, working, enriching, synced,
  batch_ended, fetches, stores, indexes, orders, both_end, enriches, enrichment_ends, SyncReach,
  stays, goes,
}
use system_of_adownload.Workflow.Sync.Laws.{AreSets, IsOn, sync_workflow-IsOn}

abbrev input : VersionSyncInput
input = record {
  group_id = codes "org.spongepowered";
  artifact_id = codes "spongevanilla";
  force_reindex = false;
  force_changelog = false;
  source = [];
}

abbrev one : List VersionInfo
one = first_version ∷ []

abbrev no_versions : FetchVersionsForEnrichmentOutput
no_versions = record { versions = []; git_repositories = none }

abbrev Run : SyncPhase → SyncPhase → Type 0
Run = SyncReach input (λ _. ok one) (λ _. ok one) (ok 1) (ok no_versions) (ok no_versions)

-- The steps of the batch, as steps of the workflow.
indexing :
    (done : Bool) (s t : BatchState VersionInfo) (u : SyncPhase)
    → Reach version_batch s t
    → Run (working one one (some t) done) u
    → Run (working one one (some s) done) u
indexing done s t u (here _) rest = rest
indexing done s t u (next _ m _ step path) rest =
    goes (working one one (some s) done) (working one one (some m) done) u
      (indexes one one s m done step) (indexing done m t u path rest)

to_synced : Run reading (synced (sync_output one))
unfolding complete any end_page start_child begin
to_synced =
    let k = version_batch in
    let v = first_version in
    let s = at_start k v in
    let t = at_result k v in
    let end = synced (sync_output one) in
    goes reading (storing one) end (fetches one refl (λ h. cc)) (
      goes (storing one) (working one one (some s) false) end (stores one one refl) (
        goes (working one one (some s) false) (working one one (some s) true) end
          (orders one one (some s) 1 refl)
          (indexing true s t end to_result (
            goes (working one one (some t) true) (enriching one one 1 fetching) end
              (both_end one one (some t) 1 (batch_ended t 1 refl))
              (goes (enriching one one 1 fetching) (enriching one one 1 (finished 0 0)) end
                (enriches one one 1 fetching (finished 0 0) (has_none no_versions refl refl))
                (goes (enriching one one 1 (finished 0 0)) end end (enrichment_ends one one 1 0 0)
                  (stays end)))))))

abbrev from_ok : Result (List VersionInfo) → List VersionInfo
from_ok (ok vs) = vs
from_ok (err _) = []

one-AreSets : AreSets input (λ _. ok one) (λ _. ok one) (ok 1) (ok no_versions) (ok no_versions)
unfolding any
one-AreSets vs new (_, _, h) =
    subst (λ vs. IsSetOf (map (λ v. v.version) vs)) (ap from_ok h) (refl, tt)

sync_workflow-IsOn_example :
    IsOn input
      (λ _. ok one)
      (λ _. ok one)
      (ok 1)
      (ok no_versions)
      (ok no_versions)
      (synced (sync_output one))
sync_workflow-IsOn_example =
    sync_workflow-IsOn input (λ _. ok one) (λ _. ok one) (ok 1) (ok no_versions) (ok no_versions)
      one-AreSets (synced (sync_output one)) to_synced
