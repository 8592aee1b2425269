-- ===== src/Workflow/Sync.antt =====
-- internal/workflow/version_sync.go: the workflow that a schedule starts. The results of its activities
-- and of the ordering are parameters; the batches and the enrichment are those of the modules beside
-- this one. The search attributes of the run are left out.
pub mod Laws
use system_of_adownload.Prelude.{
  Bool, List, Option, Text, [], codes, false, if◌then◌else◌, is_empty, length, none, pos, some,
  true, ℕ, ◌∷◌, ◌≡◌, ◌≢◌,
}
use system_of_adownload.Activity.Enrichment.{VersionForEnrichment, FetchVersionsForEnrichmentOutput}
use system_of_adownload.Activity.Sync.{VersionInfo}
use system_of_adownload.Db.Tx.{Error, Result, ok, err}
use system_of_adownload.Workflow.Batch.{completed, failed, BatchState, Step}
use system_of_adownload.Workflow.Batch.Reachable.{first_run}
use system_of_adownload.Workflow.Changelog.{changelog_batch}
use system_of_adownload.Workflow.CommitEnrichment.{
  EnrichmentPhase, fetching, finished, broken, EnrichmentStep, first_changelogs,
}
use system_of_adownload.Workflow.Index.{version_batch}

pub record VersionSyncInput : Type 0 where
  pub group_id : Text
  pub artifact_id : Text
  pub force_reindex : Bool
  pub force_changelog : Bool
  pub source : Text

pub record VersionSyncOutput : Type 0 where
  pub new_versions_stored : ℕ
  pub newest_version : Text
  pub oldest_version : Text

-- `source`: no source is the search.
abbrev pub source_or_search : Text → Text
source_or_search source = if is_empty source then codes "search" else source

-- `VersionSyncOutput{}`
abbrev pub no_output : VersionSyncOutput
no_output = record { new_versions_stored = 0; newest_version = []; oldest_version = [] }

-- The versions of the last and of the first element of `NewVersions`.
abbrev last_version : List VersionInfo → Text → Text
last_version [] t = t
last_version (v ∷ rest) t = last_version rest v.version

abbrev pub first_version : List VersionInfo → Text
first_version [] = []
first_version (v ∷ rest) = v.version

abbrev pub sync_output : List VersionInfo → VersionSyncOutput
sync_output new = record {
  new_versions_stored = length new;
  newest_version = last_version new [];
  oldest_version = first_version new;
}

abbrev pub versions_to_index :
    VersionSyncInput → List VersionInfo → List VersionInfo → List VersionInfo
versions_to_index input fetched new = if input.force_reindex then fetched else new

-- `indexFuture`: there is no batch without versions.
abbrev pub index_batch : List VersionInfo → Option (BatchState VersionInfo)
index_batch versions =
    if is_empty versions then none else some (first_run version_batch versions (pos 10))

-- Where the workflow is. Indexing and ordering go on at once: the flag says that the ordering is done.
pub data SyncPhase : Type 0 where
  reading listing stopped : SyncPhase
  storing : List VersionInfo → SyncPhase
  working : List VersionInfo → List VersionInfo → Option (BatchState VersionInfo) → Bool → SyncPhase
  enriching : List VersionInfo → List VersionInfo → ℕ → EnrichmentPhase → SyncPhase
  computing : BatchState VersionForEnrichment → SyncPhase
  synced : VersionSyncOutput → SyncPhase

-- `ForceChangelog` skips all but the changelogs.
abbrev pub first_phase : VersionSyncInput → SyncPhase
first_phase input = if input.force_changelog then listing else reading

-- The batch has ended with a result, or there is none; then the result is 0.
pub data IsIndexed : Option (BatchState VersionInfo) → ℕ → Type 0 where
  no_batch : (n : ℕ) → n ≡ 0 → IsIndexed none n
  batch_ended : (s : BatchState VersionInfo) (n : ℕ) → s.phase ≡ completed n → IsIndexed (some s) n

module _ (input : VersionSyncInput) (fetched : Text → Result (List VersionInfo))
    (stored : List VersionInfo → Result (List VersionInfo)) (ordered : Result ℕ)
    (for_enrichment enriched : Result FetchVersionsForEnrichmentOutput) where
  -- `VersionSyncWorkflow` and `forceChangelogOnly`
  pub data SyncStep : SyncPhase → SyncPhase → Type 0 where
    fetch_fails :
        (e : Error) → fetched (source_or_search input.source) ≡ err e → SyncStep reading stopped
    has_none : fetched (source_or_search input.source) ≡ ok [] → SyncStep reading (synced no_output)
    fetches :
        (vs : List VersionInfo)
        → fetched (source_or_search input.source) ≡ ok vs
        → vs ≢ []
        → SyncStep reading (storing vs)
    store_fails :
        (vs : List VersionInfo) (e : Error) → stored vs ≡ err e → SyncStep (storing vs) stopped
    stores :
        (vs new : List VersionInfo)
        → stored vs ≡ ok new
        → SyncStep
            (storing vs)
            (working vs new (index_batch (versions_to_index input vs new)) false)
    indexes :
        (vs new : List VersionInfo) (s t : BatchState VersionInfo) (done : Bool)
        → Step version_batch s t
        → SyncStep (working vs new (some s) done) (working vs new (some t) done)
    orders :
        (vs new : List VersionInfo) (b : Option (BatchState VersionInfo)) (n : ℕ)
        → ordered ≡ ok n
        → SyncStep (working vs new b false) (working vs new b true)
    index_fails :
        (vs new : List VersionInfo) (s : BatchState VersionInfo) (done : Bool)
        → s.phase ≡ failed
        → SyncStep (working vs new (some s) done) stopped
    ordering_fails :
        (vs new : List VersionInfo) (b : Option (BatchState VersionInfo)) (n : ℕ) (e : Error)
        → IsIndexed b n
        → ordered ≡ err e
        → SyncStep (working vs new b false) stopped
    both_end :
        (vs new : List VersionInfo) (b : Option (BatchState VersionInfo)) (n : ℕ)
        → IsIndexed b n
        → SyncStep (working vs new b true) (enriching vs new n fetching)
    enriches :
        (vs new : List VersionInfo) (n : ℕ) (s t : EnrichmentPhase)
        → EnrichmentStep for_enrichment s t
        → SyncStep (enriching vs new n s) (enriching vs new n t)
    enrichment_fails :
        (vs new : List VersionInfo) (n : ℕ) → SyncStep (enriching vs new n broken) stopped
    enrichment_ends :
        (vs new : List VersionInfo) (n k m : ℕ)
        → SyncStep (enriching vs new n (finished k m)) (synced (sync_output new))
    list_fails : (e : Error) → enriched ≡ err e → SyncStep listing stopped
    lists_none :
        (out : FetchVersionsForEnrichmentOutput)
        → enriched ≡ ok out
        → out.versions ≡ []
        → SyncStep listing (synced no_output)
    lists :
        (out : FetchVersionsForEnrichmentOutput)
        → enriched ≡ ok out
        → out.versions ≢ []
        → SyncStep listing (computing (first_changelogs out.versions))
    computes :
        (s t : BatchState VersionForEnrichment)
        → Step changelog_batch s t
        → SyncStep (computing s) (computing t)
    changelogs_fail :
        (s : BatchState VersionForEnrichment) → s.phase ≡ failed → SyncStep (computing s) stopped
    computed :
        (s : BatchState VersionForEnrichment) (n : ℕ)
        → s.phase ≡ completed n
        → SyncStep (computing s) (synced no_output)

  pub data SyncReach : SyncPhase → SyncPhase → Type 0 where
    stays : (s : SyncPhase) → SyncReach s s
    goes : (s t u : SyncPhase) → SyncStep s t → SyncReach t u → SyncReach s u
