-- ===== src/Workflow/Sync/Laws.antt =====
-- What the sync workflow has done before it enriches, and what it returns.
use system_of_adownload.Prelude.{
  Bool, List, Option, Text, [], ap, false, if◌then◌else◌, inl, inr, length, map, none, pos, refl,
  some, sym, true, ℕ, ◌++◌, ◌∙◌, ◌∷◌, ◌≡◌, ◌≢◌, ◌⊎◌,
}
use system_of_adownload.Activity.Enrichment.{FetchVersionsForEnrichmentOutput}
use system_of_adownload.Activity.Sync.{VersionInfo}
use system_of_adownload.Db.Tx.{Result, ok}
use system_of_adownload.Workflow.Batch.{BatchState, Reach, here, next}
use system_of_adownload.Workflow.Batch.Reachable.{compose, first_run, completed_lem}
use system_of_adownload.Workflow.Batch.Sets.{IsSetOf}
use system_of_adownload.Workflow.Index.{version_batch, version_batch-BatchLaws}
use system_of_adownload.Workflow.Sync.{
  VersionSyncInput, VersionSyncOutput, source_or_search, no_output, last_version, sync_output,
  versions_to_index, index_batch, first_phase, SyncPhase, reading, listing, stopped, storing,
  working, enriching, computing, synced, IsIndexed, no_batch, batch_ended, SyncStep, fetch_fails,
  has_none, fetches, store_fails, stores, indexes, orders, index_fails, ordering_fails, both_end,
  enriches, enrichment_fails, enrichment_ends, list_fails, lists_none, lists, computes,
  changelogs_fail, computed, SyncReach, stays, goes,
}

-- The batch of the versions, however far it is.
abbrev IsBatchOf : List VersionInfo → Option (BatchState VersionInfo) → Type 0
IsBatchOf versions none = versions ≡ []
IsBatchOf versions (some s) = Reach version_batch (first_run version_batch versions (pos 10)) s

index_batch-IsBatchOf : (versions : List VersionInfo) → IsBatchOf versions (index_batch versions)
index_batch-IsBatchOf [] = refl
index_batch-IsBatchOf (v ∷ rest) = here _

IsIndexed-length :
    (versions : List VersionInfo) (b : Option (BatchState VersionInfo)) (n : ℕ)
    → IsSetOf (map (λ v. v.version) versions)
    → IsBatchOf versions b
    → IsIndexed b n
    → n ≡ length versions
IsIndexed-length versions none n u r (no_batch _ h) = h ∙ ap length (sym r)
IsIndexed-length versions (some s) n u r (batch_ended _ _ h) =
    (completed_lem version_batch version_batch-BatchLaws versions (pos 10) s n u r h).0

-- What the output says of the stored versions: how many they are, and the versions of the first and of
-- the last of them, in the order in which they were fetched.
abbrev pub IsOutputOf : List VersionInfo → VersionSyncOutput → Type 0
IsOutputOf [] o = o ≡ no_output
IsOutputOf (v ∷ rest) o =
    (o.new_versions_stored ≡ length (v ∷ rest))
    × (o.oldest_version ≡ v.version)
    × ((before : List VersionInfo) × (w : VersionInfo) × (v ∷ rest ≡ before ++ w ∷ [])
        × (o.newest_version ≡ w.version))

last_version-lem :
    (v : VersionInfo) (rest : List VersionInfo) (t : Text)
    → (before : List VersionInfo) × (w : VersionInfo) × (v ∷ rest ≡ before ++ w ∷ [])
      × (last_version (v ∷ rest) t ≡ w.version)
last_version-lem v [] t = ([], v, refl, refl)
last_version-lem v (u ∷ rest) t =
    let (before, w, e, f) = last_version-lem u rest v.version in
    (v ∷ before, w, ap (λ vs. v ∷ vs) e, f)

sync_output-IsOutputOf : (new : List VersionInfo) → IsOutputOf new (sync_output new)
sync_output-IsOutputOf [] = refl
sync_output-IsOutputOf (v ∷ rest) = (refl, refl, last_version-lem v rest [])

module _ (input : VersionSyncInput) (fetched : Text → Result (List VersionInfo))
    (stored : List VersionInfo → Result (List VersionInfo)) (ordered : Result ℕ)
    (for_enrichment enriched : Result FetchVersionsForEnrichmentOutput) where
  -- The versions that were fetched, and those of them that were stored.
  abbrev IsStored : List VersionInfo → List VersionInfo → Type 0
  IsStored vs new =
      (fetched (source_or_search input.source) ≡ ok vs) × (vs ≢ []) × (stored vs ≡ ok new)

  abbrev IsOrdered : Bool → Type 0
  IsOrdered false = Unit
  IsOrdered true = (m : ℕ) × (ordered ≡ ok m)

  -- The versions of a batch are different.
  abbrev pub AreSets : Type 0
  AreSets =
      (vs new : List VersionInfo)
      → IsStored vs new
      → IsSetOf (map (λ v. v.version) (versions_to_index input vs new))

  -- What holds where the workflow is: the batch is one of the versions to index; behind it, the
  -- workflow has counted them all and the versions are ordered; the output is that of the new versions,
  -- unless only the changelogs are computed or nothing was fetched.
  abbrev pub IsOn : SyncPhase → Type 0
  IsOn reading = Unit
  IsOn listing = input.force_changelog ≡ true
  IsOn stopped = Unit
  IsOn (storing vs) = (fetched (source_or_search input.source) ≡ ok vs) × (vs ≢ [])
  IsOn (working vs new b done) =
      IsStored vs new × IsBatchOf (versions_to_index input vs new) b × IsOrdered done
  IsOn (enriching vs new n p) =
      IsStored vs new × (n ≡ length (versions_to_index input vs new)) × IsOrdered true
  IsOn (computing s) = input.force_changelog ≡ true
  IsOn (synced o) =
      ((o ≡ no_output)
        × ((input.force_changelog ≡ true) ⊎ (fetched (source_or_search input.source) ≡ ok [])))
      ⊎ ((vs : List VersionInfo) × (new : List VersionInfo) × IsStored vs new
          × IsOrdered true
          × IsOutputOf new o)

  module _ (sets : AreSets) where
    step-IsOn :
        (s t : SyncPhase)
        → SyncStep input fetched stored ordered for_enrichment enriched s t
        → IsOn s
        → IsOn t
    step-IsOn s t (fetch_fails e h) i = tt
    step-IsOn s t (has_none h) i = inl (refl, inr h)
    step-IsOn s t (fetches vs h n) i = (h, n)
    step-IsOn s t (store_fails vs e h) i = tt
    step-IsOn s t (stores vs new h) i =
        ((i.0, i.1, h), index_batch-IsBatchOf (versions_to_index input vs new), tt)
    step-IsOn s t (indexes vs new a b done step) i = (
      i.0,
      compose version_batch (first_run version_batch (versions_to_index input vs new) (pos 10)) a b
          i.1 (next a b b step (here b)),
      i.2,
    )
    step-IsOn s t (orders vs new b n h) i = (i.0, i.1, (n, h))
    step-IsOn s t (index_fails vs new a done h) i = tt
    step-IsOn s t (ordering_fails vs new b n e x h) i = tt
    step-IsOn s t (both_end vs new b n x) i =
        (i.0, IsIndexed-length (versions_to_index input vs new) b n (sets vs new i.0) i.1 x, i.2)
    step-IsOn s t (enriches vs new n a b step) i = i
    step-IsOn s t (enrichment_fails vs new n) i = tt
    step-IsOn s t (enrichment_ends vs new n k m) i =
        inr (vs, new, i.0, i.2, sync_output-IsOutputOf new)
    step-IsOn s t (list_fails e h) i = tt
    step-IsOn s t (lists_none out h n) i = inl (refl, inl i)
    step-IsOn s t (lists out h n) i = i
    step-IsOn s t (computes a b step) i = i
    step-IsOn s t (changelogs_fail a h) i = tt
    step-IsOn s t (computed a n h) i = inl (refl, inl i)

    reach-IsOn :
        (s t : SyncPhase)
        → SyncReach input fetched stored ordered for_enrichment enriched s t
        → IsOn s
        → IsOn t
    reach-IsOn s t (stays _) i = i
    reach-IsOn s t (goes _ m _ step path) i = reach-IsOn m t path (step-IsOn s m step i)

    first_phase-IsOn :
        (force : Bool) → input.force_changelog ≡ force → IsOn (if force then listing else reading)
    first_phase-IsOn true h = h
    first_phase-IsOn false h = tt

    -- Where the versions of each index batch are different: whatever order indexing and ordering go on
    -- in, the workflow enriches only after it has stored the fetched versions, the index batch has counted
    -- every version that it was to index, and the artifact is ordered; its result counts the
    -- stored versions and names, in the order of the fetch, the first of them as the oldest and the
    -- last as the newest, or it is empty, and then nothing was stored, only the changelogs were to be
    -- computed, or nothing was fetched.
    pub sync_workflow-IsOn :
        (t : SyncPhase)
        → SyncReach input fetched stored ordered for_enrichment enriched (first_phase input) t
        → IsOn t
    sync_workflow-IsOn t path =
        reach-IsOn (first_phase input) t path (first_phase-IsOn input.force_changelog refl)
