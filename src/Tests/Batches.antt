-- ===== src/Tests/Batches.antt =====
-- internal/workflow: a batch of one version, from its start to its end.
use system_of_adownload.Prelude.{[], codes, length, none, pos, refl, ◌++◌, ◌∷◌, ◌≡◌, ◌≤◌}
use system_of_adownload.Activity.Enrichment.{VersionForEnrichment, FetchVersionsForEnrichmentOutput}
use system_of_adownload.Activity.Sync.{VersionInfo}
use system_of_adownload.Db.Tx.{ok}
use system_of_adownload.Prelude.Rows.{any}
use system_of_adownload.Workflow.Batch.{
  delete_record, completed, BatchState, record_completion, drain, pump, BatchKind, begin,
  start_child, end_page, complete, fills, ends, completes, signals, receives, Reach, here, next,
}
use system_of_adownload.Workflow.Batch.Finish.{can_complete}
use system_of_adownload.Workflow.Batch.Reachable.{first_run, current_bounded, completed_lem}
use system_of_adownload.Workflow.Changelog.{changelog_batch}
use system_of_adownload.Workflow.CommitEnrichment.{
  EnrichmentPhase, fetching, enriching, computing, finished, starts, enriches, enriched, computes,
  computed, EnrichmentReach, stays, goes, finished_lem,
}
use system_of_adownload.Workflow.Enrich.{enrichment_batch}
use system_of_adownload.Workflow.Index.{version_batch, version_batch-BatchLaws}

abbrev pub first_version : VersionInfo
first_version = record {
  group_id = codes "org.spongepowered";
  artifact_id = codes "spongevanilla";
  version = codes "1.12-7";
}

abbrev to_enrich : VersionForEnrichment
to_enrich = record {
  id = 1;
  artifact_id = 1;
  version = codes "1.12-7";
  sort_order = pos 1;
  commit_sha = codes "abc";
  repository = [];
  branch = [];
}

-- The states that a batch of one version goes through: started, its page over, signalled, received,
-- completed.
module _ {V : Type 0} (kind : BatchKind V) (v : V) where
  abbrev pub at_start : BatchState V
  at_start = first_run kind (v ∷ []) (pos kind.default_window)

  abbrev at_child : BatchState V
  at_child = start_child kind v [] at_start

  abbrev at_end : BatchState V
  at_end = end_page kind at_child

  abbrev at_signal : BatchState V
  at_signal = record at_end { signals = at_end.signals ++ kind.key v ∷ [] }

  abbrev at_receipt : BatchState V
  at_receipt = pump (kind.key v) [] at_signal

  abbrev pub at_result : BatchState V
  at_result = complete kind at_receipt

pub to_result :
    Reach version_batch
      (at_start version_batch first_version)
      (at_result version_batch first_version)
unfolding begin start_child end_page record_completion delete_record complete drain any
to_result =
    let k = version_batch in
    let v = first_version in
    next (at_start k v) (at_child k v) (at_result k v) (fills (at_start k v) v [] refl refl) (
      next (at_child k v) (at_end k v) (at_result k v) (ends (at_child k v) refl) (
        next (at_end k v) (at_signal k v) (at_result k v) (signals (at_end k v) (k.key v) refl) (
          next (at_signal k v) (at_receipt k v) (at_result k v)
            (receives (at_signal k v) (k.key v) [] tt refl)
            (next (at_receipt k v) (at_result k v) (at_result k v)
              (completes (at_receipt k v) refl refl) (here (at_result k v))))))

to_child :
    Reach version_batch
      (at_start version_batch first_version)
      (at_child version_batch first_version)
unfolding begin start_child
to_child =
    let k = version_batch in
    let v = first_version in
    next (at_start k v) (at_child k v) (at_child k v) (fills (at_start k v) v [] refl refl)
      (here (at_child k v))

completed_lem_example :
    (1 ≡ length (first_version ∷ []))
    × ((at_result version_batch first_version).children ≡ codes "1.12-7" ∷ [])
unfolding begin start_child end_page record_completion delete_record complete drain any
completed_lem_example =
    completed_lem version_batch version_batch-BatchLaws (first_version ∷ []) (pos 10)
      (at_result version_batch first_version) 1 (refl, tt) to_result refl

current_bounded_example :
    (length (at_child version_batch first_version).current
      ≤ (at_child version_batch first_version).window)
    × ((at_child version_batch first_version).offset
        ≤ length (at_child version_batch first_version).versions)
unfolding any
current_bounded_example =
    current_bounded version_batch version_batch-BatchLaws (first_version ∷ []) (pos 10)
      (at_child version_batch first_version) (refl, tt) to_child

can_complete_example :
    (u : BatchState VersionInfo) × Reach version_batch (at_child version_batch first_version) u
    × (u.phase ≡ completed 1)
unfolding any begin start_child
can_complete_example =
    can_complete version_batch version_batch-BatchLaws (first_version ∷ []) (pos 10)
      (at_child version_batch first_version) (refl, tt) to_child (λ e. cc)

abbrev fetched_one : FetchVersionsForEnrichmentOutput
fetched_one = record { versions = to_enrich ∷ []; git_repositories = none }

to_finished : EnrichmentReach (ok fetched_one) fetching (finished 1 1)
unfolding begin start_child end_page record_completion delete_record complete drain any
to_finished =
    let e = enrichment_batch in
    let c = changelog_batch in
    let v = to_enrich in
    let f = finished 1 1 in
    goes fetching (enriching (at_start e v)) f (starts fetched_one refl (λ h. cc)) (
      goes (enriching (at_start e v)) (enriching (at_child e v)) f
        (enriches (at_start e v) (at_child e v) (fills (at_start e v) v [] refl refl))
        (goes (enriching (at_child e v)) (enriching (at_end e v)) f
          (enriches (at_child e v) (at_end e v) (ends (at_child e v) refl))
          (goes (enriching (at_end e v)) (enriching (at_signal e v)) f
            (enriches (at_end e v) (at_signal e v) (signals (at_end e v) (e.key v) refl))
            (goes (enriching (at_signal e v)) (enriching (at_receipt e v)) f
              (enriches (at_signal e v) (at_receipt e v)
                (receives (at_signal e v) (e.key v) [] tt refl))
              (goes (enriching (at_receipt e v)) (enriching (at_result e v)) f
                (enriches (at_receipt e v) (at_result e v) (completes (at_receipt e v) refl refl))
                (goes (enriching (at_result e v)) (computing 1 (at_start c v)) f
                  (enriched (at_result e v) 1 fetched_one refl refl) (to_computed f)))))))
  where
    to_computed :
        (f : EnrichmentPhase)
        → EnrichmentReach
            (ok fetched_one)
            (computing 1 (at_start changelog_batch to_enrich))
            (finished 1 1)
    to_computed f =
        let c = changelog_batch in
        let v = to_enrich in
        let g = finished 1 1 in
        goes (computing 1 (at_start c v)) (computing 1 (at_child c v)) g
          (computes 1 (at_start c v) (at_child c v) (fills (at_start c v) v [] refl refl))
          (goes (computing 1 (at_child c v)) (computing 1 (at_end c v)) g
            (computes 1 (at_child c v) (at_end c v) (ends (at_child c v) refl))
            (goes (computing 1 (at_end c v)) (computing 1 (at_signal c v)) g
              (computes 1 (at_end c v) (at_signal c v) (signals (at_end c v) (c.key v) refl))
              (goes (computing 1 (at_signal c v)) (computing 1 (at_receipt c v)) g
                (computes 1 (at_signal c v) (at_receipt c v)
                  (receives (at_signal c v) (c.key v) [] tt refl))
                (goes (computing 1 (at_receipt c v)) (computing 1 (at_result c v)) g
                  (computes 1 (at_receipt c v) (at_result c v)
                    (completes (at_receipt c v) refl refl))
                  (goes (computing 1 (at_result c v)) g g (computed 1 1 (at_result c v) refl)
                    (stays g))))))

finished_lem_example : (1 ≡ length (to_enrich ∷ [])) × (1 ≡ length (to_enrich ∷ []))
unfolding any
finished_lem_example = finished_lem fetched_one (refl, tt) 1 1 to_finished
