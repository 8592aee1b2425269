-- ===== src/Workflow/CommitEnrichment.antt =====
-- internal/workflow/commit_enrichment.go: the two batches, one after the other. `fetched` is what
-- `FetchVersionsForEnrichment` gives.
use mathlib.Core.Path.{subst}
use system_of_adownload.Prelude.{List, [], ap, length, map, pos, sym, ℕ, ◌∙◌, ◌≡◌, ◌≢◌, ◌≤◌}
use system_of_adownload.Activity.Enrichment.{VersionForEnrichment, FetchVersionsForEnrichmentOutput}
use system_of_adownload.Db.Tx.{Error, Result, ok, err}
use system_of_adownload.Workflow.Batch.{completed, failed, BatchState, Step, Reach, here, next}
use system_of_adownload.Workflow.Batch.Reachable.{
  compose, first_run, current_bounded, completed_lem,
}
use system_of_adownload.Workflow.Batch.Sets.{IsSetOf}
use system_of_adownload.Workflow.Changelog.{changelog_batch, changelog_batch-BatchLaws}
use system_of_adownload.Workflow.Enrich.{enrichment_batch, enrichment_batch-BatchLaws}

-- Where the workflow is, with the state of the batch that it waits for.
pub data EnrichmentPhase : Type 0 where
  fetching : EnrichmentPhase
  enriching : BatchState VersionForEnrichment → EnrichmentPhase
  computing : ℕ → BatchState VersionForEnrichment → EnrichmentPhase
  finished : ℕ → ℕ → EnrichmentPhase
  broken : EnrichmentPhase

-- The first runs of the batches, with the constants that they are given.
abbrev first_enrichment : List VersionForEnrichment → BatchState VersionForEnrichment
first_enrichment versions = first_run enrichment_batch versions (pos 5)

abbrev pub first_changelogs : List VersionForEnrichment → BatchState VersionForEnrichment
first_changelogs versions = first_run changelog_batch versions (pos 5)

module _ (fetched : Result FetchVersionsForEnrichmentOutput) where
  -- `CommitEnrichmentWorkflow`
  pub data EnrichmentStep : EnrichmentPhase → EnrichmentPhase → Type 0 where
    fetch_fails : (e : Error) → fetched ≡ err e → EnrichmentStep fetching broken
    has_none :
        (out : FetchVersionsForEnrichmentOutput)
        → fetched ≡ ok out
        → out.versions ≡ []
        → EnrichmentStep fetching (finished 0 0)
    starts :
        (out : FetchVersionsForEnrichmentOutput)
        → fetched ≡ ok out
        → out.versions ≢ []
        → EnrichmentStep fetching (enriching (first_enrichment out.versions))
    enriches :
        (s t : BatchState VersionForEnrichment)
        → Step enrichment_batch s t
        → EnrichmentStep (enriching s) (enriching t)
    enrichment_fails :
        (s : BatchState VersionForEnrichment)
        → s.phase ≡ failed
        → EnrichmentStep (enriching s) broken
    enriched :
        (s : BatchState VersionForEnrichment) (n : ℕ) (out : FetchVersionsForEnrichmentOutput)
        → s.phase ≡ completed n
        → fetched ≡ ok out
        → EnrichmentStep (enriching s) (computing n (first_changelogs out.versions))
    computes :
        (n : ℕ) (s t : BatchState VersionForEnrichment)
        → Step changelog_batch s t
        → EnrichmentStep (computing n s) (computing n t)
    changelogs_fail :
        (n : ℕ) (s : BatchState VersionForEnrichment)
        → s.phase ≡ failed
        → EnrichmentStep (computing n s) broken
    computed :
        (n m : ℕ) (s : BatchState VersionForEnrichment)
        → s.phase ≡ completed m
        → EnrichmentStep (computing n s) (finished n m)

  pub data EnrichmentReach : EnrichmentPhase → EnrichmentPhase → Type 0 where
    stays : (s : EnrichmentPhase) → EnrichmentReach s s
    goes :
        (s t u : EnrichmentPhase) → EnrichmentStep s t → EnrichmentReach t u → EnrichmentReach s u

module _ (out : FetchVersionsForEnrichmentOutput)
    (u : IsSetOf (map (λ v. v.version) out.versions)) where
  -- A batch is a reachable one of the versions; the enrichment has run over all of them before the
  -- changelogs start, and each count is that of the versions.
  abbrev IsOn : EnrichmentPhase → Type 0
  IsOn fetching = Unit
  IsOn (enriching s) = Reach enrichment_batch (first_enrichment out.versions) s
  IsOn (computing n s) =
      (n ≡ length out.versions) × Reach changelog_batch (first_changelogs out.versions) s
  IsOn (finished n m) = (n ≡ length out.versions) × (m ≡ length out.versions)
  IsOn broken = Unit

  same_out : (out' : FetchVersionsForEnrichmentOutput) → ok out ≡ ok out' → out ≡ out'
  same_out out' e = ap (λ r. elim r [ ok o ↦ o | err x ↦ out ]) e

  step-IsOn : (s t : EnrichmentPhase) → EnrichmentStep (ok out) s t → IsOn s → IsOn t
  step-IsOn s t (fetch_fails e h) r = tt
  step-IsOn s t (has_none out' h n) r =
      let e = ap (λ o. length o.versions) (same_out out' h) ∙ ap length n in (sym e, sym e)
  step-IsOn s t (starts out' h n) r =
      subst
        (λ o. Reach enrichment_batch (first_enrichment out.versions) (first_enrichment o.versions))
        (same_out out' h) (here (first_enrichment out.versions))
  step-IsOn s t (enriches a b step) r =
      compose enrichment_batch (first_enrichment out.versions) a b r (next a b b step (here b))
  step-IsOn s t (enrichment_fails a h) r = tt
  step-IsOn s t (enriched a n out' h e) r = (
    (completed_lem enrichment_batch enrichment_batch-BatchLaws out.versions (pos 5) a n u r h).0,
    subst (λ o. Reach changelog_batch (first_changelogs out.versions) (first_changelogs o.versions))
        (same_out out' e) (here (first_changelogs out.versions)),
  )
  step-IsOn s t (computes n a b step) r = (
    r.0,
    compose changelog_batch (first_changelogs out.versions) a b r.1 (next a b b step (here b)),
  )
  step-IsOn s t (changelogs_fail n a h) r = tt
  step-IsOn s t (computed n m a h) r = (
    r.0,
    (completed_lem changelog_batch changelog_batch-BatchLaws out.versions (pos 5) a m u r.1 h).0,
  )

  reach-IsOn : (s t : EnrichmentPhase) → EnrichmentReach (ok out) s t → IsOn s → IsOn t
  reach-IsOn s t (stays _) r = r
  reach-IsOn s t (goes _ m _ step path) r = reach-IsOn m t path (step-IsOn s m step r)

  -- When the enrichment workflow of different versions ends with a result, each of its two counts is
  -- the number of the versions that it fetched.
  pub finished_lem :
      (n m : ℕ)
      → EnrichmentReach (ok out) fetching (finished n m)
      → (n ≡ length out.versions) × (m ≡ length out.versions)
  finished_lem n m path = reach-IsOn fetching (finished n m) path tt

  -- While the changelogs are computed, the enrichment has counted all the versions, and no more than
  -- the window of 5 is in progress.
  pub computing_lem :
      (n : ℕ) (s : BatchState VersionForEnrichment)
      → EnrichmentReach (ok out) fetching (computing n s)
      → (n ≡ length out.versions) × (length s.current ≤ s.window)
  computing_lem n s path =
      let (e, r) = reach-IsOn fetching (computing n s) path tt in
      (e, (current_bounded changelog_batch changelog_batch-BatchLaws out.versions (pos 5) s u r).0)
