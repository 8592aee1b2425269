-- ===== src/Workflow/Changelog.antt =====
-- internal/workflow/changelog_batch.go: the changelog of a version, and the batch of such workflows.
use system_of_adownload.Prelude.{
  Bool, List, Option, Text, arith, codes, false, if◌then◌else◌, is_empty, none, pos, refl, some,
  suc, true, zero, ℕ,
}
use system_of_adownload.Activity.Enrichment.{
  VersionForEnrichment, PreviousVersion, get_previous_version_commit,
  check_previous_version_enriched, store_enriched_commit, store_changelog,
}
use system_of_adownload.Activity.Git.{RepoReader}
use system_of_adownload.Db.Models.{Store}
use system_of_adownload.Db.Tx.{other, Result, Db, ◌>>=◌, ◌>>◌, pure, raise, attempt, Faults}
use system_of_adownload.Domain.Commit.{CommitInfo, no_commit}
use system_of_adownload.Workflow.Batch.{BatchState, BatchKind, Step}
use system_of_adownload.Workflow.Batch.Invariant.{BatchLaws}
use system_of_adownload.Workflow.Enrich.{EnrichVersionInput}
use system_of_adownload.Workflow.Index.{signalled}
use system_of_adownload.Workflow.Submodules.{changelog_from}

-- `ChangelogBatchWorkflow`: its constants, and the input of its next run.
abbrev pub changelog_batch : BatchKind VersionForEnrichment
changelog_batch = record {
  page_size = 50;
  default_window = 5;
  key = λ v. v.version;
  next_input = λ s. record {
    versions = s.versions;
    window_size = pos s.window;
    offset = s.offset;
    progress = s.progress;
    current_records = s.current;
  };
}

pub changelog_batch-BatchLaws : BatchLaws changelog_batch
changelog_batch-BatchLaws = record {
  has_page = omega arith;
  has_window = omega arith;
  keeps_window = λ s. refl;
  keeps_progress = λ s. refl;
  keeps_records = λ s. refl;
  keeps_rest = λ s. refl;
  keeps_range = λ s h. h;
}

-- The steps of `execute` and what it calls.
abbrev ChangelogBatchStep :
    BatchState VersionForEnrichment → BatchState VersionForEnrichment → Type 0
ChangelogBatchStep = Step changelog_batch

-- `ChangelogVersionInput` has the fields of `EnrichVersionInput`.
abbrev ChangelogVersionInput : Type 0
ChangelogVersionInput = EnrichVersionInput

abbrev poll_max_attempts : ℕ
poll_max_attempts = 20

-- The second reading decodes into the value of the first: what it leaves out stays, of which the
-- workflow uses these two.
abbrev read_again : CommitInfo → CommitInfo → CommitInfo
read_again old new = record new {
  repository = if is_empty new.repository then old.repository else new.repository;
  submodules = if is_empty new.submodules then old.submodules else new.submodules;
}

-- `others i`: what the other workflows make of the database during the sleep after poll `i`.
module _ (fails : Faults) (cache : RepoReader) (others : ℕ → Store → Store) (now : Text) where
  -- The loop of `waitForPredecessorEnrichment`, from attempt `call` on, with the attempts left.
  unfoldable wait_for_predecessor : ℕ → ℕ → ℕ → Db Bool
  unfolding check_previous_version_enriched
  wait_for_predecessor zero call version = pure false
  wait_for_predecessor (suc attempts) call version = do
    enriched ← check_previous_version_enriched fails call version
    elim enriched [
      | true ↦ pure true
      | false ↦ (λ s. wait_for_predecessor attempts (suc call) version (others call s))
    ]

  -- `markPendingPredecessor`
  unfoldable mark_pending_predecessor : ChangelogVersionInput → Db (Unit {0})
  unfolding store_enriched_commit
  mark_pending_predecessor input =
      attempt (
        store_enriched_commit fails input.version_id (record no_commit {
          sha = input.commit_sha;
          repository = input.repository;
          enriched_at = now;
          changelog_status = codes "pending_predecessor";
        }))
      >> pure tt

  -- Steps 3 to 6
  unfoldable store_changelog_from : ChangelogVersionInput → CommitInfo → Db (Unit {0})
  unfolding changelog_from store_changelog
  store_changelog_from input prev = elim (changelog_from cache input prev) [
    | none ↦ raise other
    | some c ↦ store_changelog fails input.version_id c
  ]

  -- After the wait of step 2; when the second reading finds no version, the code's nil pointer ends
  -- the task, here with an error.
  abbrev after_wait : ChangelogVersionInput → CommitInfo → Bool → Db (Unit {0})
  after_wait input prev false = mark_pending_predecessor input
  after_wait input prev true = do
    p ← get_previous_version_commit fails 1 input.artifact_id input.sort_order
    elim p [
      | none ↦ raise other
      | some q ↦ store_changelog_from input (read_again prev q.commit_info)
    ]

  -- Step 2
  abbrev after_previous : ChangelogVersionInput → Option PreviousVersion → Db (Unit {0})
  after_previous input none = pure tt
  after_previous input (some p) =
      if is_empty p.commit_info.sha
      then pure tt
      else if is_empty p.commit_info.enriched_at
      then (wait_for_predecessor poll_max_attempts 0 p.id >>= after_wait input p.commit_info)
      else store_changelog_from input p.commit_info

  -- `changelogVersionWork`
  unfoldable changelog_version_work : ChangelogVersionInput → Db (Unit {0})
  unfolding get_previous_version_commit wait_for_predecessor mark_pending_predecessor
      store_changelog_from
  changelog_version_work input = do
    p ← get_previous_version_commit fails 0 input.artifact_id input.sort_order
    after_previous input p

  -- `ChangelogVersionWorkflow`: the parent is sent a signal in every case.
  abbrev changelog_version_workflow :
      Bool → ChangelogVersionInput → Store → Result (Unit {0}) × Store × List Text
  changelog_version_workflow has_parent input s =
      signalled has_parent input.version (changelog_version_work input s)
