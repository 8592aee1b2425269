-- ===== src/Workflow/Index.antt =====
-- internal/workflow/version_index.go and version_batch_index.go: the indexing of a version's assets
-- and commit, and the batch of such workflows. An activity's result is that of its last attempt.
use system_of_adownload.Prelude.{
  Bool, List, Option, Text, [], arith, drop, false, if◌then◌else◌, none, pos, refl, some, true, ℕ,
  ◌∷◌,
}
use system_of_adownload.Activity.Index.{
  JarCommitCandidate, pick_best_jar_candidate, Download, extract_commit_from_jar,
  store_version_assets, store_commit_info,
}
use system_of_adownload.Activity.Sync.{VersionInfo}
use system_of_adownload.Db.Models.{Store}
use system_of_adownload.Db.Tx.{Result, ok, err, Db, ◌>>=◌, pure, raise, Faults}
use system_of_adownload.Domain.Commit.{AssetInfo, CommitInfo}
use system_of_adownload.Workflow.Batch.{BatchState, BatchKind, Step}
use system_of_adownload.Workflow.Batch.Invariant.{BatchLaws}

-- `VersionIndexOutput`
record VersionIndexOutput : Type 0 where
  pub assets_stored : ℕ
  pub commit_found : Bool

-- `VersionBatchIndexWorkflow`: its constants, and the input of its next run, which is given the
-- versions that are left.
abbrev pub version_batch : BatchKind VersionInfo
version_batch = record {
  page_size = 50;
  default_window = 10;
  key = λ v. v.version;
  next_input = λ s. record {
    versions = drop s.offset s.versions;
    window_size = pos s.window;
    offset = 0;
    progress = s.progress;
    current_records = s.current;
  };
}

pub version_batch-BatchLaws : BatchLaws version_batch
version_batch-BatchLaws = record {
  has_page = omega arith;
  has_window = omega arith;
  keeps_window = λ s. refl;
  keeps_progress = λ s. refl;
  keeps_records = λ s. refl;
  keeps_rest = λ s. refl;
  keeps_range = λ s h. omega arith;
}

-- The steps of `execute` and what it calls.
abbrev VersionBatchStep : BatchState VersionInfo → BatchState VersionInfo → Type 0
VersionBatchStep = Step version_batch

-- `sonatype`: what `FetchVersionAssets` gives; `download`: what a request for a jar gives.
module _ (fails : Faults) (sonatype : Text → Text → Text → Result (List AssetInfo))
    (download : Text → Result Download) where
  -- The rest of step 4, after `ExtractCommitFromJar`.
  abbrev store_extracted : Text → Text → Text → ℕ → Option CommitInfo → Db VersionIndexOutput
  store_extracted group artifact version n none =
      pure (record { assets_stored = n; commit_found = false })
  store_extracted group artifact version n (some c) = do
    _ ← store_commit_info fails group artifact version c
    pure (record { assets_stored = n; commit_found = true })

  abbrev from_result {ℓ} : {A : Type ℓ} → Result A → Db A
  from_result (ok a) = pure a
  from_result (err e) = raise e

  -- Step 4
  abbrev extract_commit : Text → Text → Text → ℕ → Option JarCommitCandidate → Db VersionIndexOutput
  extract_commit group artifact version n none =
      pure (record { assets_stored = n; commit_found = false })
  extract_commit group artifact version n (some jar) = do
    c ← from_result (extract_commit_from_jar (download jar.download_url))
    store_extracted group artifact version n c

  -- The steps after `FetchVersionAssets`; a version without assets is left as it is.
  unfoldable index_assets : Text → Text → Text → List AssetInfo → Db VersionIndexOutput
  unfolding store_version_assets pick_best_jar_candidate extract_commit_from_jar store_commit_info
  index_assets group artifact version [] = pure (record { assets_stored = 0; commit_found = false })
  index_assets group artifact version (a ∷ assets) = do
    n ← store_version_assets fails group artifact version (a ∷ assets)
    extract_commit group artifact version n (pick_best_jar_candidate (a ∷ assets))

  -- `versionIndexWork`
  unfoldable version_index_work : Text → Text → Text → Db VersionIndexOutput
  unfolding index_assets
  version_index_work group artifact version = do
    assets ← from_result (sonatype group artifact version)
    index_assets group artifact version assets

-- `VersionIndexWorkflow`: the result, and the signal that a parent is sent in every case.
abbrev pub signalled {ℓ} :
    {A : Type ℓ} → Bool → Text → Result A × Store → Result A × Store × List Text
signalled has_parent version (r, s) = (r, s, if has_parent then version ∷ [] else [])

module _ (fails : Faults) (sonatype : Text → Text → Text → Result (List AssetInfo))
    (download : Text → Result Download) where
  abbrev version_index_workflow :
      Bool → Text → Text → Text → Store → Result VersionIndexOutput × Store × List Text
  version_index_workflow has_parent group artifact version s =
      signalled has_parent version
        (version_index_work fails sonatype download group artifact version s)
