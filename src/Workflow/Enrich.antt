-- ===== src/Workflow/Enrich.antt =====
-- internal/workflow/enrichment_batch.go: the enrichment of a version's commit, and the batch of such
-- workflows. `now` is the time of the workflow, as it is formatted.
use system_of_adownload.Prelude.{
  Bool, List, Option, Text, [], arith, codes, if◌then◌else◌, is_empty, none, not, pos, refl, some,
  text_eq, true, ℕ, ℤ, ◌∷◌,
}
use system_of_adownload.Activity.Enrichment.{
  VersionForEnrichment, PreviousVersion, get_previous_version_commit, store_enriched_commit,
}
use system_of_adownload.Activity.Git.{
  CommitDetails, SubmoduleRef, RepoReader, ensure_repo_cloned, get_commit_details,
  resolve_submodules,
}
use system_of_adownload.Db.Models.{Store}
use system_of_adownload.Db.Tx.{Result, ok, err, Db, ◌>>=◌, ◌>>◌, pure, attempt, Faults}
use system_of_adownload.Domain.Commit.{
  CommitAuthor, SubmoduleCommit, CommitInfo, no_commit, commit_url,
}
use system_of_adownload.Prelude.Map.{Map, lookup, insert}
use system_of_adownload.Prelude.Rows.{any, select}
use system_of_adownload.Workflow.Batch.{BatchKind}
use system_of_adownload.Workflow.Batch.Invariant.{BatchLaws}
use system_of_adownload.Workflow.Index.{signalled}

-- `EnrichVersionInput`; a nil slice of repositories is an empty one.
pub record EnrichVersionInput : Type 0 where
  pub version_id : ℕ
  pub artifact_id : ℕ
  pub version : Text
  pub sort_order : ℤ
  pub commit_sha : Text
  pub repository : Text
  pub git_repositories : List Text

-- `EnrichmentBatchWorkflow`: its constants, and the input of its next run.
abbrev pub enrichment_batch : BatchKind VersionForEnrichment
enrichment_batch = record {
  page_size = 50;
  default_window = 5;
  key = λ v. v.version;
  next_input = λ s. record {
    versions = s.versions;
    window_size = pos s.window;
    offset = s.offset;
    progress = s.progress;
    current_records = s.current;
  };
}

pub enrichment_batch-BatchLaws : BatchLaws enrichment_batch
enrichment_batch-BatchLaws = record {
  has_page = omega arith;
  has_window = omega arith;
  keeps_window = λ s. refl;
  keeps_progress = λ s. refl;
  keeps_records = λ s. refl;
  keeps_rest = λ s. refl;
  keeps_range = λ s h. h;
}

-- The input of a version's child.
abbrev child_input : List Text → VersionForEnrichment → EnrichVersionInput
child_input repositories v = record {
  version_id = v.id;
  artifact_id = v.artifact_id;
  version = v.version;
  sort_order = v.sort_order;
  commit_sha = v.commit_sha;
  repository = v.repository;
  git_repositories = repositories;
}

-- `reposToTry`: the commit's repository first, unless it is registered.
unfoldable repos_to_try : Text → List Text → List Text
unfolding any
repos_to_try repository registered =
    if is_empty repository
    then registered
    else if any (λ r. text_eq r repository) registered
    then registered
    else repository ∷ registered

-- What the loop over the repositories finds: the repository, its path and the commit.
record FoundCommit : Type 0 where
  pub repo : Text
  pub path : Text
  pub details : CommitDetails

-- The last submodule of a repository is the one that is looked up.
unfoldable pub submodule_shas : List SubmoduleCommit → Map Text → Map Text
unfolding insert
submodule_shas [] m = m
submodule_shas (sub ∷ subs) m = submodule_shas subs (insert sub.repository sub.sha m)

abbrev is_changed : Map Text → SubmoduleRef → Bool
is_changed shas sub = elim (lookup sub.url shas) [
  | none ↦ true
  | some sha ↦ not (text_eq sha sub.sha)
]

-- `changedSubmodules`
unfoldable changed_submodules : Map Text → List SubmoduleRef → List SubmoduleRef
unfolding lookup select
changed_submodules shas refs = select (is_changed shas) refs

abbrev author_of : CommitDetails → CommitAuthor
author_of c = record { name = c.author_name; email = c.author_email }

-- A submodule whose commit is not found is reported by its repository and its sha.
abbrev submodule_commit : SubmoduleRef → Option CommitDetails → SubmoduleCommit
submodule_commit sub none = record {
  repository = sub.url;
  sha = sub.sha;
  url = commit_url sub.url sub.sha;
  message = [];
  author = none;
  commit_date = [];
}
submodule_commit sub (some c) = record {
  repository = sub.url;
  sha = c.sha;
  url = commit_url sub.url c.sha;
  message = c.message;
  author = some (author_of c);
  commit_date = c.commit_date;
}

-- The commit that is stored when no repository has it.
abbrev not_found_commit : Text → EnrichVersionInput → CommitInfo
not_found_commit now input = record no_commit {
  sha = input.commit_sha;
  repository = input.repository;
  enriched_at = now;
  changelog_status = codes "error_commit_not_found";
}

abbrev enriched_commit : Text → FoundCommit → List SubmoduleCommit → CommitInfo
enriched_commit now f subs = record no_commit {
  sha = f.details.sha;
  repository = f.repo;
  url = commit_url f.repo f.details.sha;
  message = f.details.message;
  body = f.details.body;
  author = some (author_of f.details);
  commit_date = f.details.commit_date;
  submodules = subs;
  enriched_at = now;
}

abbrev pub or_empty {ℓ} : {A : Type ℓ} → Option (List A) → List A
or_empty none = []
or_empty (some xs) = xs

-- An error of the query, and a version that is not found, leave no submodules.
abbrev previous_shas : Result (Option PreviousVersion) → Map Text
previous_shas (err e) = []
previous_shas (ok none) = []
previous_shas (ok (some p)) = submodule_shas p.commit_info.submodules []

module _ (cache : RepoReader) where
  -- The loop over the repositories: the first that can be cloned and has the commit.
  unfoldable find_commit : Text → List Text → Option FoundCommit
  find_commit sha [] = none
  find_commit sha (url ∷ urls) =
      let rest = find_commit sha urls in
      elim (ensure_repo_cloned cache url) [
        | none ↦ rest
        | some p ↦ elim (get_commit_details cache p sha) [
          | none ↦ rest
          | some c ↦ some (record { repo = url; path = p; details = c })
        ]
      ]

  -- The goroutine of a submodule.
  unfoldable enrich_submodule : SubmoduleRef → Option SubmoduleCommit
  unfolding commit_url
  enrich_submodule sub = elim (ensure_repo_cloned cache sub.url) [
    | none ↦ none
    | some p ↦ some (submodule_commit sub (get_commit_details cache p sub.sha))
  ]

  -- `enrichSubmodules`: an error of one is the error of all.
  unfoldable enrich_submodules : List SubmoduleRef → Option (List SubmoduleCommit)
  unfolding enrich_submodule
  enrich_submodules [] = some []
  enrich_submodules (sub ∷ subs) =
      let rest = enrich_submodules subs in
      elim (enrich_submodule sub) [
        | none ↦ none
        | some c ↦ elim rest [ none ↦ none | some cs ↦ some (c ∷ cs) ]
      ]

module _ (fails : Faults) (cache : RepoReader) (now : Text) where
  -- The previous version is asked for when there are submodules.
  abbrev fetch_previous_shas : EnrichVersionInput → List SubmoduleRef → Db (Map Text)
  fetch_previous_shas input [] = pure []
  fetch_previous_shas input (r ∷ refs) = do
    p ← attempt (get_previous_version_commit fails 0 input.artifact_id input.sort_order)
    pure (previous_shas p)

  -- Steps 3 to 5
  unfoldable enrich_found : EnrichVersionInput → FoundCommit → Db (Unit {0})
  unfolding get_previous_version_commit store_enriched_commit changed_submodules enrich_submodules
      submodule_shas
  enrich_found input f = do
    let refs = or_empty (resolve_submodules cache f.path input.commit_sha)
    shas ← fetch_previous_shas input refs
    store_enriched_commit fails input.version_id
        (enriched_commit now f (or_empty (enrich_submodules cache (changed_submodules shas refs))))

  -- The end for an unknown commit: whether it could be stored is not looked at.
  abbrev store_not_found : EnrichVersionInput → Db (Unit {0})
  store_not_found input =
      attempt (store_enriched_commit fails input.version_id (not_found_commit now input)) >> pure tt

  -- `enrichVersionWork`; a repository that is found under the empty name counts as none.
  unfoldable enrich_version_work : EnrichVersionInput → Db (Unit {0})
  unfolding find_commit repos_to_try enrich_found store_enriched_commit
  enrich_version_work input =
      elim (find_commit cache input.commit_sha
        (repos_to_try input.repository input.git_repositories)) [
          | none ↦ store_not_found input
          | some f ↦
              (λ s. if is_empty f.repo then store_not_found input s else enrich_found input f s)
        ]

  -- `EnrichVersionWorkflow`: the parent is sent a signal in every case.
  abbrev enrich_version_workflow :
      Bool → EnrichVersionInput → Store → Result (Unit {0}) × Store × List Text
  enrich_version_workflow has_parent input s =
      signalled has_parent input.version (enrich_version_work input s)
