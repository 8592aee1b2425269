-- ===== src/Activity/Git.antt =====
-- internal/activity/git_activities.go: the activities on repositories, and gitcache.RepoReader, the
-- interface that they call (internal/gitcache/repo.go). Within one workflow, a call that is repeated
-- gives what it gave. No caller looks at an error.
use system_of_adownload.Prelude.{Bool, List, Option, Text, map, none, some}

-- gitcache.CommitDetails
pub record CommitDetails : Type 0 where
  pub sha : Text
  pub message : Text
  pub body : Text
  pub author_name : Text
  pub author_email : Text
  pub commit_date : Text

-- gitcache.SubmoduleRef
pub record SubmoduleRef : Type 0 where
  pub path : Text
  pub url : Text
  pub sha : Text

-- gitcache.RepoReader: of a repository's URL, its path; of a path and a commit, what is there.
pub record RepoReader : Type 0 where
  pub ensure_cloned : Text → Option Text
  pub resolve_repo : Text → Option Text
  pub commit_details : Text → Text → Option CommitDetails
  pub submodules : Text → Text → Option (List SubmoduleRef)
  pub changelog_between : Text → Text → Text → Option (List CommitDetails × Bool)

-- `ChangelogCommit`
pub record ChangelogCommit : Type 0 where
  pub sha : Text
  pub message : Text
  pub author_name : Text
  pub author_email : Text
  pub commit_date : Text

-- `ComputeChangelogOutput`
pub record ComputeChangelogOutput : Type 0 where
  pub commits : List ChangelogCommit
  pub truncated : Bool

abbrev to_changelog_commit : CommitDetails → ChangelogCommit
to_changelog_commit c = record {
  sha = c.sha;
  message = c.message;
  author_name = c.author_name;
  author_email = c.author_email;
  commit_date = c.commit_date;
}

module _ (cache : RepoReader) where
  -- `EnsureRepoCloned`
  abbrev pub ensure_repo_cloned : Text → Option Text
  ensure_repo_cloned url = cache.ensure_cloned url

  -- `ResolveRepo`
  abbrev pub resolve_repo_path : Text → Option Text
  resolve_repo_path url = cache.resolve_repo url

  -- `GetCommitDetails`
  abbrev pub get_commit_details : Text → Text → Option CommitDetails
  get_commit_details path sha = cache.commit_details path sha

  -- `ResolveSubmodules`
  abbrev pub resolve_submodules : Text → Text → Option (List SubmoduleRef)
  resolve_submodules path sha = cache.submodules path sha

  -- `ComputeChangelog`
  abbrev pub compute_changelog : Text → Text → Text → Option ComputeChangelogOutput
  compute_changelog path from to = elim (cache.changelog_between path from to) [
    | none ↦ none
    | some (commits, truncated) ↦
        some (record { commits = map to_changelog_commit commits; truncated = truncated })
  ]
