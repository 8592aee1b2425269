-- ===== src/Gitcache.antt =====
-- internal/gitcache: what the two readers make of a repository. What git prints and what go-git reads
-- are parameters, and so are the file system and package url; the commands, the locks and the
-- telemetry are left out. Of an error there is that it is one, so that a failed read is `none`.
pub mod Modules
pub mod Shell
pub mod GoGit
pub mod Lines
pub mod Printed
pub mod Trees
pub mod Clones
pub mod Laws
use system_of_adownload.Prelude.{
  Bool, List, Option, Text, [], codes, cut_at, drop, false, has_prefix, if◌then◌else◌, is_empty,
  length, ltb, none, some, take, text_eq, true, ℕ, ◌++◌, ◌∷◌,
}
use system_of_adownload.Activity.Git.{CommitDetails}
use system_of_adownload.Domain.Commit.{trim_suffix}
use system_of_adownload.Prelude.Rows.{any}

-- `MaxChangelogCommits`
abbrev pub max_changelog_commits : ℕ
max_changelog_commits = 500

-- The end of both `ComputeChangelog`: what is over the maximum is cut off.
abbrev pub capped : List CommitDetails → List CommitDetails × Bool
capped result =
    if ltb max_changelog_commits (length result)
    then (take max_changelog_commits result, true)
    else (result, false)

-- `strings.TrimPrefix`
abbrev trim_prefix : Text → Text → Text
trim_prefix s p = if has_prefix s p then drop (length p) s else s

-- The parameters: the host and the path that `url.Parse` finds, and `filepath.Join`.
module _ (parse : Text → Option (Text × Text)) (join : Text → Text → Text → Text)
    (base_dir : Text) where
  -- `repoPath`
  unfoldable pub repo_path : Text → Option Text
  unfolding has_prefix trim_suffix
  repo_path url = elim (parse url) [
    | none ↦ none
    | some (host, path) ↦ some (
        join base_dir (if is_empty host then codes "unknown" else host)
          (trim_suffix (codes ".git") (trim_prefix path (codes "/")) ++ codes ".git"))
  ]

  -- The clones on the disk: the paths with a HEAD. `clone` says whether making the directory and
  -- cloning succeed, `fetch` whether fetching does.
  module _ (clone fetch : Text → Text → Bool) where
    abbrev pub cloned_at : Text → List Text → Text → Option Text × List Text
    cloned_at url repos path =
        if any (λ p. text_eq p path) repos
        then (if fetch url path then some path else none, repos)
        else if clone url path
        then (some path, path ∷ repos)
        else (none, repos)

    abbrev pub ensured : Text → List Text → Option Text → Option Text × List Text
    ensured url repos none = (none, repos)
    ensured url repos (some path) = cloned_at url repos path

    -- `EnsureCloned`
    unfoldable pub ensure_cloned : Text → List Text → Option Text × List Text
    unfolding repo_path any
    ensure_cloned url repos = ensured url repos (repo_path url)

  abbrev pub resolved : List Text → Option Text → Option Text
  resolved repos none = none
  resolved repos (some path) = if any (λ p. text_eq p path) repos then some path else none

  -- `ResolveRepo`
  unfoldable pub resolve_repo : Text → List Text → Option Text
  unfolding repo_path any
  resolve_repo url repos = resolved repos (repo_path url)
