-- ===== src/Workflow/Submodules.antt =====
-- internal/workflow/changelog_batch.go: the changelog between two commits and those of their
-- submodules.
use system_of_adownload.Prelude.{
  Bool, List, Option, Text, [], if◌then◌else◌, is_empty, map, none, not, some, suc, text_eq, zero,
  ℕ, ◌&&◌, ◌∷◌,
}
use system_of_adownload.Activity.Git.{
  SubmoduleRef, RepoReader, ChangelogCommit, resolve_repo_path, resolve_submodules,
  compute_changelog,
}
use system_of_adownload.Domain.Commit.{
  SubmoduleCommit, CommitSummary, Changelog, changelog, Changelogs, no_submodules, submodule,
  CommitInfo, commit_url,
}
use system_of_adownload.Prelude.Map.{Map, lookup}
use system_of_adownload.Workflow.Enrich.{EnrichVersionInput, submodule_shas, or_empty}

abbrev max_submodule_depth : ℕ
max_submodule_depth = 3

abbrev to_commit_summary : Text → ChangelogCommit → CommitSummary
to_commit_summary repo c = record {
  sha = c.sha;
  url = commit_url repo c.sha;
  message = c.message;
  author = some (record { name = c.author_name; email = c.author_email });
  commit_date = c.commit_date;
}

-- `toCommitSummaries`
unfoldable to_commit_summaries : List ChangelogCommit → Text → List CommitSummary
unfolding commit_url
to_commit_summaries commits repo = map (to_commit_summary repo) commits

-- `result[key] = changelog` on the map of the submodules' changelogs.
unfoldable insert_changelog : Text → Changelog → Changelogs → Changelogs
insert_changelog k c no_submodules = submodule k c no_submodules
insert_changelog k c (submodule j d rest) =
    if text_eq j k then submodule k c rest else submodule j d (insert_changelog k c rest)

-- The submodules of a nested previous commit: their repository and sha.
abbrev nested_sub : SubmoduleRef → SubmoduleCommit
nested_sub r = record {
  repository = r.url;
  sha = r.sha;
  url = [];
  message = [];
  author = none;
  commit_date = [];
}

-- `currentRepo`
abbrev current_repo : EnrichVersionInput → CommitInfo → Text
current_repo input prev =
    if is_empty input.repository
    then elim input.git_repositories [
      | [] ↦ []
      | r ∷ rs ↦ if is_empty prev.repository then r else prev.repository
    ]
    else input.repository

-- `sameRepo`
abbrev same_repo : Text → Text → Bool
same_repo prev current = not (is_empty prev) && not (is_empty current) && text_eq prev current

module _ (cache : RepoReader) where
  -- A submodule with the depth that is left, once the two commits are known: `nested` is what the
  -- recursive call makes of the submodule's own submodules.
  abbrev nested_changelogs :
      (Text → Text → List SubmoduleCommit → Changelogs) → Text → Text → Text → Text → Changelogs
  nested_changelogs recur url path sha prev_sha =
      elim (or_empty (resolve_submodules cache path sha)) [
        | [] ↦ no_submodules
        | r ∷ rs ↦ elim (or_empty (resolve_submodules cache path prev_sha)) [
          | [] ↦ no_submodules
          | q ∷ qs ↦ recur url sha (map nested_sub (q ∷ qs))
        ]
      ]

  -- The body of the loop over the submodules, for one whose previous sha is known.
  abbrev add_changelog :
      (Text → Text → List SubmoduleCommit → Changelogs)
      → SubmoduleRef
      → Text
      → Changelogs
      → Changelogs
  add_changelog recur sub prev_sha result = elim (resolve_repo_path cache sub.url) [
    | none ↦ result
    | some path ↦ elim (compute_changelog cache path prev_sha sub.sha) [
      | none ↦ result
      | some out ↦
          if is_empty out.commits
          then result
          else insert_changelog sub.url
              (changelog prev_sha (to_commit_summaries out.commits sub.url)
                (nested_changelogs recur sub.url path sub.sha prev_sha))
              result
    ]
  ]

  -- The loop: a submodule that is new or unchanged is passed over.
  unfoldable each_submodule :
      (Text → Text → List SubmoduleCommit → Changelogs)
      → Map Text
      → List SubmoduleRef
      → Changelogs
      → Changelogs
  unfolding lookup insert_changelog to_commit_summaries
  each_submodule recur shas [] result = result
  each_submodule recur shas (sub ∷ subs) result =
      each_submodule recur shas subs (elim (lookup sub.url shas) [
        | none ↦ result
        | some prev_sha ↦
            if text_eq prev_sha sub.sha then result else add_changelog recur sub prev_sha result
      ])

  -- `computeSubmoduleChangelogsWithDepth`, on `max_submodule_depth - depth`, of the submodules of the
  -- previous commit.
  unfoldable submodule_changelogs : ℕ → Text → Text → List SubmoduleCommit → Changelogs
  unfolding each_submodule submodule_shas
  submodule_changelogs zero repo sha prev = no_submodules
  submodule_changelogs (suc depth) repo sha [] = no_submodules
  submodule_changelogs (suc depth) repo sha (p ∷ prev) = elim (resolve_repo_path cache repo) [
    | none ↦ no_submodules
    | some path ↦ elim (resolve_submodules cache path sha) [
      | none ↦ no_submodules
      | some refs ↦
          each_submodule (submodule_changelogs depth) (submodule_shas (p ∷ prev) []) refs
            no_submodules
    ]
  ]

  -- Step 4: an error of the log leaves the changelog without commits, one of the repository ends it.
  unfoldable main_commits : Text → Text → CommitInfo → Option (List CommitSummary)
  unfolding to_commit_summaries
  main_commits current sha prev =
      if same_repo prev.repository current
      then elim (resolve_repo_path cache current) [
        | none ↦ none
        | some path ↦ elim (compute_changelog cache path prev.sha sha) [
          | none ↦ some []
          | some out ↦ some (to_commit_summaries out.commits current)
        ]
      ]
      else some []

  -- Steps 3 to 6, up to the storing: the changelog from the previous commit to the version's.
  unfoldable pub changelog_from : EnrichVersionInput → CommitInfo → Option Changelog
  unfolding main_commits submodule_changelogs
  changelog_from input prev =
      let repo = current_repo input prev in
      elim (main_commits repo input.commit_sha prev) [
        | none ↦ none
        | some commits ↦ some (
            changelog prev.sha commits
              (submodule_changelogs max_submodule_depth repo input.commit_sha prev.submodules))
      ]
