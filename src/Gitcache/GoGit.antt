-- ===== src/Gitcache/GoGit.antt =====
-- `GoGitReader` of internal/gitcache/gogit.go. A panic that is recovered is an error.
use system_of_adownload.Prelude.{
  Bool, List, Option, Text, [], codes, cut_at, if◌then◌else◌, leb, length, ltb, none, some, suc,
  text_eq, trim_space, ℕ, ◌++◌, ◌∷◌,
}
use system_of_adownload.Activity.Git.{CommitDetails, SubmoduleRef}
use system_of_adownload.Gitcache.{max_changelog_commits, capped}
use system_of_adownload.Gitcache.Modules.{parse_gitmodules}
use system_of_adownload.Gitcache.Shell.{details, ref_with, add_ref}
use system_of_adownload.Prelude.Map.{Map, lookup}
use system_of_adownload.Prelude.Rows.{any}

-- `object.Commit`: the hash as `String()` gives it, and the author's time as `Format` does.
pub record GitCommit : Type 0 where
  pub hash : Text
  pub message : Text
  pub author_name : Text
  pub author_email : Text
  pub date : Text

-- `object.TreeEntry`, with whether its mode is that of a submodule.
pub record TreeEntry : Type 0 where
  pub name : Text
  pub hash : Text
  pub is_submodule : Bool

-- `.gitmodules` of a tree: not there, not readable, or the lines that the scanner gives.
pub data ModulesFile : Type 0 where
  no_file unreadable : ModulesFile
  modules_file : List Text → ModulesFile

-- An open repository: what is read of a commit, the walk from a commit by the committer's time, and
-- the tree of a commit.
pub record Repository : Type 0 where
  pub commit_object : Text → Option GitCommit
  pub walk_from : Text → Option (List GitCommit)
  pub tree : Text → Option (ModulesFile × List TreeEntry)

-- `splitMessage`
unfoldable split_message : Text → Text × Text
unfolding trim_space cut_at
split_message msg =
    let m = trim_space msg in
    elim (cut_at (codes "\n") m) [
      | none ↦ (m, [])
      | some (subject, body) ↦ (subject, trim_space body)
    ]

-- `commitToDetails`
unfoldable pub commit_to_details : GitCommit → CommitDetails
unfolding split_message
commit_to_details c =
    details c.hash (split_message c.message).0 [] c.author_name c.author_email c.date

-- `excludeSafetyLimit` and `walkLimit`
abbrev pub exclude_safety_limit : ℕ
exclude_safety_limit = 100000

abbrev pub is_in : List Text → GitCommit → Bool
is_in set c = any (text_eq c.hash) set

abbrev pub put_hash : GitCommit → List Text → List Text
put_hash c set = if is_in set c then set else c.hash ∷ set

-- The walk that fills `excludeSet`.
unfoldable pub exclude : List Text → List GitCommit → List Text
unfolding any
exclude set [] = set
exclude set (c ∷ commits) =
    let later = exclude (put_hash c set) commits in
    if leb exclude_safety_limit (length (put_hash c set)) then put_hash c set else later

-- The walk that collects, with `visited` and `result`.
unfoldable pub collect : List Text → ℕ → List CommitDetails → List GitCommit → List CommitDetails
unfolding any commit_to_details
collect set visited result [] = result
collect set visited result (c ∷ commits) =
    let longer = result ++ commit_to_details c ∷ [] in
    let later = collect set (suc visited) (if is_in set c then result else longer) commits in
    if ltb exclude_safety_limit (suc visited)
    then result
    else if is_in set c
    then later
    else if ltb max_changelog_commits (length longer)
    then longer
    else later

-- The loop over the entries of the tree.
abbrev pub entry_ref : Map Text → TreeEntry → Option SubmoduleRef
entry_ref urls e = if e.is_submodule then ref_with e.name e.hash (lookup e.name urls) else none

unfoldable pub entry_refs : Map Text → List TreeEntry → List SubmoduleRef
unfolding lookup
entry_refs urls [] = []
entry_refs urls (e ∷ entries) = add_ref (entry_ref urls e) (entry_refs urls entries)

abbrev pub read_tree : Option (ModulesFile × List TreeEntry) → Option (List SubmoduleRef)
read_tree none = none
read_tree (some (no_file, entries)) = some []
read_tree (some (unreadable, entries)) = none
read_tree (some (modules_file lines, entries)) = some (entry_refs (parse_gitmodules lines) entries)

abbrev collected : Option (List GitCommit) → List Text → Option (List CommitDetails × Bool)
collected none set = none
collected (some commits) set = some (capped (collect set 0 [] commits))

abbrev pub changelog_of :
    Option (List GitCommit) → Option (List GitCommit) → Option (List CommitDetails × Bool)
changelog_of none to = none
changelog_of (some commits) to = collected to (exclude [] commits)

abbrev full_details : GitCommit → CommitDetails
full_details c =
    let (subject, body) = split_message c.message in
    details c.hash subject body c.author_name c.author_email c.date

-- A repository that does not open is an error.
abbrev pub at_repository {ℓ} : {A : Type ℓ} → (Repository → Option A) → Option Repository → Option A
at_repository f none = none
at_repository f (some repo) = f repo

abbrev commit_details : Option GitCommit → Option CommitDetails
commit_details none = none
commit_details (some c) = some (full_details c)

-- `plainOpen`
module _ (plain_open : Text → Option Repository) where
  -- `GetCommitDetails`
  unfoldable read_commit : Text → Text → Option CommitDetails
  unfolding split_message
  read_commit path sha =
      at_repository (λ repo. commit_details (repo.commit_object sha)) (plain_open path)

  -- `ComputeChangelog`
  unfoldable pub walk_changelog : Text → Text → Text → Option (List CommitDetails × Bool)
  unfolding exclude collect
  walk_changelog path from to =
      at_repository (λ repo. changelog_of (repo.walk_from from) (repo.walk_from to))
        (plain_open path)

  -- `ResolveSubmodules`
  unfoldable pub read_submodules : Text → Text → Option (List SubmoduleRef)
  unfolding entry_refs parse_gitmodules
  read_submodules path sha = at_repository (λ repo. read_tree (repo.tree sha)) (plain_open path)
