-- ===== src/Gitcache/Shell.antt =====
-- The reads of `Manager` in internal/gitcache/manager.go.
use system_of_adownload.Prelude.{
  Bool, List, Option, Text, [], codes, cut_at, false, if◌then◌else◌, is_empty, is_space, length,
  none, not, some, split, suc, text_eq, trim_space, true, zero, ℕ, ◌%◌, ◌+◌, ◌==◌, ◌∷◌,
}
use system_of_adownload.Activity.Git.{CommitDetails, SubmoduleRef}
use system_of_adownload.Domain.Commit.{trim_right}
use system_of_adownload.Gitcache.{max_changelog_commits, capped}
use system_of_adownload.Gitcache.Modules.{parse_gitmodules}
use system_of_adownload.Prelude.Map.{Map, lookup}

-- What the commands print for a path and a commit, where they succeed: `git show` of a commit, of its
-- body and of its .gitmodules, `git ls-tree`, and `git log` with a maximum and two commits. Where a
-- scanner reads it, these are the lines that it gives and whether its error is nil.
pub record Git : Type 0 where
  pub show : Text → Text → Option Text
  pub show_body : Text → Text → Option Text
  pub show_modules : Text → Text → Option (List Text)
  pub ls_tree : Text → Text → Option (List Text × Bool)
  pub log : ℕ → Text → Text → Text → Option Text

-- `strings.SplitN(s, sep, n)` for a positive n.
unfoldable split_n : ℕ → Text → Text → List Text
unfolding cut_at
split_n zero sep s = []
split_n (suc zero) sep s = s ∷ []
split_n (suc (suc n)) sep s = elim (cut_at sep s) [
  | none ↦ s ∷ []
  | some (a, rest) ↦ a ∷ split_n (suc n) sep rest
]

-- `strings.Fields`: a word ends at a blank; blanks before a word are passed over.
abbrev pub add_to : ℕ → List Text → List Text
add_to c [] = (c ∷ []) ∷ []
add_to c (w ∷ words) = (c ∷ w) ∷ words

abbrev pub put_char : ℕ → Bool × List Text → Bool × List Text
put_char c (at_blank, words) =
    if is_space c
    then (true, words)
    else (false, if at_blank then (c ∷ []) ∷ words else add_to c words)

unfoldable pub words_from : Text → Bool × List Text
unfolding is_space
words_from [] = (true, [])
words_from (c ∷ s) = put_char c (words_from s)

abbrev pub fields : Text → List Text
fields s = (words_from s).1

-- The five lines of a commit.
abbrev pub details : Text → Text → Text → Text → Text → Text → CommitDetails
details sha message body author_name author_email commit_date = record {
  sha = sha;
  message = message;
  body = body;
  author_name = author_name;
  author_email = author_email;
  commit_date = commit_date;
}

abbrev show_lines : List Text → Option Text → Option CommitDetails
show_lines (sha ∷ message ∷ name ∷ email ∷ date ∷ _) (some body) =
    some (details sha message (trim_space body) name email date)
show_lines _ _ = none

-- The loop over the lines, five for each commit.
unfoldable pub read_commits : List Text → List CommitDetails
read_commits (sha ∷ message ∷ name ∷ email ∷ date ∷ lines) =
    details sha message [] name email date ∷ read_commits lines
read_commits _ = []

abbrev pub read_log_lines : List Text → Option (List CommitDetails × Bool)
read_log_lines lines =
    if not (length lines % 5 == 0) then none else some (capped (read_commits lines))

abbrev pub read_log : Text → Option (List CommitDetails × Bool)
read_log text = if is_empty text then some ([], false) else read_log_lines (split b'\n' text)

-- A line of `git ls-tree`: "<mode> <type> <sha>\t<path>". A submodule is a commit.
abbrev pub ref_with : Text → Text → Option Text → Option SubmoduleRef
ref_with path sha none = none
ref_with path sha (some url) = some (record { path = path; url = url; sha = sha })

abbrev pub ref_of : Map Text → Text → List Text → Option SubmoduleRef
ref_of urls path (mode ∷ type ∷ sha ∷ _) =
    if text_eq type (codes "commit") then ref_with path sha (lookup path urls) else none
ref_of urls path _ = none

unfoldable pub tree_ref : Map Text → Text → Option SubmoduleRef
unfolding cut_at words_from lookup
tree_ref urls line = elim (cut_at (codes "\t") line) [
  | none ↦ none
  | some (entry, path) ↦ ref_of urls path (fields entry)
]

-- The loop over the lines of the tree.
abbrev pub add_ref : Option SubmoduleRef → List SubmoduleRef → List SubmoduleRef
add_ref none refs = refs
add_ref (some r) refs = r ∷ refs

unfoldable pub tree_refs : Map Text → List Text → List SubmoduleRef
unfolding tree_ref
tree_refs urls [] = []
tree_refs urls (line ∷ lines) = add_ref (tree_ref urls line) (tree_refs urls lines)

abbrev pub list_refs : Map Text → Option (List Text × Bool) → Option (List SubmoduleRef)
list_refs urls none = none
list_refs urls (some (lines, good)) = if good then some (tree_refs urls lines) else none

module _ (git : Git) where
  -- `GetCommitDetails`
  unfoldable show_commit : Text → Text → Option CommitDetails
  unfolding trim_right split_n trim_space
  show_commit path sha = elim (git.show path sha) [
    | none ↦ none
    | some out ↦ show_lines (split_n 5 (codes "\n") (trim_right b'\n' out)) (git.show_body path sha)
  ]

  -- `ResolveSubmodules`
  unfoldable pub resolve_submodules : Text → Text → Option (List SubmoduleRef)
  unfolding parse_gitmodules tree_refs
  resolve_submodules path sha = elim (git.show_modules path sha) [
    | none ↦ some []
    | some lines ↦
        let urls = parse_gitmodules lines in
        if is_empty urls then some [] else list_refs urls (git.ls_tree path sha)
  ]

  -- `ComputeChangelog`
  unfoldable pub compute_changelog : Text → Text → Text → Option (List CommitDetails × Bool)
  unfolding trim_right split read_commits
  compute_changelog path from to = elim (git.log (max_changelog_commits + 1) path from to) [
    | none ↦ none
    | some out ↦ read_log (trim_right b'\n' out)
  ]
