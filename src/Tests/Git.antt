-- ===== src/Tests/Git.antt =====
-- internal/gitcache on a repository with two commits and one submodule.
use mathlib.Core.Option
use system_of_adownload.Prelude.{
  List, Text, [], arith, codes, if◌then◌else◌, is_space, ◌==◌, map, none, refl, some, text_eq, true,
  ◌∷◌, ◌≡◌,
}
use system_of_adownload.Activity.Git.{CommitDetails}
use system_of_adownload.Gitcache.{capped}
use system_of_adownload.Gitcache.GoGit.{
  GitCommit, TreeEntry, modules_file, Repository, commit_to_details, walk_changelog,
  read_submodules,
}
use system_of_adownload.Gitcache.Laws.{changes, hashes_of, compute_changelog-walk_changelog}
use system_of_adownload.Gitcache.Shell.{Git, details, compute_changelog, resolve_submodules}
use system_of_adownload.Gitcache.Trees.{resolve_submodules-read_submodules}
use system_of_adownload.Prelude.Rows.{any, select}

abbrev commit : Text → Text → Text → GitCommit
commit hash message date = record {
  hash = hash;
  message = message;
  author_name = codes "Ann";
  author_email = codes "ann@example.org";
  date = date;
}

abbrev first : GitCommit
first = commit (codes "a1") (codes "First") (codes "2024-01-01T03:04:05+01:00")

abbrev second : GitCommit
second = commit (codes "b2") (codes "Second\n\nwith a body\n") (codes "2024-01-02T03:04:05+00:00")

abbrev modules : List Text
modules =
    codes "[submodule \"api\"]" ∷ codes "\tpath = api" ∷ codes "\turl = https://git/api.git" ∷ []

abbrev api : TreeEntry
api = record { name = codes "api"; hash = codes "c3"; is_submodule = true }

abbrev repository : Repository
repository = record {
  commit_object = λ _. some second;
  walk_from = λ sha. elim sha [
    | [] ↦ none
    | c ∷ _ ↦ some (if c == b'a' then first ∷ [] else second ∷ first ∷ [])
  ];
  tree = λ _. some (modules_file modules, api ∷ []);
}

abbrev git : Git
git = record {
  show = λ _ _. none;
  show_body = λ _ _. none;
  show_modules = λ _ _. some modules;
  ls_tree = λ _ _. some (codes "160000 commit c3\tapi" ∷ [], true);
  log = λ _ _ _ _. some (codes "b2\nSecond\nAnn\nann@example.org\n2024-01-02T03:04:05Z\n");
}

-- Git on Linux writes the UTC offset as Z.
abbrev shown : GitCommit → CommitDetails
shown c =
    details c.hash (if text_eq c.hash (codes "a1") then codes "First" else codes "Second") []
      c.author_name c.author_email
      (if text_eq c.hash (codes "a1") then c.date else codes "2024-01-02T03:04:05Z")

compute_changelog-walk_changelog_example :
    (compute_changelog git (codes "p") (codes "a1") (codes "b2")
      ≡ some (capped (map shown (changes (first ∷ []) (second ∷ first ∷ [])))))
    × (walk_changelog (λ _. some repository) (codes "p") (codes "a1") (codes "b2")
        ≡ some (capped (map commit_to_details (changes (first ∷ []) (second ∷ first ∷ [])))))
    × (Option.map hashes_of (compute_changelog git (codes "p") (codes "a1") (codes "b2"))
        ≡ Option.map hashes_of
            (walk_changelog (λ _. some repository) (codes "p") (codes "a1") (codes "b2")))
unfolding commit_to_details select any
compute_changelog-walk_changelog_example =
    compute_changelog-walk_changelog git shown (λ _. some repository) repository (codes "p")
      (codes "a1") (codes "b2") (first ∷ []) (second ∷ first ∷ []) refl refl refl (omega arith)
      (omega arith) (λ c. refl) (((refl, (refl, (refl, (refl, (refl, tt))))), refl, refl), tt) refl

resolve_submodules-read_submodules_example :
    resolve_submodules git (codes "p") (codes "b2")
    ≡ read_submodules (λ _. some repository) (codes "p") (codes "b2")
unfolding any is_space
resolve_submodules-read_submodules_example =
    resolve_submodules-read_submodules git (λ _. some repository) repository (codes "p")
      (codes "b2") (modules_file modules) (codes "160000 commit c3\tapi" ∷ []) (api ∷ []) refl refl
      refl refl
      ((codes "160000", codes "commit", (refl, refl), (refl, refl), (refl, refl), refl, refl), tt)

one_submodule :
    resolve_submodules git (codes "p") (codes "b2")
    ≡ some (record { path = codes "api"; url = codes "https://git/api.git"; sha = codes "c3" } ∷ [])
unfolding resolve_submodules
one_submodule = refl
