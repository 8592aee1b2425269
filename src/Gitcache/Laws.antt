-- ===== src/Gitcache/Laws.antt =====
-- The two readers give the changelog of the same commits.
use mathlib.Core.List.{append-nil, append_assoc}
use mathlib.Core.Option
use mathlib.Core.Path.{subst, ap₂}
use system_of_adownload.Prelude.{
  All, Bool, Bool-cases, List, Option, Text, [], ap, arith, false, if◌then◌else◌, inl, inr, leb,
  length, length-map, ltb, map, not, refl, some, sym, take, text_eq, text_eq_iff, true, ℕ, ◌++◌,
  ◌+◌, ◌∙◌, ◌∷◌, ◌≡◌, ◌≤◌, ◌<◌, ◌||◌, suc, zero, ltb→lt,
}
use system_of_adownload.Activity.Git.{CommitDetails}
use system_of_adownload.Gitcache.{max_changelog_commits, capped}
use system_of_adownload.Gitcache.GoGit.{
  GitCommit, Repository, commit_to_details, exclude_safety_limit, is_in, put_hash, exclude, collect,
  changelog_of, at_repository, walk_changelog,
}
use system_of_adownload.Gitcache.Printed.{
  printed, IsPrintable, compute_changelog-printed, All-take, capped-append, capped-take,
}
use system_of_adownload.Gitcache.Shell.{Git, compute_changelog}
use system_of_adownload.Prelude.Rows.{any, select, select_equal}

abbrev has_hash : List GitCommit → GitCommit → Bool
has_hash commits c = any (λ d. text_eq c.hash d.hash) commits

-- `A..B`: the commits of the walk from B that are not in the walk from A.
abbrev pub changes : List GitCommit → List GitCommit → List GitCommit
changes excluded commits = select (λ c. not (has_hash excluded c)) commits

known_hash :
    (a b : Text) (set : List Text)
    → any (text_eq b) set ≡ true
    → any (text_eq a) set ≡ (text_eq a b || any (text_eq a) set)
known_hash a b set h = elim (Bool-cases (text_eq a b)) [
  | inl e ↦ rw e (subst (λ a. any (text_eq a) set ≡ true) (sym ((text_eq_iff a b).0 e)) h)
  | inr e ↦ rw e refl
]

is_in-put_hash :
    (c d : GitCommit) (set : List Text)
    → is_in (put_hash d set) c ≡ (text_eq c.hash d.hash || is_in set c)
unfolding any
is_in-put_hash c d set = elim (Bool-cases (any (text_eq d.hash) set)) [
  | inl e ↦ rw e (known_hash c.hash d.hash set e)
  | inr e ↦ rw e (ground arith)
]

length-put_hash : (d : GitCommit) (set : List Text) → length (put_hash d set) ≤ suc (length set)
length-put_hash d set = ground arith

not_full : (n : ℕ) → n < exclude_safety_limit → leb exclude_safety_limit n ≡ false
not_full n h = ground (arith, h)

-- Below the limit, the set has the hashes of the walk.
is_in-exclude :
    (c : GitCommit) (set : List Text) (commits : List GitCommit)
    → length set + length commits < exclude_safety_limit
    → is_in (exclude set commits) c ≡ (is_in set c || has_hash commits c)
unfolding exclude any
is_in-exclude c set [] h = ground arith
is_in-exclude c set (d ∷ commits) h =
    let b = length-put_hash d set in
    rw (not_full (length (put_hash d set)) (omega (arith, h, b))) (
      is_in-exclude c (put_hash d set) commits (omega (arith, h, b))
      ∙ rw (is_in-put_hash c d set) (ground arith))

-- The walk collects what is not in the set, up to one commit more than the maximum.
collect_lem :
    (set : List Text) (visited : ℕ) (result : List CommitDetails) (commits : List GitCommit)
    → visited + length commits ≤ exclude_safety_limit
    → capped (collect set visited result commits)
      ≡ capped (result ++ map commit_to_details (select (λ c. not (is_in set c)) commits))
unfolding collect select
collect_lem set visited result [] h = ap capped (sym (append-nil result))
collect_lem set visited result (c ∷ commits) h =
    let within : ltb exclude_safety_limit (suc visited) ≡ false = ground (arith, h) in
    let rest = map commit_to_details (select (λ c. not (is_in set c)) commits) in
    let longer = result ++ commit_to_details c ∷ [] in
    let assoc = append_assoc result (commit_to_details c ∷ []) rest in
    rw within (elim (Bool-cases (is_in set c)) [
      | inl e ↦ rw e (collect_lem set (suc visited) result commits (omega (arith, h)))
      | inr e ↦ rw e (elim (Bool-cases (ltb max_changelog_commits (length longer))) [
        | inl f ↦ rw f (sym (capped-append longer rest (ltb→lt _ _ f)) ∙ ap capped assoc)
        | inr f ↦
            rw f (collect_lem set (suc visited) longer commits (omega (arith, h)) ∙ ap capped assoc)
      ])
    ])

changelog_of_lem :
    (excluded commits : List GitCommit)
    → length excluded < exclude_safety_limit
    → length commits ≤ exclude_safety_limit
    → changelog_of (some excluded) (some commits)
      ≡ some (capped (map commit_to_details (changes excluded commits)))
unfolding any
changelog_of_lem excluded commits l m = ap some (
    collect_lem (exclude [] excluded) 0 [] commits (omega (arith, m))
    ∙ ap (λ cs. capped (map commit_to_details cs))
        (select_equal _ _ (λ c. ap not (is_in-exclude c [] excluded (omega (arith, l)))) commits))

-- The hashes of a changelog, in order, and whether there are more.
abbrev pub hashes_of : List CommitDetails × Bool → List Text × Bool
hashes_of (commits, more) = (map (λ d. d.sha) commits, more)

abbrev capped_hashes : List Text → List Text × Bool
capped_hashes hashes =
    if ltb max_changelog_commits (length hashes)
    then (take max_changelog_commits hashes, true)
    else (hashes, false)

sha-take :
    (n : ℕ) (ds : List CommitDetails) → map (λ d. d.sha) (take n ds) ≡ take n (map (λ d. d.sha) ds)
sha-take zero ds = refl
sha-take (suc n) [] = refl
sha-take (suc n) (d ∷ ds) = ap (λ hs. d.sha ∷ hs) (sha-take n ds)

hashes_of-capped :
    (ds : List CommitDetails) → hashes_of (capped ds) ≡ capped_hashes (map (λ d. d.sha) ds)
hashes_of-capped ds =
    rw (length-map ds (λ d. d.sha)) (elim (Bool-cases (ltb max_changelog_commits (length ds))) [
      | inl e ↦ rw e (ap (λ hs. (hs, true)) (sha-take max_changelog_commits ds))
      | inr e ↦ rw e refl
    ])

map-sha :
    (f : GitCommit → CommitDetails)
    → ((c : GitCommit) → (f c).sha ≡ c.hash)
    → (cs : List GitCommit) → map (λ d. d.sha) (map f cs) ≡ map (λ c. c.hash) cs
map-sha f h [] = refl
map-sha f h (c ∷ cs) = ap₂ (λ a as'. a ∷ as') (h c) (map-sha f h cs)

commit_to_details-sha : (c : GitCommit) → (commit_to_details c).sha ≡ c.hash
unfolding commit_to_details
commit_to_details-sha c = refl

-- `shown c` is what git prints of a commit for %H, %s, %aN, %aE and %aI. On walks within the limits
-- of the code, and where `git log`, asked for one commit more than the maximum, prints in the order of
-- the second walk those of its commits that are not in the first: `Manager` gives these commits as git
-- shows them, `GoGitReader` gives them as `commitToDetails` makes them, and so both give the same
-- hashes in the same order, up to the maximum, and say alike whether there are more. Their messages,
-- authors and dates may differ, as git joins the lines of a subject, maps names and may write a UTC
-- offset as Z.
pub compute_changelog-walk_changelog :
    (git : Git) (shown : GitCommit → CommitDetails) (plain_open : Text → Option Repository)
    (repo : Repository) (path from to : Text) (excluded commits : List GitCommit)
    → plain_open path ≡ some repo
    → repo.walk_from from ≡ some excluded
    → repo.walk_from to ≡ some commits
    → length excluded < exclude_safety_limit
    → length commits ≤ exclude_safety_limit
    → ((c : GitCommit) → (shown c).sha ≡ c.hash)
    → All IsPrintable (map shown (changes excluded commits))
    → git.log (max_changelog_commits + 1) path from to
      ≡ some (printed (take (max_changelog_commits + 1) (map shown (changes excluded commits))))
    → (compute_changelog git path from to ≡ some (capped (map shown (changes excluded commits))))
      × (walk_changelog plain_open path from to
          ≡ some (capped (map commit_to_details (changes excluded commits))))
      × (Option.map hashes_of (compute_changelog git path from to)
          ≡ Option.map hashes_of (walk_changelog plain_open path from to))
unfolding walk_changelog
compute_changelog-walk_changelog git shown plain_open repo path from to excluded commits o f t l m
      hash a p =
    let cs = changes excluded commits in
    let walked : walk_changelog plain_open path from to ≡ some (capped (map commit_to_details cs)) =
      ap (at_repository (λ repo. changelog_of (repo.walk_from from) (repo.walk_from to))) o
      ∙ ap₂ changelog_of f t
      ∙ changelog_of_lem excluded commits l m in
    let read =
      compute_changelog-printed git path from to (take (max_changelog_commits + 1) (map shown cs))
        (All-take IsPrintable (max_changelog_commits + 1) (map shown cs) a) p
      ∙ ap some (capped-take (map shown cs)) in
    let hashes =
      hashes_of-capped (map shown cs)
      ∙ ap capped_hashes
          (map-sha shown hash cs ∙ sym (map-sha commit_to_details commit_to_details-sha cs))
      ∙ sym (hashes_of-capped (map commit_to_details cs)) in
    (
      read,
      walked,
      ap (Option.map hashes_of) read ∙ ap some hashes ∙ sym (ap (Option.map hashes_of) walked),
    )
