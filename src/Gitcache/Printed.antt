-- ===== src/Gitcache/Printed.antt =====
-- What `git log` prints with five lines for each commit, and how `Manager` reads it.
use system_of_adownload.Prelude.{
  All, All-append, List, Text, [], ap, arith, false, inl, inr, is_empty, length, length-append, ltb,
  not, refl, some, sym, take, take_all, length-take, true, ℕ, ◌%◌, ◌++◌, ◌+◌, ◌==◌, ◌∙◌, ◌∷◌, ◌≡◌,
  ◌*◌, ◌≤◌, ◌<◌, suc, zero, Bool-cases,
}
use system_of_adownload.Activity.Git.{CommitDetails}
use system_of_adownload.Gitcache.{max_changelog_commits, capped}
use system_of_adownload.Gitcache.Lines.{
  terminated, joined, IsLine, ends_full, split-joined, joined_full, trim_right-terminated,
}
use system_of_adownload.Gitcache.Shell.{
  Git, details, read_commits, read_log, read_log_lines, compute_changelog,
}

-- The lines of a commit, in the format "%H%n%s%n%aN%n%aE%n%aI".
abbrev lines_of : CommitDetails → List Text
lines_of c = c.sha ∷ c.message ∷ c.author_name ∷ c.author_email ∷ c.commit_date ∷ []

abbrev all_lines : List CommitDetails → List Text
all_lines [] = []
all_lines (c ∷ commits) = lines_of c ++ all_lines commits

abbrev pub printed : List CommitDetails → Text
printed commits = terminated (all_lines commits)

-- The fields are lines, and there is a date; a log has no bodies.
abbrev pub IsPrintable : CommitDetails → Type 0
IsPrintable c = All IsLine (lines_of c) × (is_empty c.commit_date ≡ false) × (c.body ≡ [])

all_lines-IsLine :
    (commits : List CommitDetails) → All IsPrintable commits → All IsLine (all_lines commits)
all_lines-IsLine [] a = tt
all_lines-IsLine (c ∷ commits) ((h, _, _), a) =
    All-append IsLine (lines_of c) (all_lines commits) h (all_lines-IsLine commits a)

all_lines_full :
    (commits : List CommitDetails) → All IsPrintable commits → ends_full (all_lines commits) ≡ true
all_lines_full [] a = refl
all_lines_full (c ∷ []) ((_, dated, _), a) = ap not dated
all_lines_full (c ∷ d ∷ commits) (h, a) = all_lines_full (d ∷ commits) a

length-all_lines : (commits : List CommitDetails) → length (all_lines commits) ≡ 5 * length commits
length-all_lines [] = refl
length-all_lines (c ∷ commits) = omega (arith, length-all_lines commits)

read_commits-all_lines :
    (commits : List CommitDetails)
    → All IsPrintable commits
    → read_commits (all_lines commits) ≡ commits
unfolding read_commits
read_commits-all_lines [] a = refl
read_commits-all_lines (c ∷ commits) ((_, _, no_body), a) =
    ap
      (λ b.
        details c.sha c.message b c.author_name c.author_email c.commit_date
        ∷ read_commits (all_lines commits))
      (sym no_body)
    ∙ ap (λ cs. c ∷ cs) (read_commits-all_lines commits a)

read_log-joined :
    (commits : List CommitDetails)
    → All IsPrintable commits
    → read_log (joined (all_lines commits)) ≡ some (capped commits)
read_log-joined [] a = refl
read_log-joined (c ∷ commits) a =
    let lines = all_lines (c ∷ commits) in
    let rest = c.message ∷ c.author_name ∷ c.author_email ∷ c.commit_date ∷ all_lines commits in
    let even : (length lines % 5 == 0) ≡ true = ground (arith, length-all_lines (c ∷ commits)) in
    rw (joined_full c.sha rest (all_lines_full (c ∷ commits) a)) (
      ap read_log_lines (split-joined c.sha rest (all_lines-IsLine (c ∷ commits) a))
      ∙ rw even (ap (λ cs. some (capped cs)) (read_commits-all_lines (c ∷ commits) a)))

-- `ComputeChangelog` of the shell reads back what `git log` has printed.
pub compute_changelog-printed :
    (git : Git) (path from to : Text) (commits : List CommitDetails)
    → All IsPrintable commits
    → git.log (max_changelog_commits + 1) path from to ≡ some (printed commits)
    → compute_changelog git path from to ≡ some (capped commits)
unfolding compute_changelog
compute_changelog-printed git path from to commits a h =
    rw (h, compute_changelog)
      (ap read_log (
          trim_right-terminated (all_lines commits) (all_lines-IsLine commits a)
            (all_lines_full commits a))
        ∙ read_log-joined commits a)

module _ {ℓ} {A : Type ℓ} where
  take-append_short : (n : ℕ) (xs ys : List A) → n ≤ length xs → take n (xs ++ ys) ≡ take n xs
  take-append_short zero xs ys h = refl
  take-append_short (suc n) [] ys h = absurd (omega (arith, h))
  take-append_short (suc n) (x ∷ xs) ys h =
      ap (λ r. x ∷ r) (take-append_short n xs ys (omega (arith, h)))

  take-take : (m n : ℕ) (xs : List A) → m ≤ n → take m (take n xs) ≡ take m xs
  take-take zero n xs h = refl
  take-take (suc m) zero xs h = absurd (omega (arith, h))
  take-take (suc m) (suc n) [] h = refl
  take-take (suc m) (suc n) (x ∷ xs) h = ap (λ r. x ∷ r) (take-take m n xs (omega (arith, h)))

module _ {ℓ κ} {A : Type ℓ} (P : A → Type κ) where
  pub All-take : (n : ℕ) (xs : List A) → All P xs → All P (take n xs)
  All-take zero xs a = tt
  All-take (suc n) [] a = tt
  All-take (suc n) (x ∷ xs) a = (a.0, All-take n xs a.1)

-- What is behind the cut does not matter.
pub capped-append :
    (xs ys : List CommitDetails) → max_changelog_commits < length xs → capped (xs ++ ys) ≡ capped xs
capped-append xs ys h =
    let long : ltb max_changelog_commits (length xs) ≡ true = ground (arith, h) in
    let longer : ltb max_changelog_commits (length (xs ++ ys)) ≡ true =
      ground (arith, h, length-append xs ys) in
    rw long (
      rw longer
        (ap (λ r. (r, true)) (take-append_short max_changelog_commits xs ys (omega (arith, h)))))

-- One commit more than the maximum is enough to see that there are too many.
module _ (xs : List CommitDetails) where
  take_one_more :
      max_changelog_commits < length xs
      → max_changelog_commits < length (take (max_changelog_commits + 1) xs)
  take_one_more h = omega (arith, h, length-take (max_changelog_commits + 1) xs)

  take_within :
      ltb max_changelog_commits (length xs) ≡ false
      → length (take (max_changelog_commits + 1) xs) < max_changelog_commits + 1
  take_within h =
      let l : length xs ≤ max_changelog_commits = ground (arith, h) in
      omega (arith, l, length-take (max_changelog_commits + 1) xs)

  capped_long :
      (ys : List CommitDetails)
      → max_changelog_commits < length ys
      → capped ys ≡ (take max_changelog_commits ys, true)
  capped_long ys h =
      let long : ltb max_changelog_commits (length ys) ≡ true = ground (arith, h) in rw long refl

  pub capped-take : capped (take (max_changelog_commits + 1) xs) ≡ capped xs
  capped-take = elim (Bool-cases (ltb max_changelog_commits (length xs))) [
    | inl e ↦
        let l : max_changelog_commits < length xs = ground (arith, e) in
        capped_long (take (max_changelog_commits + 1) xs) (take_one_more l)
        ∙ ap (λ r. (r, true))
            (take-take max_changelog_commits (max_changelog_commits + 1) xs (omega arith))
        ∙ sym (capped_long xs l)
    | inr e ↦ ap capped (take_all (max_changelog_commits + 1) xs (take_within e))
  ]
