-- ===== src/Domain/Json/Laws.antt =====
-- What is marshalled unmarshals to what it was: commits, with their authors, submodules and changelog.
use mathlib.Core.Path.{ap₂}
use system_of_adownload.Prelude.{
  All, List, Option, Text, [], ap, codes, none, refl, some, ◌∙◌, ◌∷◌, ◌≡◌,
}
use system_of_adownload.Domain.Commit.{
  CommitAuthor, SubmoduleCommit, CommitSummary, Changelog, changelog, Changelogs, no_submodules,
  submodule, CommitInfo, no_commit,
}
use system_of_adownload.Domain.Json.{
  Json, string, array, Members, end, member, omit_text, and_then, set_list, read_members,
  read_items, items_of, read_items-items_of,
}
use system_of_adownload.Domain.Json.Commits.{
  omit_pointer, omit_list, put_pointer, set_some, set_changelogs, set_commits, entry,
  marshal_author, put_author, unmarshal_author, marshal_summary, put_summary, no_summary,
  unmarshal_summary, marshal_submodule, put_submodule, no_submodule, unmarshal_submodule,
  marshal_changelog, changelog_members, unmarshal_changelog, changelog_entries, marshal_commit,
  put_commit, unmarshal_commit,
}

module _ {ℓ} {A : Type ℓ} (put : Text → Json → A → Option A) (name : Text) (rest : Members) where
  -- A member that may be left out sets its field, which was empty.
  read_text :
      (t : Text) (k : Text → A)
      → ((u : Text) → put name (string u) (k []) ≡ some (k u))
      → read_members put (k []) (omit_text name t rest) ≡ read_members put (k t) rest
  unfolding read_members
  read_text [] k h = refl
  read_text (c ∷ t) k h = ap (λ o. and_then o (λ b. read_members put b rest)) (h (c ∷ t))

  read_pointer {κ} :
      {B : Type κ} (show : B → Json) (o : Option B) (k : Option B → A)
      → ((b : B) → put name (show b) (k none) ≡ some (k (some b)))
      → read_members put (k none) (omit_pointer name show o rest) ≡ read_members put (k o) rest
  unfolding read_members
  read_pointer show none k h = refl
  read_pointer show (some b) k h = ap (λ o. and_then o (λ b. read_members put b rest)) (h b)

  read_list {κ} :
      {B : Type κ} (show : B → Json) (xs : List B) (k : List B → A)
      → ((ys : List B) → put name (array (items_of show ys)) (k []) ≡ some (k ys))
      → read_members put (k []) (omit_list name show xs rest) ≡ read_members put (k xs) rest
  unfolding read_members
  read_list show [] k h = refl
  read_list show (x ∷ xs) k h = ap (λ o. and_then o (λ b. read_members put b rest)) (h (x ∷ xs))

all_back {ℓ} :
    {A : Type ℓ} (read : Json → Option A) (show : A → Json)
    → ((x : A) → read (show x) ≡ some x)
    → (xs : List A) → read_items read (items_of show xs) ≡ some xs
all_back read show h xs = read_items-items_of read show xs (every xs)
  where
    every : (ys : List _) → All (λ x. read (show x) ≡ some x) ys
    every [] = tt
    every (y ∷ ys) = (h y, every ys)

author-back : (a : CommitAuthor) → unmarshal_author (marshal_author a) ≡ some a
unfolding unmarshal_author marshal_author put_author read_members
author-back a = refl

summary-back : (c : CommitSummary) → unmarshal_summary (marshal_summary c) ≡ some c
unfolding unmarshal_summary marshal_summary put_summary read_members
summary-back c =
    let m3 = omit_text (codes "commitDate") c.commit_date end in
    let m2 = omit_pointer (codes "author") marshal_author c.author m3 in
    let m1 = member (codes "message") (string c.message) m2 in
    let r1 : CommitSummary = record no_summary { sha = c.sha } in
    let r2 : CommitSummary = record r1 { url = c.url; message = c.message } in
    let r3 : CommitSummary = record r2 { author = c.author } in
    read_text put_summary (codes "url") m1 c.url (λ t. record r1 { url = t }) (λ u. refl)
    ∙ read_pointer put_summary (codes "author") m3 marshal_author c.author
        (λ a. record r2 { author = a })
        (λ a. ap (set_some (λ b. record r2 { author = some b })) (author-back a))
    ∙ read_text put_summary (codes "commitDate") end c.commit_date
        (λ t. record r3 { commit_date = t }) (λ u. refl)

submodule-back : (c : SubmoduleCommit) → unmarshal_submodule (marshal_submodule c) ≡ some c
unfolding unmarshal_submodule marshal_submodule put_submodule read_members
submodule-back c =
    let m4 = omit_text (codes "commitDate") c.commit_date end in
    let m3 = omit_pointer (codes "author") marshal_author c.author m4 in
    let m2 = omit_text (codes "message") c.message m3 in
    let r1 : SubmoduleCommit = record no_submodule { repository = c.repository; sha = c.sha } in
    let r2 : SubmoduleCommit = record r1 { url = c.url } in
    let r3 : SubmoduleCommit = record r2 { message = c.message } in
    let r4 : SubmoduleCommit = record r3 { author = c.author } in
    read_text put_submodule (codes "url") m2 c.url (λ t. record r1 { url = t }) (λ u. refl)
    ∙ read_text put_submodule (codes "message") m3 c.message (λ t. record r2 { message = t })
        (λ u. refl)
    ∙ read_pointer put_submodule (codes "author") m4 marshal_author c.author
        (λ a. record r3 { author = a })
        (λ a. ap (set_some (λ b. record r3 { author = some b })) (author-back a))
    ∙ read_text put_submodule (codes "commitDate") end c.commit_date
        (λ t. record r4 { commit_date = t }) (λ u. refl)

commits-back :
    (cs : List CommitSummary) → read_items unmarshal_summary (items_of marshal_summary cs) ≡ some cs
commits-back = all_back unmarshal_summary marshal_summary summary-back

mutual
  unfolding unmarshal_changelog marshal_changelog

  changelog-back : (c : Changelog) → unmarshal_changelog (marshal_changelog c) ≡ some c
  changelog-back (changelog previous commits no_submodules) =
      ap (λ o. and_then (set_list (set_commits (changelog previous [] no_submodules)) o) some)
        (commits-back commits)
  changelog-back (changelog previous commits (submodule name c rest)) =
      let read = λ (d : Changelog) (o : Option Changelogs).
        and_then (set_some (set_changelogs d) o) (λ e. some e) in
      ap
        (λ o. and_then (set_list (set_commits (changelog previous [] no_submodules)) o) (λ d.
          read d (
            entry name (unmarshal_changelog (marshal_changelog c))
              (changelog_entries (changelog_members rest)))))
        (commits-back commits)
      ∙ ap₂ (λ a b. read (changelog previous commits no_submodules) (entry name a b))
          (changelog-back c) (changelogs-back rest)

  changelogs-back : (m : Changelogs) → changelog_entries (changelog_members m) ≡ some m
  changelogs-back no_submodules = refl
  changelogs-back (submodule name c rest) =
      ap₂ (entry name) (changelog-back c) (changelogs-back rest)

pointer_back :
    (set : Option Changelog → CommitInfo) (l : Changelog)
    → put_pointer unmarshal_changelog set (marshal_changelog l) ≡ some (set (some l))
unfolding marshal_changelog
pointer_back set (changelog previous commits subs) =
    ap (set_some (λ a. set (some a))) (changelog-back (changelog previous commits subs))

-- Unmarshalling what was marshalled gives the commit back.
pub unmarshal_commit-marshal_commit :
    (c : CommitInfo) → unmarshal_commit (marshal_commit c) ≡ some c
unfolding unmarshal_commit marshal_commit put_commit read_members
unmarshal_commit-marshal_commit c =
    let m11 = omit_text (codes "changelogStatus") c.changelog_status end in
    let m10 = omit_text (codes "enrichedAt") c.enriched_at m11 in
    let m9 = omit_pointer (codes "changelog") marshal_changelog c.changelog m10 in
    let m8 = omit_list (codes "submodules") marshal_submodule c.submodules m9 in
    let m7 = omit_text (codes "commitDate") c.commit_date m8 in
    let m6 = omit_pointer (codes "author") marshal_author c.author m7 in
    let m5 = omit_text (codes "body") c.body m6 in
    let m4 = omit_text (codes "message") c.message m5 in
    let m3 = omit_text (codes "url") c.url m4 in
    let m2 = omit_text (codes "branch") c.branch m3 in
    let r1 : CommitInfo = record no_commit { sha = c.sha } in
    let r2 : CommitInfo = record r1 { repository = c.repository } in
    let r3 : CommitInfo = record r2 { branch = c.branch } in
    let r4 : CommitInfo = record r3 { url = c.url } in
    let r5 : CommitInfo = record r4 { message = c.message } in
    let r6 : CommitInfo = record r5 { body = c.body } in
    let r7 : CommitInfo = record r6 { author = c.author } in
    let r8 : CommitInfo = record r7 { commit_date = c.commit_date } in
    let r9 : CommitInfo = record r8 { submodules = c.submodules } in
    let r10 : CommitInfo = record r9 { changelog = c.changelog } in
    let r11 : CommitInfo = record r10 { enriched_at = c.enriched_at } in
    read_text put_commit (codes "repository") m2 c.repository (λ t. record r1 { repository = t })
      (λ u. refl)
    ∙ read_text put_commit (codes "branch") m3 c.branch (λ t. record r2 { branch = t }) (λ u. refl)
    ∙ read_text put_commit (codes "url") m4 c.url (λ t. record r3 { url = t }) (λ u. refl)
    ∙ read_text put_commit (codes "message") m5 c.message (λ t. record r4 { message = t })
        (λ u. refl)
    ∙ read_text put_commit (codes "body") m6 c.body (λ t. record r5 { body = t }) (λ u. refl)
    ∙ read_pointer put_commit (codes "author") m7 marshal_author c.author
        (λ a. record r6 { author = a })
        (λ a. ap (set_some (λ b. record r6 { author = some b })) (author-back a))
    ∙ read_text put_commit (codes "commitDate") m8 c.commit_date
        (λ t. record r7 { commit_date = t }) (λ u. refl)
    ∙ read_list put_commit (codes "submodules") m9 marshal_submodule c.submodules
        (λ ss. record r8 { submodules = ss })
        (λ ss.
          ap (set_list (λ ts. record r8 { submodules = ts }))
            (all_back unmarshal_submodule marshal_submodule submodule-back ss))
    ∙ read_pointer put_commit (codes "changelog") m10 marshal_changelog c.changelog
        (λ l. record r9 { changelog = l }) (λ l. pointer_back (λ o. record r9 { changelog = o }) l)
    ∙ read_text put_commit (codes "enrichedAt") m11 c.enriched_at
        (λ t. record r10 { enriched_at = t }) (λ u. refl)
    ∙ read_text put_commit (codes "changelogStatus") end c.changelog_status
        (λ t. record r11 { changelog_status = t }) (λ u. refl)
