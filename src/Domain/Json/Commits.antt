-- ===== src/Domain/Json/Commits.antt =====
-- The JSON of a `CommitInfo`, by the struct tags of internal/domain/asset.go. A nil slice is not told
-- from an empty one, a map is listed with its members, which are different, and has no nil pointers.
use system_of_adownload.Prelude.{List, Option, Text, [], codes, if◌then◌else◌, none, some, ◌∷◌}
use system_of_adownload.Domain.Commit.{
  CommitAuthor, SubmoduleCommit, CommitSummary, Changelog, changelog, Changelogs, no_submodules,
  submodule, CommitInfo, no_commit,
}
use system_of_adownload.Domain.Json.{
  Json, null, bool, string, array, object, Members, end, member, is_key, omit_text, put_text,
  put_list, and_then, read_members, read_struct, read_items, items_of,
}

-- A tag with `omitempty` on a pointer and on a slice.
abbrev pub omit_pointer {ℓ} : {A : Type ℓ} → Text → (A → Json) → Option A → Members → Members
omit_pointer name show none rest = rest
omit_pointer name show (some a) rest = member name (show a) rest

abbrev pub omit_list {ℓ} : {A : Type ℓ} → Text → (A → Json) → List A → Members → Members
omit_list name show [] rest = rest
omit_list name show (x ∷ xs) rest = member name (array (items_of show (x ∷ xs))) rest

abbrev omit_members : Text → Members → Members
omit_members name end = end
omit_members name (member k j rest) = member name (object (member k j rest)) end

abbrev pub set_some {ℓ κ} : {A : Type ℓ} {B : Type κ} → (A → B) → Option A → Option B
set_some set none = none
set_some set (some a) = some (set a)

-- A pointer: null is nil.
abbrev pub put_pointer {ℓ κ} :
    {A : Type ℓ} {B : Type κ} → (Json → Option A) → (Option A → B) → Json → Option B
put_pointer read set null = some (set none)
put_pointer read set j = set_some (λ a. set (some a)) (read j)

-- `CommitAuthor`
unfoldable pub marshal_author : CommitAuthor → Json
marshal_author a =
    object (member (codes "name") (string a.name) (member (codes "email") (string a.email) end))

unfoldable pub put_author : Text → Json → CommitAuthor → Option CommitAuthor
put_author k j a =
    if is_key (codes "name") k
    then put_text (λ t. record a { name = t }) a j
    else if is_key (codes "email") k
    then put_text (λ t. record a { email = t }) a j
    else some a

unfoldable pub unmarshal_author : Json → Option CommitAuthor
unfolding put_author read_members
unmarshal_author = read_struct put_author (record { name = []; email = [] })

-- `CommitSummary`
unfoldable pub marshal_summary : CommitSummary → Json
unfolding marshal_author
marshal_summary c = object (
    member (codes "sha") (string c.sha) (
      omit_text (codes "url") c.url (
        member (codes "message") (string c.message) (
          omit_pointer (codes "author") marshal_author c.author
            (omit_text (codes "commitDate") c.commit_date end)))))

unfoldable pub put_summary : Text → Json → CommitSummary → Option CommitSummary
unfolding unmarshal_author
put_summary k j c =
    if is_key (codes "sha") k
    then put_text (λ t. record c { sha = t }) c j
    else if is_key (codes "url") k
    then put_text (λ t. record c { url = t }) c j
    else if is_key (codes "message") k
    then put_text (λ t. record c { message = t }) c j
    else if is_key (codes "author") k
    then put_pointer unmarshal_author (λ a. record c { author = a }) j
    else if is_key (codes "commitDate") k
    then put_text (λ t. record c { commit_date = t }) c j
    else some c

abbrev pub no_summary : CommitSummary
no_summary = record { sha = []; url = []; message = []; author = none; commit_date = [] }

unfoldable pub unmarshal_summary : Json → Option CommitSummary
unfolding put_summary read_members
unmarshal_summary = read_struct put_summary no_summary

-- `SubmoduleCommit`
unfoldable pub marshal_submodule : SubmoduleCommit → Json
unfolding marshal_author
marshal_submodule c = object (
    member (codes "repository") (string c.repository) (
      member (codes "sha") (string c.sha) (
        omit_text (codes "url") c.url (
          omit_text (codes "message") c.message (
            omit_pointer (codes "author") marshal_author c.author
              (omit_text (codes "commitDate") c.commit_date end))))))

unfoldable pub put_submodule : Text → Json → SubmoduleCommit → Option SubmoduleCommit
unfolding unmarshal_author
put_submodule k j c =
    if is_key (codes "repository") k
    then put_text (λ t. record c { repository = t }) c j
    else if is_key (codes "sha") k
    then put_text (λ t. record c { sha = t }) c j
    else if is_key (codes "url") k
    then put_text (λ t. record c { url = t }) c j
    else if is_key (codes "message") k
    then put_text (λ t. record c { message = t }) c j
    else if is_key (codes "author") k
    then put_pointer unmarshal_author (λ a. record c { author = a }) j
    else if is_key (codes "commitDate") k
    then put_text (λ t. record c { commit_date = t }) c j
    else some c

abbrev pub no_submodule : SubmoduleCommit
no_submodule = record {
  repository = [];
  sha = [];
  url = [];
  message = [];
  author = none;
  commit_date = [];
}

unfoldable pub unmarshal_submodule : Json → Option SubmoduleCommit
unfolding put_submodule read_members
unmarshal_submodule = read_struct put_submodule no_submodule

-- `Changelog`
unfoldable mutual
  unfolding marshal_summary items_of

  pub marshal_changelog : Changelog → Json
  marshal_changelog (changelog previous commits subs) = object (
      member (codes "previousVersion") (string previous) (
        member (codes "commits") (array (items_of marshal_summary commits))
          (omit_members (codes "submoduleChangelogs") (changelog_members subs))))

  pub changelog_members : Changelogs → Members
  changelog_members no_submodules = end
  changelog_members (submodule name c rest) =
      member name (marshal_changelog c) (changelog_members rest)

abbrev pub set_previous : Changelog → Text → Changelog
set_previous (changelog previous commits subs) t = changelog t commits subs

abbrev pub set_commits : Changelog → List CommitSummary → Changelog
set_commits (changelog previous commits subs) cs = changelog previous cs subs

abbrev pub set_changelogs : Changelog → Changelogs → Changelog
set_changelogs (changelog previous commits subs) m = changelog previous commits m

abbrev pub entry : Text → Option Changelog → Option Changelogs → Option Changelogs
entry name (some c) (some rest) = some (submodule name c rest)
entry name _ _ = none

abbrev put_changelog_field : Text → Json → Option Changelogs → Changelog → Option Changelog
put_changelog_field k j subs c =
    if is_key (codes "previousVersion") k
    then put_text (set_previous c) c j
    else if is_key (codes "commits") k
    then put_list unmarshal_summary (set_commits c) c j
    else if is_key (codes "submoduleChangelogs") k
    then set_some (set_changelogs c) subs
    else some c

unfoldable mutual
  unfolding unmarshal_summary read_items

  pub unmarshal_changelog : Json → Option Changelog
  unmarshal_changelog (object ms) = changelog_fields ms (changelog [] [] no_submodules)
  unmarshal_changelog null = some (changelog [] [] no_submodules)
  unmarshal_changelog (bool b) = none
  unmarshal_changelog (string t) = none
  unmarshal_changelog (array js) = none

  pub changelog_fields : Members → Changelog → Option Changelog
  changelog_fields end c = some c
  changelog_fields (member k j rest) c =
      and_then (put_changelog_field k j (unmarshal_changelogs j) c) (λ d. changelog_fields rest d)

  pub unmarshal_changelogs : Json → Option Changelogs
  unmarshal_changelogs (object ms) = changelog_entries ms
  unmarshal_changelogs null = some no_submodules
  unmarshal_changelogs (bool b) = none
  unmarshal_changelogs (string t) = none
  unmarshal_changelogs (array js) = none

  pub changelog_entries : Members → Option Changelogs
  changelog_entries end = some no_submodules
  changelog_entries (member k j rest) = entry k (unmarshal_changelog j) (changelog_entries rest)

-- `json.Marshal` of a `CommitInfo`
unfoldable pub marshal_commit : CommitInfo → Json
unfolding marshal_author marshal_submodule items_of marshal_changelog
marshal_commit c = object (
    member (codes "sha") (string c.sha) (
      omit_text (codes "repository") c.repository (
        omit_text (codes "branch") c.branch (
          omit_text (codes "url") c.url (
            omit_text (codes "message") c.message (
              omit_text (codes "body") c.body (
                omit_pointer (codes "author") marshal_author c.author (
                  omit_text (codes "commitDate") c.commit_date (
                    omit_list (codes "submodules") marshal_submodule c.submodules (
                      omit_pointer (codes "changelog") marshal_changelog c.changelog (
                        omit_text (codes "enrichedAt") c.enriched_at
                          (omit_text (codes "changelogStatus") c.changelog_status end))))))))))))

unfoldable pub put_commit : Text → Json → CommitInfo → Option CommitInfo
unfolding unmarshal_author unmarshal_submodule unmarshal_changelog read_items
put_commit k j c =
    if is_key (codes "sha") k
    then put_text (λ t. record c { sha = t }) c j
    else if is_key (codes "repository") k
    then put_text (λ t. record c { repository = t }) c j
    else if is_key (codes "branch") k
    then put_text (λ t. record c { branch = t }) c j
    else if is_key (codes "url") k
    then put_text (λ t. record c { url = t }) c j
    else if is_key (codes "message") k
    then put_text (λ t. record c { message = t }) c j
    else if is_key (codes "body") k
    then put_text (λ t. record c { body = t }) c j
    else if is_key (codes "author") k
    then put_pointer unmarshal_author (λ a. record c { author = a }) j
    else if is_key (codes "commitDate") k
    then put_text (λ t. record c { commit_date = t }) c j
    else if is_key (codes "submodules") k
    then put_list unmarshal_submodule (λ ss. record c { submodules = ss }) c j
    else if is_key (codes "changelog") k
    then put_pointer unmarshal_changelog (λ l. record c { changelog = l }) j
    else if is_key (codes "enrichedAt") k
    then put_text (λ t. record c { enriched_at = t }) c j
    else if is_key (codes "changelogStatus") k
    then put_text (λ t. record c { changelog_status = t }) c j
    else some c

-- `json.Unmarshal` into an empty `CommitInfo`
unfoldable pub unmarshal_commit : Json → Option CommitInfo
unfolding put_commit read_members
unmarshal_commit = read_struct put_commit no_commit
