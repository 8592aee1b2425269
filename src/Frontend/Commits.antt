-- ===== src/Frontend/Commits.antt =====
-- internal/frontend/commits.go and the reading of commit bodies in handlers.go. A time is a value of
-- the type `Time`; what package time makes of it, and `relativeTime`, which rounds floats, are
-- parameters.
use system_of_adownload.Domain.Json.{Json}
use system_of_adownload.Prelude.{
  Bool, List, Option, Text, [], codes, contains, drop, false, has_prefix, if◌then◌else◌, is_empty,
  length, lower, map, none, not, some, split, text_eq, trim_space, true, ◌&&◌, ◌∷◌, ◌||◌,
}
use system_of_adownload.Activity.Enrichment.{unmarshal}
use system_of_adownload.Domain.Commit.{
  CommitAuthor, CommitSummary, Changelog, changelog, Changelogs, no_submodules, submodule,
  CommitInfo, commit_url, trim_right, trim_suffix,
}

-- `CommitEntry`
pub record CommitEntry : Type 0 where
  pub message : Text
  pub body : Text
  pub author : Text
  pub relative_time : Text
  pub absolute_time : Text
  pub link : Text
  pub has_body : Bool

-- `SubmoduleChangelog`
pub record SubmoduleChangelog : Type 0 where
  pub name : Text
  pub commits : List CommitEntry

-- What `parseCommitBody` returns.
pub record ParsedBody : Type 0 where
  pub commits : List CommitEntry
  pub submodules : List SubmoduleChangelog
  pub processing : Bool

-- `deduplicateCommitBody`
unfoldable deduplicate_commit_body : Text → Text → Text
unfolding has_prefix trim_space
deduplicate_commit_body message body =
    if is_empty body || text_eq body message
    then []
    else if has_prefix body message
    then trim_space (drop (length message) body)
    else body

-- `isExperimental`
unfoldable pub is_experimental : Text → Bool
unfolding contains
is_experimental version =
    let v = map lower version in contains v (codes "0.0-rc") || contains v (codes "snapshot")

-- `commitAuthorName`
abbrev commit_author_name : Option CommitAuthor → Text
commit_author_name none = codes "Unknown"
commit_author_name (some a) = a.name

-- `shortRepoName`: what stands behind the last slash.
abbrev last_part : Text → List Text → Text
last_part s [] = s
last_part s (t ∷ rest) = last_part t rest

unfoldable short_repo_name : Text → Text
unfolding split trim_right trim_suffix
short_repo_name url =
    let s = trim_suffix (codes ".git") (trim_right b'/' url) in last_part s (split b'/' s)

abbrev commits_of : Changelog → List CommitSummary
commits_of (changelog _ commits _) = commits

abbrev submodules_of : Changelog → Changelogs
submodules_of (changelog _ _ subs) = subs

abbrev nothing : Bool → ParsedBody
nothing processing = record { commits = []; submodules = []; processing = processing }

-- The parameters: `time.Parse` with the layout RFC3339, `relativeTime`, and `Format`.
module _ {Time : Type 0} (parse : Text → Option Time) (relative format : Time → Text) where
  abbrev with_time : CommitEntry → Option Time → CommitEntry
  with_time e none = e
  with_time e (some t) = record e { relative_time = relative t; absolute_time = format t }

  abbrev with_date : Text → CommitEntry → CommitEntry
  with_date date e = if is_empty date then e else with_time e (parse date)

  -- `commitSummaryToEntry`
  unfoldable commit_summary_to_entry : CommitSummary → CommitEntry
  commit_summary_to_entry c = with_date c.commit_date (record {
    message = c.message;
    body = [];
    author = commit_author_name c.author;
    relative_time = [];
    absolute_time = [];
    link = c.url;
    has_body = false;
  })

  -- `buildHeadEntry`
  unfoldable build_head_entry : CommitInfo → CommitEntry
  unfolding deduplicate_commit_body commit_url
  build_head_entry c =
      let body = deduplicate_commit_body c.message c.body in
      with_date c.commit_date (record {
        message = c.message;
        body = body;
        author = commit_author_name c.author;
        relative_time = [];
        absolute_time = [];
        link =
            if is_empty c.url && (not (is_empty c.repository) && not (is_empty c.sha))
            then commit_url c.repository c.sha
            else c.url;
        has_body = not (is_empty body);
      })

  -- The loop of `parseSubmoduleChangelogs`, which makes a link of every repository; the order of a Go
  -- map is that of the list.
  abbrev submodule_entry : Text → CommitSummary → CommitEntry
  submodule_entry repo c =
      let e = commit_summary_to_entry c in
      if is_empty e.link && not (is_empty c.sha)
      then record e { link = commit_url repo c.sha }
      else e

  unfoldable parse_submodule_changelogs : Changelogs → List SubmoduleChangelog
  unfolding commit_summary_to_entry commit_url short_repo_name
  parse_submodule_changelogs no_submodules = []
  parse_submodule_changelogs (submodule repo cl rest) =
      let later = parse_submodule_changelogs rest in
      if is_empty (commits_of cl)
      then later
      else record {
        name = short_repo_name repo;
        commits = map (submodule_entry repo) (commits_of cl);
      }
        ∷ later

  -- An entry of the changelog: a link wants a repository.
  abbrev changelog_entry : Text → CommitSummary → CommitEntry
  changelog_entry repo c =
      let e = commit_summary_to_entry c in
      if is_empty e.link && (not (is_empty repo) && not (is_empty c.sha))
      then record e { link = commit_url repo c.sha }
      else e

  -- The body of the head commit goes to the first entry.
  abbrev put_body : CommitEntry → Text → CommitEntry
  put_body e text = if is_empty text then e else record e { body = text; has_body = true }

  unfoldable with_head_body : Text → List CommitEntry → List CommitEntry
  unfolding deduplicate_commit_body
  with_head_body text [] = []
  with_head_body text (e ∷ entries) =
      (if is_empty text then e else put_body e (deduplicate_commit_body e.message text)) ∷ entries

  abbrev is_processing : CommitInfo → Bool
  is_processing c =
      is_empty c.enriched_at || text_eq c.changelog_status (codes "pending_predecessor")

  -- Without the commits of a changelog: nothing before the enrichment, and nothing for a commit that
  -- it has not found.
  abbrev without_changelog : CommitInfo → ParsedBody
  without_changelog c =
      if is_empty c.enriched_at
      then nothing true
      else if is_empty c.message
      then nothing false
      else record {
        commits = build_head_entry c ∷ [];
        submodules = [];
        processing = is_processing c;
      }

  abbrev with_changelog : CommitInfo → Option Changelog → ParsedBody
  with_changelog c none = without_changelog c
  with_changelog c (some cl) = if is_empty (commits_of cl) then without_changelog c else record {
    commits = with_head_body c.body (map (changelog_entry c.repository) (commits_of cl));
    submodules = parse_submodule_changelogs (submodules_of cl);
    processing = is_processing c;
  }

  abbrev parsed : Option CommitInfo → ParsedBody
  parsed none = nothing false
  parsed (some c) = if is_empty c.sha then nothing false else with_changelog c c.changelog

  -- `parseCommitBody`; a body that is not there has an empty sha.
  unfoldable pub parse_commit_body : Option Json → ParsedBody
  unfolding commit_summary_to_entry build_head_entry parse_submodule_changelogs with_head_body
  parse_commit_body raw = parsed (unmarshal raw)
