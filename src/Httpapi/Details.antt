-- ===== src/Httpapi/Details.antt =====
-- The answers about one version and one artifact in internal/httpapi/handler.go. A pointer of the API
-- is an `Option`. A time is a value of the type `Time`, which `time.Parse` makes from a layout and a
-- text; `time.Time{}` is its zero.
pub mod Laws
use system_of_adownload.Prelude.{
  Bool, List, Option, Ordering, Text, [], codes, if◌then◌else◌, is_empty, map, none, not, some,
  true, ◌&&◌, ◌++◌, ◌∷◌,
}
use system_of_adownload.Activity.Enrichment.{unmarshal}
use system_of_adownload.App.Details.{VersionInfoDetail, get_artifact, get_version_info}
use system_of_adownload.App.Service.{Artifact}
use system_of_adownload.App.Versions.{VersionEntry, GetVersionsResult, get_versions}
use system_of_adownload.Db.Details.{VersionAsset}
use system_of_adownload.Db.Filter.{VersionQueryParams}
use system_of_adownload.Db.Models.{Store}
use system_of_adownload.Db.Tx.{
  Error, artifact_not_found, version_not_found, Result, ok, err, Faults,
}
use system_of_adownload.Domain.Commit.{
  CommitAuthor, CommitSummary, Changelog, changelog, Changelogs, no_submodules, submodule,
  CommitInfo, commit_url,
}
use system_of_adownload.Httpapi.Handler.{
  ArtifactResponse, answer, artifact_response, artifact_errors,
}
use system_of_adownload.Httpapi.Versions.{
  parse_tags, request_tags, Response, answered, bad_request, conflict, missing, broken, passed_on,
}
use system_of_adownload.Prelude.Map.{Map}

-- `api.Asset`
pub record ApiAsset : Type 0 where
  pub classifier : Option Text
  pub download_url : Option Text
  pub md5 : Option Text
  pub sha1 : Option Text
  pub extension : Option Text

-- `if x != "" { y = &x }`
abbrev non_empty : Text → Option Text
non_empty x = if is_empty x then none else some x

abbrev api_asset : VersionAsset → ApiAsset
api_asset a = record {
  classifier = some a.classifier;
  download_url = some a.download_url;
  md5 = non_empty a.md5;
  sha1 = non_empty a.sha1;
  extension = non_empty a.extension;
}

-- `if len(tags) > 0`
abbrev some_tags : Map Text → Option (Map Text)
some_tags tags = if is_empty tags then none else some tags

-- `api.Commit`; an author has both a name and an email.
pub record ApiCommit (Time : Type 0) : Type 0 where
  pub sha : Text
  pub link : Text
  pub message : Option Text
  pub body : Option Text
  pub commit_date : Option Time
  pub author : Option CommitAuthor

pub record CommitEntry (Time : Type 0) : Type 0 where
  pub commit : ApiCommit Time
  pub submodule_commits : Option (List (ApiCommit Time))

-- `api.VersionInfo`: the fields that are always there, and those that may be nil. The commits are
-- those of the pointer to a struct with a slice.
pub record VersionInfoResponse (Time : Type 0) : Type 0 where
  pub group_id : Text
  pub artifact_id : Text
  pub version : Text
  pub assets : List ApiAsset
  pub tags : Option (Map Text)
  pub recommended : Bool
  pub commits : Option (List (CommitEntry Time))

-- The layouts of `parseDate`, the first of which is `time.RFC3339`.
abbrev layouts : List Text
layouts =
    codes "2006-01-02T15:04:05Z07:00" ∷ codes "2006-01-02T15:04:05-07:00" ∷ codes "2006-01-02" ∷ []

-- The commits of a changelog, and those of its submodules; the order of a Go map is that of the list.
abbrev commits_of : Changelog → List CommitSummary
commits_of (changelog _ commits _) = commits

abbrev pub version_errors {ℓ} : {A : Type ℓ} → Error → Response A
version_errors version_not_found = missing
version_errors e = passed_on e

-- The parameters of the listing in `GetLatestVersion`.
abbrev pub latest_params : Text → Text → Option Bool → Map Text → VersionQueryParams
latest_params group artifact recommended tags = record {
  group_id = group;
  artifact_id = artifact;
  recommended = recommended;
  tags = tags;
  limit = 1;
  offset = 0;
}

module _ {Time : Type 0} (parse : Text → Text → Option Time) (is_zero : Time → Bool) where
  -- `parseDate`; `none` is `time.Time{}`, which a text may also be parsed into.
  unfoldable parse_date : List Text → Text → Option Time
  parse_date [] s = none
  parse_date (layout ∷ rest) s =
      let later = parse_date rest s in elim (parse layout s) [ none ↦ later | some t ↦ some t ]

  abbrev not_zero : Option Time → Option Time
  not_zero none = none
  not_zero (some t) = if is_zero t then none else some t

  abbrev date_of : Text → Option Time
  date_of s = if is_empty s then none else not_zero (parse_date layouts s)

  -- `commitInfoToAPICommit`
  unfoldable commit_info_to_api_commit : CommitInfo → ApiCommit Time
  unfolding commit_url parse_date
  commit_info_to_api_commit c = record {
    sha = c.sha;
    link =
        if is_empty c.url && not (is_empty c.repository)
        then commit_url c.repository c.sha
        else c.url;
    message = non_empty c.message;
    body = non_empty c.body;
    commit_date = date_of c.commit_date;
    author = c.author;
  }

  -- `commitSummaryToAPICommit`
  unfoldable commit_summary_to_api_commit : Text → CommitSummary → ApiCommit Time
  unfolding commit_url parse_date
  commit_summary_to_api_commit repo c = record {
    sha = c.sha;
    link = if is_empty c.url then commit_url repo c.sha else c.url;
    message = non_empty c.message;
    body = none;
    commit_date = date_of c.commit_date;
    author = c.author;
  }

  -- The loop over the submodules.
  unfoldable submodule_commits_of : Changelogs → List (ApiCommit Time)
  unfolding commit_summary_to_api_commit
  submodule_commits_of no_submodules = []
  submodule_commits_of (submodule repo cl rest) =
      map (commit_summary_to_api_commit repo) (commits_of cl) ++ submodule_commits_of rest

  abbrev entry : ApiCommit Time → CommitEntry Time
  entry c = record { commit = c; submodule_commits = none }

  -- The first entry takes the commits of the submodules, if there are any.
  abbrev with_submodules : List (ApiCommit Time) → List (CommitEntry Time) → List (CommitEntry Time)
  with_submodules subs [] = []
  with_submodules subs (e ∷ entries) =
      (if is_empty subs then e else record e { submodule_commits = some subs }) ∷ entries

  abbrev changelog_entries : Text → Changelog → List (CommitEntry Time)
  changelog_entries repo (changelog _ commits subs) =
      with_submodules (submodule_commits_of subs)
        (map (λ c. entry (commit_summary_to_api_commit repo c)) commits)

  -- The entries of a commit: those of its changelog, unless it has no commits.
  abbrev commit_entries : CommitInfo → Option Changelog → List (CommitEntry Time)
  commit_entries c none = entry (commit_info_to_api_commit c) ∷ []
  commit_entries c (some cl) =
      if is_empty (commits_of cl)
      then entry (commit_info_to_api_commit c) ∷ []
      else changelog_entries c.repository cl

  abbrev shown_commit : Option CommitInfo → Option (List (CommitEntry Time))
  shown_commit none = none
  shown_commit (some c) = if is_empty c.sha then none else some (commit_entries c c.changelog)

  -- `buildVersionInfoResponse`; a body that is not there has an empty sha.
  unfoldable pub build_version_info_response : VersionInfoDetail → VersionInfoResponse Time
  unfolding commit_info_to_api_commit commit_summary_to_api_commit submodule_commits_of
  build_version_info_response d = record {
    group_id = d.group_id;
    artifact_id = d.artifact_id;
    version = d.version;
    assets = map api_asset d.assets;
    tags = some_tags d.tags;
    recommended = d.recommended;
    commits = shown_commit (unmarshal d.commit_body);
  }

  abbrev pub built :
      Response VersionInfoDetail × Store → Response (VersionInfoResponse Time) × Store
  built (answered d, s) = (answered (build_version_info_response d), s)
  built (bad_request, s) = (bad_request, s)
  built (conflict, s) = (conflict, s)
  built (missing, s) = (missing, s)
  built (broken, s) = (broken, s)
  built (passed_on e, s) = (passed_on e, s)

  module _ (fails : Faults) where
    -- `GetVersionInfo`
    unfoldable pub get_version_info_handler :
        Text → Text → Text → Store → Response (VersionInfoResponse Time) × Store
    unfolding get_version_info build_version_info_response
    get_version_info_handler group artifact version s =
        built (answer version_errors (get_version_info fails group artifact version s))

    -- Every error of the second call is not found.
    abbrev pub latest_detail :
        Text → Text → List VersionEntry → Store → Response (VersionInfoResponse Time) × Store
    latest_detail group artifact [] s = (missing, s)
    latest_detail group artifact (v ∷ _) s =
        built (answer (λ _. missing) (get_version_info fails group artifact v.version s))

    abbrev pub latest_entry :
        Text → Text → Result GetVersionsResult × Store → Response (VersionInfoResponse Time) × Store
    latest_entry group artifact (ok r, s) = latest_detail group artifact r.entries s
    latest_entry group artifact (err artifact_not_found, s) = (missing, s)
    latest_entry group artifact (err e, s) = (passed_on e, s)

    abbrev pub latest_of :
        Text
        → Text
        → Option Bool
        → Option (Map Text)
        → Store
        → Response (VersionInfoResponse Time) × Store
    latest_of group artifact recommended none s = (missing, s)
    latest_of group artifact recommended (some tags) s =
        latest_entry group artifact
          (get_versions fails (latest_params group artifact recommended tags) s)

    -- `GetLatestVersion`: tags that are not valid are not found.
    unfoldable pub get_latest_version :
        Text
        → Text
        → Option Bool
        → Option Text
        → Store
        → Response (VersionInfoResponse Time) × Store
    unfolding get_version_info build_version_info_response get_versions parse_tags
    get_latest_version group artifact recommended tags s =
        latest_of group artifact recommended (request_tags tags) s

-- `GetArtifact`
unfoldable get_artifact_handler :
    Faults
    → (Text → Text → Ordering)
    → Text
    → Text
    → Store
    → Response (Artifact × Map (List Text)) × Store
unfolding get_artifact
get_artifact_handler fails collate group artifact s =
    answer artifact_errors (get_artifact fails collate group artifact s)
