-- ===== src/Domain/Commit.antt =====
-- internal/domain/asset.go: the metadata of commits and assets, which goes into the database as JSON.
-- An optional string that is left out is the empty one.
use system_of_adownload.Prelude.{
  Bool, List, Option, Text, [], codes, if◌then◌else◌, is_empty, none, text_eq, ℕ, ◌&&◌, ◌++◌, ◌==◌,
  ◌∷◌,
}

pub record AssetInfo : Type 0 where
  pub download_url : Text
  pub path : Text
  pub content_type : Text
  pub classifier : Text
  pub extension : Text
  pub md5 : Text
  pub sha1 : Text
  pub sha256 : Text
  pub sha512 : Text

-- `ArtifactTag`
record ArtifactTag : Type 0 where
  pub name : Text
  pub regex : Text
  pub test : Text
  pub mark_as_recommended : Bool

pub record CommitAuthor : Type 0 where
  pub name : Text
  pub email : Text

pub record SubmoduleCommit : Type 0 where
  pub repository : Text
  pub sha : Text
  pub url : Text
  pub message : Text
  pub author : Option CommitAuthor
  pub commit_date : Text

pub record CommitSummary : Type 0 where
  pub sha : Text
  pub url : Text
  pub message : Text
  pub author : Option CommitAuthor
  pub commit_date : Text

-- The submodules are a Go map from a repository to its own changelog.
mutual
  pub data Changelog : Type 0 where
    changelog : Text → List CommitSummary → Changelogs → Changelog

  pub data Changelogs : Type 0 where
    no_submodules : Changelogs
    submodule : Text → Changelog → Changelogs → Changelogs

pub record CommitInfo : Type 0 where
  pub sha : Text
  pub repository : Text
  pub branch : Text
  pub url : Text
  pub message : Text
  pub body : Text
  pub author : Option CommitAuthor
  pub commit_date : Text
  pub submodules : List SubmoduleCommit
  pub changelog : Option Changelog
  pub enriched_at : Text
  pub changelog_status : Text

-- `CommitInfo{}`
abbrev pub no_commit : CommitInfo
no_commit = record {
  sha = [];
  repository = [];
  branch = [];
  url = [];
  message = [];
  body = [];
  author = none;
  commit_date = [];
  submodules = [];
  changelog = none;
  enriched_at = [];
  changelog_status = [];
}

-- `strings.TrimRight` with a cutset of one character.
unfoldable pub trim_right : ℕ → Text → Text
trim_right x [] = []
trim_right x (c ∷ s) = let rest = trim_right x s in if is_empty rest && c == x then [] else c ∷ rest

-- `strings.TrimSuffix`
unfoldable pub trim_suffix : Text → Text → Text
trim_suffix suffix [] = []
trim_suffix suffix (c ∷ s) =
    let rest = trim_suffix suffix s in if text_eq (c ∷ s) suffix then [] else c ∷ rest

-- `CommitURL`
unfoldable pub commit_url : Text → Text → Text
unfolding trim_right trim_suffix
commit_url repo sha = trim_suffix (codes ".git") (trim_right b'/' repo) ++ codes "/commit/" ++ sha
