-- ===== src/Db/Models.antt =====
-- internal/db/models.go and the tables of db/schema.sql. The schema of an artifact
-- and a `commit_body` are JSON; of `git_repositories` the rows have what it unmarshals to. A nullable column and a pointer are an `Option`.
use system_of_adownload.Prelude.{Bool, List, Option, Text, ℕ, ℤ}
use system_of_adownload.Domain.Json.{Json}

-- `Group`
pub record GroupRow : Type 0 where
  pub maven_id : Text
  pub name : Text
  pub website : Option Text

-- `Artifact`. Of `git_repositories`, `none` is the JSON null of a nil slice.
pub record ArtifactRow : Type 0 where
  pub id : ℕ
  pub group_id : Text
  pub artifact_id : Text
  pub name : Text
  pub website : Option Text
  pub issues : Option Text
  pub git_repositories : Option (List Text)
  pub version_schema : Option Json

pub record ArtifactVersion : Type 0 where
  pub id : ℕ
  pub artifact_id : ℕ
  pub version : Text
  pub sort_order : ℤ
  pub recommended : Bool
  pub commit_body : Option Json

-- `ArtifactVersionedAsset`
pub record AssetRow : Type 0 where
  pub id : ℕ
  pub artifact_version_id : ℕ
  pub classifier : Option Text
  pub sha256 : Option Text
  pub download_url : Text
  pub md5 : Option Text
  pub sha1 : Option Text
  pub sha512 : Option Text
  pub extension : Option Text

-- `ArtifactVersionedTag`
pub record TagRow : Type 0 where
  pub artifact_version_id : ℕ
  pub tag_key : Text
  pub tag_value : Text

-- The database: its tables and the next values of three serial columns.
pub record Store : Type 0 where
  pub groups : List GroupRow
  pub artifacts : List ArtifactRow
  pub versions : List ArtifactVersion
  pub tags : List TagRow
  pub assets : List AssetRow
  pub next_artifact : ℕ
  pub next_version : ℕ
  pub next_asset : ℕ
