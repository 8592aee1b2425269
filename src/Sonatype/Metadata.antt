-- ===== src/Sonatype/Metadata.antt =====
-- internal/sonatype/metadata.go: the versions of maven-metadata.xml, and the client as a whole.
use system_of_adownload.Prelude.{
  List, Text, [], codes, if◌then◌else◌, map, none, not, some, ℕ, ◌++◌, ◌==◌, ◌||◌,
}
use system_of_adownload.Activity.Sync.{VersionInfo, Sonatype}
use system_of_adownload.Db.Tx.{other, Result, ok, err}
use system_of_adownload.Sonatype.{
  Reply, broken, reply, request_failed, undecodable, unexpected_status, auth_error, Fetched,
  fetched, failed, unfinished, Server, HttpClient, version_info, fetch_versions,
}
use system_of_adownload.Sonatype.Assets.{version_has_assets}

module _ (server : Server) (c : HttpClient) where
  -- The URL of maven-metadata.xml.
  abbrev metadata_url : Text → Text → Text
  metadata_url group artifact =
      c.base_url
      ++ codes "/repository/"
      ++ c.repo_name
      ++ codes "/"
      ++ map (λ x. if x == b'.' then b'/' else x) group
      ++ codes "/"
      ++ artifact
      ++ codes "/maven-metadata.xml"

  abbrev pub metadata_reply : Text → Text → Reply (List Text) → Fetched (List VersionInfo)
  metadata_reply group artifact broken = failed request_failed
  metadata_reply group artifact (reply status body) =
      if status == 404
      then fetched []
      else if status == 401 || status == 403
      then failed (auth_error status)
      else if not (status == 200)
      then failed (unexpected_status status)
      else elim body [
        | none ↦ failed undecodable
        | some versions ↦ fetched (map (version_info group artifact) versions)
      ]

  -- `FetchVersionsFromMetadata`
  unfoldable pub fetch_versions_from_metadata : Text → Text → Fetched (List VersionInfo)
  fetch_versions_from_metadata group artifact =
      metadata_reply group artifact (server.metadata (metadata_url group artifact))

-- The client that the activities of internal/activity/version_sync.go call.
abbrev as_result {ℓ} : {A : Type ℓ} → Fetched A → Result A
as_result (fetched a) = ok a
as_result (failed e) = err other
as_result unfinished = err other

abbrev http_sonatype : Server → HttpClient → ℕ → Sonatype
http_sonatype server c fuel = record {
  fetch_versions_from_metadata =
      λ group artifact. as_result (fetch_versions_from_metadata server c group artifact);
  fetch_versions = λ group artifact. as_result (fetch_versions server c fuel group artifact);
  version_has_assets =
      λ group artifact version. as_result (version_has_assets server c fuel group artifact version);
}
