-- ===== src/Db/Versions.antt =====
-- The queries on versions and tags of internal/db/query.sql.go. `collate` is the collation of
-- Postgres, by which it orders texts.
use system_of_adownload.Prelude.{
  Bool, List, Ordering, Text, [], codes, compare_ℤ, drop, false, if◌then◌else◌, ltb, map, none, not,
  pos, suc, take, text_eq, ℕ, ℤ, ◌&&◌, ◌++◌, ◌==◌, ◌^◌, ◌∷◌,
}
use system_of_adownload.Activity.Sort.{sort_stable}
use system_of_adownload.Db.Models.{ArtifactVersion, TagRow, Store}
use system_of_adownload.Db.Registry.{is_artifact, upsert}
use system_of_adownload.Db.Tx.{other, ok, err, Db, Faults, ask}
use system_of_adownload.Prelude.Rows.{any, select, update}

-- `artifact_id = $1 AND version = $2`
abbrev pub is_version : ℕ → Text → ArtifactVersion → Bool
is_version artifact version v = v.artifact_id == artifact && text_eq v.version version

-- The defaults of the columns that `InsertNewArtifactVersion` leaves out.
abbrev pub bare_version : ℕ → Text → ℕ → ArtifactVersion
bare_version artifact version i = record {
  id = i;
  artifact_id = artifact;
  version = version;
  sort_order = pos 0;
  recommended = false;
  commit_body = none;
}

-- JOIN artifacts ... WHERE group_id = $1 AND artifact_id = $2
abbrev pub in_artifact : Store → Text → Text → ArtifactVersion → Bool
in_artifact s group artifact v =
    any (λ a. is_artifact group artifact a && a.id == v.artifact_id) s.artifacts

-- ORDER BY sort_order DESC; rows with the same order may come in any order.
abbrev pub newest_first : ArtifactVersion → ArtifactVersion → Ordering
newest_first a b = compare_ℤ b.sort_order a.sort_order

-- The versions of an artifact in the order of the collation.
unfoldable pub version_strings : (Text → Text → Ordering) → Store → ℕ → List Text
unfolding sort_stable select
version_strings collate s artifact =
    sort_stable collate (map (λ v. v.version) (select (λ v. v.artifact_id == artifact) s.versions))

-- `tag_key` of one version.
abbrev is_tag : ℕ → Text → TagRow → Bool
is_tag version key t = t.artifact_version_id == version && text_eq t.tag_key key

module _ (fails : Faults) where
  -- An int32 offset that has wrapped round is negative, which Postgres refuses. `call` counts the
  -- pages.
  abbrev pub list_artifact_version_strings_by_artifact_id :
      (Text → Text → Ordering) → ℕ → ℕ → ℕ → ℕ → Db (List Text)
  list_artifact_version_strings_by_artifact_id collate call artifact limit offset =
      ask fails (codes "ListArtifactVersionStringsByArtifactID") call (λ s.
        if ltb offset (2 ^ 31)
        then (ok (take limit (drop offset (version_strings collate s artifact))), s)
        else (err other, s))

  -- ON CONFLICT DO NOTHING; the foreign key on the artifact is checked.
  unfoldable pub insert_new_artifact_version : ℕ → ℕ → Text → Db (Unit {0})
  unfolding any
  insert_new_artifact_version call artifact version =
      ask fails (codes "InsertNewArtifactVersion") call (λ s.
        if any (is_version artifact version) s.versions
        then (ok tt, s)
        else if any (λ a. a.id == artifact) s.artifacts
        then (
          ok tt,
          record s {
            versions = s.versions ++ bare_version artifact version s.next_version ∷ [];
            next_version = suc s.next_version;
          },
        )
        else (err other, s))

  abbrev pub list_artifact_versions : Text → Text → Db (List ArtifactVersion)
  list_artifact_versions group artifact =
      ask fails (codes "ListArtifactVersions") 0
        (λ s. (ok (sort_stable newest_first (select (in_artifact s group artifact) s.versions)), s))

  abbrev pub update_artifact_version_order : ℕ → ℕ → ℤ → Bool → Db (Unit {0})
  update_artifact_version_order call version order recommended =
      ask fails (codes "UpdateArtifactVersionOrder") call (λ s. (
        ok tt,
        record s {
          versions =
              update (λ v. v.id == version)
                (λ v. record v { sort_order = order; recommended = recommended }) s.versions;
        },
      ))

  abbrev pub delete_artifact_version_tags : ℕ → ℕ → Db (Unit {0})
  delete_artifact_version_tags call version =
      ask fails (codes "DeleteArtifactVersionTags") call (λ s.
        (ok tt, record s { tags = select (λ t. not (t.artifact_version_id == version)) s.tags }))

  -- The foreign key on the version is checked.
  abbrev pub create_artifact_version_tag : ℕ → TagRow → Db (Unit {0})
  create_artifact_version_tag call t = ask fails (codes "CreateArtifactVersionTag") call (λ s.
      if any (λ v. v.id == t.artifact_version_id) s.versions
      then (
        ok tt,
        record s {
          tags =
              upsert (is_tag t.artifact_version_id t.tag_key)
                (λ old. record old { tag_value = t.tag_value }) t s.tags;
        },
      )
      else (err other, s))
