-- ===== src/Activity/Tags.antt =====
-- `StoreVersionTags` of internal/activity/version_ordering.go.
pub mod Laws
use system_of_adownload.Prelude.{List, Text, [], if◌then◌else◌, is_empty, length, suc, ℕ, ◌+◌, ◌∷◌}
use system_of_adownload.Activity.Ordering.{VersionTagSet}
use system_of_adownload.Db.Tx.{Db, ◌>>◌, pure, Faults, with_tx}
use system_of_adownload.Db.Versions.{delete_artifact_version_tags, create_artifact_version_tag}
use system_of_adownload.Prelude.Map.{Map}

module _ (fails : Faults) where
  -- The inner loop, over the tags of a version, in one of the orders that Go may take.
  pub create_tags : ℕ → ℕ → Map Text → Db (Unit {0})
  create_tags call version [] = pure tt
  create_tags call version ((key, value) ∷ tags) =
      create_artifact_version_tag fails call
        (record { artifact_version_id = version; tag_key = key; tag_value = value })
      >> create_tags (suc call) version tags

  -- The loop of the transaction; `call` counts its calls.
  pub tags_loop : ℕ → List VersionTagSet → Db (Unit {0})
  unfolding create_tags
  tags_loop call [] = pure tt
  tags_loop call (vt ∷ rest) =
      delete_artifact_version_tags fails call vt.version_id
      >> create_tags (suc call) vt.version_id vt.tags
      >> tags_loop (suc call + length vt.tags) rest

  unfoldable pub store_version_tags : List VersionTagSet → Db (Unit {0})
  unfolding tags_loop with_tx
  store_version_tags sets = if is_empty sets then pure tt else with_tx fails (tags_loop 0 sets)
