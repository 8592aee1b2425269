-- ===== src/Activity/Tags/Laws.antt =====
-- `StoreVersionTags` touches no version.
use system_of_adownload.Prelude.{
  List, Text, [], ap, arith, inl, inr, length, refl, suc, ℕ, ◌+◌, ◌∙◌, ◌∷◌, ◌≡◌,
}
use system_of_adownload.Activity.Ordering.{VersionTagSet}
use system_of_adownload.Activity.Tags.{create_tags, tags_loop, store_version_tags}
use system_of_adownload.Db.Models.{TagRow, Store}
use system_of_adownload.Db.Tx.{◌>>◌, Faults}
use system_of_adownload.Db.Tx.Laws.{with_tx-cases, after-keeps}
use system_of_adownload.Db.Versions.{delete_artifact_version_tags, create_artifact_version_tag}
use system_of_adownload.Prelude.Map.{Map}

module _ (fails : Faults) where
  create_artifact_version_tag-versions :
      (call : ℕ) (t : TagRow) (s : Store)
      → (create_artifact_version_tag fails call t s).1.versions ≡ s.versions
  create_artifact_version_tag-versions call t s = ground arith

  delete_artifact_version_tags-versions :
      (call version : ℕ) (s : Store)
      → (delete_artifact_version_tags fails call version s).1.versions ≡ s.versions
  delete_artifact_version_tags-versions call version s = ground arith

  create_tags-versions :
      (call version : ℕ) (tags : Map Text) (s : Store)
      → (create_tags fails call version tags s).1.versions ≡ s.versions
  unfolding create_tags
  create_tags-versions call version [] s = refl
  create_tags-versions call version ((k, v) ∷ tags) s =
      let t : TagRow = record { artifact_version_id = version; tag_key = k; tag_value = v } in
      after-keeps (λ r. r.versions) (λ _. create_tags fails (suc call) version tags)
        (create_artifact_version_tag fails call t s)
        (λ _ r. create_tags-versions (suc call) version tags r)
      ∙ create_artifact_version_tag-versions call t s

  tags_loop-versions :
      (call : ℕ) (sets : List VersionTagSet) (s : Store)
      → (tags_loop fails call sets s).1.versions ≡ s.versions
  unfolding tags_loop
  tags_loop-versions call [] s = refl
  tags_loop-versions call (vt ∷ rest) s =
      after-keeps (λ r. r.versions) (λ _. tags_loop fails (suc call + length vt.tags) rest)
        ((delete_artifact_version_tags fails call vt.version_id
            >> create_tags fails (suc call) vt.version_id vt.tags)
          s)
        (λ _ r. tags_loop-versions (suc call + length vt.tags) rest r)
      ∙ after-keeps (λ r. r.versions) (λ _. create_tags fails (suc call) vt.version_id vt.tags)
          (delete_artifact_version_tags fails call vt.version_id s)
          (λ _ r. create_tags-versions (suc call) vt.version_id vt.tags r)
      ∙ delete_artifact_version_tags-versions call vt.version_id s

  pub store_version_tags-versions :
      (sets : List VersionTagSet) (s : Store)
      → (store_version_tags fails sets s).1.versions ≡ s.versions
  unfolding store_version_tags
  store_version_tags-versions [] s = refl
  store_version_tags-versions (vt ∷ sets) s =
      elim (with_tx-cases fails (tags_loop fails 0 (vt ∷ sets)) s) [
        | inl e ↦ ap (λ t. t.versions) e
        | inr e ↦ ap (λ r. r.1.versions) e ∙ tags_loop-versions 0 (vt ∷ sets) s
      ]
