-- ===== src/Activity/Enrichment/Laws.antt =====
-- What the enrichment activities read and store.
use mathlib.Core.Path.{subst}
use system_of_adownload.Domain.Json.{Json}
use system_of_adownload.Domain.Json.Commits.{marshal_commit, unmarshal_commit}
use system_of_adownload.Domain.Json.Laws.{unmarshal_commit-marshal_commit}
use system_of_adownload.Prelude.{
  All, Bool-cases, List, Option, [], ap, arith, codes, false, if◌then◌else◌, inl, inr, is_empty,
  none, some, sym, text_eq, ℕ, ◌==◌, ◌∙◌, ◌∷◌, ◌≡◌,
}
use system_of_adownload.Activity.Enrichment.{
  VersionForEnrichment, with_commit, unmarshal, for_enrichment, merge_changelog, put_changelog,
  store_enriched_commit, store_changelog,
}
use system_of_adownload.Db.Commits.{
  set_commit_body, get_artifact_version_by_id, update_artifact_version_commit_body,
}
use system_of_adownload.Db.Models.{ArtifactVersion, Store}
use system_of_adownload.Db.Registry.{one}
use system_of_adownload.Db.Tx.{ok, Db, ◌>>=◌, Faults}
use system_of_adownload.Db.Tx.Laws.{with_tx-ok, after-split, ok-injective, ask-ok}
use system_of_adownload.Domain.Commit.{Changelog, CommitInfo}
use system_of_adownload.Prelude.Rows.{find, update, find-holds, find-update}

abbrev pub IsNamed : VersionForEnrichment → Type 0
IsNamed v = is_empty v.commit_sha ≡ false

row-IsNamed :
    (r : ArtifactVersion) (o : Option CommitInfo) (rest : List VersionForEnrichment)
    → All IsNamed rest
    → All IsNamed
        (elim o [ none ↦ rest | some c ↦ if is_empty c.sha then rest else with_commit r c ∷ rest ])
row-IsNamed r none rest h = h
row-IsNamed r (some c) rest h = elim (Bool-cases (is_empty c.sha)) [
  | inl f ↦ rw f h
  | inr f ↦ rw f (f, h)
]

-- `FetchVersionsForEnrichment` and `FetchEnrichedVersions` give no version without a sha.
pub for_enrichment-IsNamed : (rows : List ArtifactVersion) → All IsNamed (for_enrichment rows)
unfolding for_enrichment
for_enrichment-IsNamed [] = tt
for_enrichment-IsNamed (r ∷ rows) =
    row-IsNamed r (unmarshal r.commit_body) (for_enrichment rows) (for_enrichment-IsNamed rows)

module _ (fails : Faults) (i : ℕ) where
  -- `StoreChangelog`, on the row that it has read.
  abbrev merge_row : Changelog → ArtifactVersion → Db (Unit {0})
  merge_row cl w = put_changelog fails i cl (unmarshal w.commit_body)

  update_ok :
      (b : Json) (s s' : Store)
      → update_artifact_version_commit_body fails i b s ≡ (ok tt, s')
      → s'.versions ≡ update (λ v. v.id == i) (set_commit_body (some b)) s.versions
  update_ok b s s' h = elim (Bool-cases (fails (codes "UpdateArtifactVersionCommitBody") 0)) [
    | inl e ↦ absurd (ground arith)
    | inr e ↦ sym (ap (λ r. r.1.versions) (rw e at h))
  ]

  update_body_lem :
      (b : Json) (v : ArtifactVersion) (s s' : Store)
      → find (λ w. w.id == i) s.versions ≡ some v
      → update_artifact_version_commit_body fails i b s ≡ (ok tt, s')
      → find (λ w. w.id == i) s'.versions ≡ some (set_commit_body (some b) v)
  update_body_lem b v s s' f h =
      ap (find (λ w. w.id == i)) (update_ok b s s' h)
      ∙ find-update (λ w. w.id == i) (set_commit_body (some b)) s.versions v
          (find-holds (λ w. w.id == i) s.versions v f) f

  get_by_id_lem :
      (w : ArtifactVersion) (s : Store) (a : ArtifactVersion) (t : Store)
      → find (λ z. z.id == i) s.versions ≡ some w
      → get_artifact_version_by_id fails i s ≡ (ok a, t)
      → (a ≡ w) × (t ≡ s)
  get_by_id_lem w s a t f h = ok-injective w a s t (
      sym (ap (λ o. one o s) f)
      ∙ ask-ok fails (codes "GetArtifactVersionByID") 0
          (λ r. one (find (λ z. z.id == i) r.versions) r) s a t h)

  -- `StoreEnrichedCommit` and then `StoreChangelog`, on a version that there is: the JSON of the row
  -- unmarshals to the commit as it was stored, every field kept, with the changelog and without the
  -- mark of a pending predecessor, and no other column of the row has changed.
  pub store_changelog-store_enriched_commit :
      (c : CommitInfo) (cl : Changelog) (v : ArtifactVersion) (s s1 s2 : Store)
      → find (λ w. w.id == i) s.versions ≡ some v
      → store_enriched_commit fails i c s ≡ (ok tt, s1)
      → store_changelog fails i cl s1 ≡ (ok tt, s2)
      → (body : Json) × (find (λ w. w.id == i) s2.versions
          ≡ some (record v { commit_body = some body }))
        × (unmarshal_commit body
            ≡ some (record c {
              changelog = some cl;
              changelog_status =
                  if text_eq c.changelog_status (codes "pending_predecessor")
                  then []
                  else c.changelog_status;
            }))
  unfolding store_enriched_commit store_changelog
  store_changelog-store_enriched_commit c cl v s s1 s2 f h k =
      let j = marshal_commit c in
      let merged = marshal_commit (merge_changelog cl c) in
      let e =
        update_body_lem j v s s1 f
          (with_tx-ok fails (update_artifact_version_commit_body fails i j) s s1 tt h) in
      let (a, t, g, m) =
        after-split (merge_row cl) (get_artifact_version_by_id fails i s1) tt s2
          (with_tx-ok fails (get_artifact_version_by_id fails i >>= merge_row cl) s1 s2 tt k) in
      let (x, y) = get_by_id_lem (set_commit_body (some j) v) s1 a t e g in
      let n =
        subst (λ o. put_changelog fails i cl o t ≡ (ok tt, s2)) (unmarshal_commit-marshal_commit c)
          (subst (λ z. merge_row cl z t ≡ (ok tt, s2)) x m) in
      (
        merged,
        update_body_lem merged (set_commit_body (some j) v) t s2
            (ap (λ r. find (λ w. w.id == i) r.versions) y ∙ e) n,
        unmarshal_commit-marshal_commit (merge_changelog cl c),
      )
