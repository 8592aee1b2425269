-- ===== src/Activity/Sync.antt =====
-- internal/activity/version_sync.go. Sonatype is a parameter: what it answers to a request for the
-- metadata, for the search and for the assets of a version. Heartbeats and counters are left out.
pub mod Pages
pub mod Gate
pub mod NewVersions
pub mod Laws
pub mod Inserts
use system_of_adownload.Db.Registry
use system_of_adownload.Prelude.{
  Bool, List, Ordering, Text, [], codes, false, if◌then◌else◌, is_empty, length, ltb, not, suc,
  text_eq, true, zero, ℕ, ◌++◌, ◌+◌, ◌||◌, ◌∷◌,
}
use system_of_adownload.Db.Models.{Store}
use system_of_adownload.Db.Tx.{
  other, Result, ok, err, Db, ◌>>=◌, ◌>>◌, pure, raise, Faults, with_tx,
}
use system_of_adownload.Db.Versions.{
  list_artifact_version_strings_by_artifact_id, insert_new_artifact_version,
}
use system_of_adownload.Prelude.Rows.{any, select}

-- `domain.VersionInfo`
pub record VersionInfo : Type 0 where
  pub group_id : Text
  pub artifact_id : Text
  pub version : Text

-- `versionPageSize`
abbrev version_page_size : ℕ
version_page_size = 100

-- `metadataInitialSeedProbeCap`
abbrev metadata_initial_seed_probe_cap : ℕ
metadata_initial_seed_probe_cap = 50

-- `_, known := existing[v.Version]`
abbrev pub is_known : List Text → VersionInfo → Bool
is_known existing v = any (text_eq v.version) existing

abbrev pub is_unknown : List Text → VersionInfo → Bool
is_unknown existing v = not (is_known existing v)

-- What the Sonatype client answers.
pub record Sonatype : Type 0 where
  pub fetch_versions_from_metadata : Text → Text → Result (List VersionInfo)
  pub fetch_versions : Text → Text → Result (List VersionInfo)
  pub version_has_assets : Text → Text → Text → Result Bool

abbrev lift {ℓ} : {A : Type ℓ} → Result A → Db A
lift r s = (r, s)

abbrev pub on_ok {ℓ κ} : {A : Type ℓ} {B : Type κ} → (A → B) → Result A → Result B
on_ok f (ok a) = ok (f a)
on_ok f (err e) = err e

-- The end of a round: a page that is not full is the last one.
abbrev next_page :
    (List Text → Db (List Text))
    → List Text
    → Result (List Text) × Store
    → Result (List Text) × Store
next_page more existing (ok page, s) =
    if ltb (length page) version_page_size
    then (ok (existing ++ page), s)
    else more (existing ++ page) s
next_page more existing (err e, s) = (err e, s)

-- The loop over the candidates: those that are known, and those that a probe finds.
pub accept : (Text → Result Bool) → List Text → List VersionInfo → Result (List VersionInfo)
accept probe existing [] = ok []
accept probe existing (v ∷ rest) =
    let later = accept probe existing rest in
    if is_known existing v then on_ok (λ kept. v ∷ kept) later else elim (probe v.version) [
      | ok true ↦ on_ok (λ kept. v ∷ kept) later
      | ok false ↦ later
      | err e ↦ err e
    ]

-- Whether there is something to probe: not on an initial seed, and not on a large backfill.
unfoldable pub gate :
    (Text → Result Bool) → List VersionInfo → List Text → Result (List VersionInfo)
unfolding accept select
gate probe candidates existing =
    if is_empty existing
    then ok []
    else if ltb metadata_initial_seed_probe_cap (length (select (is_unknown existing) candidates))
    then ok []
    else accept probe existing candidates

module _ (fails : Faults) where
  -- The loop of the transaction.
  pub insert_versions : ℕ → ℕ → List VersionInfo → Db (Unit {0})
  unfolding insert_new_artifact_version
  insert_versions call artifact [] = pure tt
  insert_versions call artifact (v ∷ rest) =
      insert_new_artifact_version fails call artifact v.version
      >> insert_versions (suc call) artifact rest

  pub store_pending : ℕ → List VersionInfo → Db (List VersionInfo)
  unfolding insert_versions with_tx
  store_pending artifact pending =
      if is_empty pending
      then pure []
      else (do _ ← with_tx fails (insert_versions 0 artifact pending); pure pending)

module _ (fails : Faults) (collate : Text → Text → Ordering) where
  -- The loop over the pages; every full page takes one unit of fuel.
  pub page_loop : ℕ → ℕ → ℕ → ℕ → List Text → Db (List Text)
  page_loop zero call artifact offset existing s = (err other, s)
  page_loop (suc fuel) call artifact offset existing s =
      next_page (page_loop fuel (suc call) artifact (offset + version_page_size)) existing (
        list_artifact_version_strings_by_artifact_id fails collate call artifact version_page_size
          offset s)

  -- There are fewer full pages than versions.
  pub existing_strings : ℕ → Db (List Text)
  unfolding page_loop
  existing_strings artifact s = page_loop (suc (length s.versions)) 0 artifact 0 [] s

  -- `existingVersionSet`
  unfoldable existing_version_set : Text → Text → Db (List Text)
  unfolding existing_strings
  existing_version_set group artifact = do
    a ← Registry.get_artifact_by_group_and_id fails group artifact
    existing_strings a.id

  -- `fetchVersionsMetadata`
  unfoldable fetch_versions_metadata : Sonatype → Text → Text → Db (List VersionInfo)
  unfolding gate existing_version_set
  fetch_versions_metadata client group artifact = do
    candidates ← lift (client.fetch_versions_from_metadata group artifact)
    if is_empty candidates then pure [] else (do
      existing ← existing_version_set group artifact
      lift (gate (client.version_has_assets group artifact) candidates existing))

  -- `FetchVersions`: no source is the search.
  unfoldable pub fetch_versions : Sonatype → Text → Text → Text → Db (List VersionInfo)
  unfolding fetch_versions_metadata
  fetch_versions client source group artifact =
      if is_empty source || text_eq source (codes "search")
      then lift (client.fetch_versions group artifact)
      else if text_eq source (codes "metadata")
      then fetch_versions_metadata client group artifact
      else raise other

  -- `StoreNewVersions`
  unfoldable pub store_new_versions : Text → Text → List VersionInfo → Db (List VersionInfo)
  unfolding store_pending existing_strings select
  store_new_versions group artifact versions = if is_empty versions then pure [] else (do
    a ← Registry.get_artifact_by_group_and_id fails group artifact
    existing ← existing_strings a.id
    store_pending fails a.id (select (is_unknown existing) versions))
