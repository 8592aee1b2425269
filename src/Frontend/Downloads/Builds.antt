-- ===== src/Frontend/Downloads/Builds.antt =====
-- The queries of the downloads page against the listing of versions.
use system_of_adownload.Prelude.{
  Bool-cases, List, Option, Ordering, Text, [], ap, arith, codes, inl, inr, map, negsuc, none, pos,
  refl, some, sym, take, true, ℕ, ℤ, ◌∙◌, ◌∷◌, ◌≡◌, ◌⊎◌,
}
use system_of_adownload.Activity.Ordering.{int32}
use system_of_adownload.App.Versions.{entry_of}
use system_of_adownload.App.Versions.Laws.{page_at}
use system_of_adownload.Db.Details.{
  VersionWithAssets, VersionsWithAssetsResult, with_assets, list_versions_with_assets_call,
}
use system_of_adownload.Db.Filter.{
  VersionQueryParams, list_versions_with_assets, list_versions_filtered,
}
use system_of_adownload.Db.Filter.Exists.{same_key, list_versions_with_assets_lem}
use system_of_adownload.Db.Models.{ArtifactVersion, TagRow, Store}
use system_of_adownload.Db.Tx.{Error, Result, ok, err, Db, after, pure, attempt, Faults}
use system_of_adownload.Db.Tx.Laws.{after-split, ok-injective, ask-ok}
use system_of_adownload.Frontend.Commits.{CommitEntry}
use system_of_adownload.Frontend.Config.{PlatformConfig}
use system_of_adownload.Frontend.Downloads.{
  BuildDetail, or_none, first_build, or_empty, build_params, version_with_assets_to_build,
  fetch_recommended_build, builds_at, fetch_paginated_builds,
}
use system_of_adownload.Frontend.Pagination.{builds_per_page}
use system_of_adownload.Prelude.Map.{Map, lookup}
use system_of_adownload.Prelude.Rows.{IsUnique}

-- The builds of a page, by their versions, and the number of builds are those that `GetVersions` gives
-- for the tags, with the offset as an int32.
abbrev pub IsListing : PlatformConfig → Map Text → ℤ → Store → List Text → ℕ → Type 0
IsListing platform tags offset s versions total =
    (n : ℕ) × (offset ≡ pos n)
    × (versions
        ≡ map (λ e. e.version)
            (page_at (build_params platform tags none builds_per_page n) s).entries)
    × (total ≡ (page_at (build_params platform tags none builds_per_page n) s).total)

-- The first recommended build is shown, without its commits; none is, where there is none or the
-- query fails.
abbrev pub IsRecommended : Faults → PlatformConfig → Map Text → Store → Option BuildDetail → Type 0
IsRecommended fails platform tags s none =
    (fails (codes "ListVersionsWithAssets") 0 ≡ true)
    ⊎ ((page_at (build_params platform tags (some true) 1 0) s).entries ≡ [])
IsRecommended fails platform tags s (some b) =
    (take 1 (map (λ e. e.version) (page_at (build_params platform tags (some true) 1 0) s).entries)
      ≡ b.version ∷ [])
    × (b.commits ≡ [])

abbrev shown_version : Text → Option BuildDetail → Text
shown_version v none = v
shown_version v (some b) = b.version

abbrev shown_commits : Option BuildDetail → List CommitEntry
shown_commits none = []
shown_commits (some b) = b.commits

module _ {Time : Type 0} (parse : Text → Option Time) (relative format : Time → Text)
    (fails : Faults) (collate : Text → Text → Ordering) (platform : PlatformConfig) where
  pub fetch_recommended_build-store :
      (tags : Map Text) (s : Store)
      → (attempt (fetch_recommended_build parse relative format fails platform tags) s).1 ≡ s
  unfolding fetch_recommended_build list_versions_with_assets_call
  fetch_recommended_build-store tags s = ground arith

  abbrev to_build : Text → VersionWithAssets → BuildDetail
  to_build = version_with_assets_to_build parse relative format platform

  build-version :
      (mc : Text) (s : Store) (rows : List TagRow) (versions : List ArtifactVersion)
      → map (λ b. b.version) (map (to_build mc) (map (with_assets s) versions))
        ≡ map (λ e. e.version) (map (entry_of rows) versions)
  unfolding version_with_assets_to_build with_assets
  build-version mc s rows [] = refl
  build-version mc s rows (v ∷ versions) =
      ap (λ vs. v.version ∷ vs) (build-version mc s rows versions)

  -- What a query of builds gives.
  list_versions_with_assets_call-lem :
      (call : ℕ) (q : VersionQueryParams) (s s' : Store) (r : VersionsWithAssetsResult)
      → IsUnique same_key q.tags
      → list_versions_with_assets_call fails call q s ≡ (ok r, s')
      → (r.versions ≡ map (with_assets s) (list_versions_filtered s q))
        × (r.total ≡ (page_at q s).total)
        × (s' ≡ s)
  unfolding list_versions_with_assets_call page_at
  list_versions_with_assets_call-lem call q s s' r u h =
      let listed = list_versions_with_assets s q in
      let result : VersionsWithAssetsResult = record {
        versions = map (with_assets s) listed.0;
        total = listed.1;
      } in
      let (e, k) = ok-injective result r s s' (
        ask-ok fails (codes "ListVersionsWithAssets") call
          (λ s.
            let (shown, total) = list_versions_with_assets s q in
            (ok (record { versions = map (with_assets s) shown; total = total }), s))
          s r s' h) in
      let l = list_versions_with_assets_lem s q u in
      (
        ap (λ z. z.versions) e ∙ ap (λ z. map (with_assets s) z.0) l,
        ap (λ z. z.total) e ∙ ap (λ z. z.1) l,
        k,
      )

  abbrev all_builds : Text → VersionsWithAssetsResult → Db (List BuildDetail × ℕ)
  all_builds mc result = pure (map (to_build mc) result.versions, result.total)

  builds_at-lem :
      (tags : Map Text) (mc : Text) (z : ℤ) (s s' : Store) (b : List BuildDetail × ℕ)
      → IsUnique same_key tags
      → after (all_builds mc) (builds_at parse relative format fails platform tags z s) ≡ (ok b, s')
      → IsListing platform tags z s (map (λ b. b.version) b.0) b.1 × (s' ≡ s)
  builds_at-lem tags mc (negsuc n) s s' b u h = absurd cc
  builds_at-lem tags mc (pos n) s s' b u h =
      let q = build_params platform tags none builds_per_page n in
      let (r, t, e, k) =
        after-split (all_builds mc) (list_versions_with_assets_call fails 1 q s) b s' h in
      let (f, g, m) = list_versions_with_assets_call-lem 1 q s t r u e in
      let (x, y) = ok-injective (map (to_build mc) r.versions, r.total) b t s' k in
      (
        (
          n,
          refl,
          ap (λ z. map (λ b. b.version) z.0) x
              ∙ ap (λ vs. map (λ b. b.version) (map (to_build mc) vs)) f
              ∙ unfold page_at in build-version mc s s.tags (list_versions_filtered s q),
          ap (λ z. z.1) x ∙ g,
        ),
        y ∙ m,
      )

  pub fetch_paginated_builds-lem :
      (tags : Map Text) (offset : ℕ) (s s' : Store) (b : List BuildDetail × ℕ)
      → IsUnique same_key tags
      → fetch_paginated_builds parse relative format fails platform tags offset s ≡ (ok b, s')
      → IsListing platform tags (int32 offset) s (map (λ b. b.version) b.0) b.1 × (s' ≡ s)
  unfolding fetch_paginated_builds
  fetch_paginated_builds-lem tags offset s s' b u h =
      builds_at-lem tags (or_empty (lookup (codes "minecraft") tags)) (int32 offset) s s' b u h

  -- The recommended build, by its version, is the first of those that `GetVersions` gives.
  first_build-lem :
      (mc : Text) (s : Store) (rows : List TagRow) (versions : List ArtifactVersion)
      (b : BuildDetail)
      → first_build parse relative format platform mc (map (with_assets s) versions) ≡ some b
      → (take 1 (map (λ e. e.version) (map (entry_of rows) versions)) ≡ b.version ∷ [])
        × (b.commits ≡ [])
  unfolding version_with_assets_to_build with_assets
  first_build-lem mc s rows [] b h = absurd cc
  first_build-lem mc s rows (v ∷ versions) b h =
      (ap (λ o. shown_version v.version o ∷ []) h, ap (λ o. shown_commits o) (sym h))

  no_build-lem :
      (mc : Text) (s : Store) (rows : List TagRow) (versions : List ArtifactVersion)
      → first_build parse relative format platform mc (map (with_assets s) versions) ≡ none
      → map (entry_of rows) versions ≡ []
  no_build-lem mc s rows [] h = refl
  no_build-lem mc s rows (v ∷ versions) h = absurd cc

  is_shown :
      (tags : Map Text) (mc : Text) (s : Store) (rows : List TagRow)
      (versions : List ArtifactVersion) (o : Option BuildDetail)
      → (page_at (build_params platform tags (some true) 1 0) s).entries
        ≡ map (entry_of rows) versions
      → first_build parse relative format platform mc (map (with_assets s) versions) ≡ o
      → IsRecommended fails platform tags s o
  is_shown tags mc s rows versions none e h = inr (e ∙ no_build-lem mc s rows versions h)
  is_shown tags mc s rows versions (some b) e h =
      let (f, g) = first_build-lem mc s rows versions b h in
      (ap (λ es. take 1 (map (λ e. e.version) es)) e ∙ f, g)

  failed_call :
      (tags : Map Text) (s : Store) (e : Error)
      → (fetch_recommended_build parse relative format fails platform tags s).0 ≡ err e
      → fails (codes "ListVersionsWithAssets") 0 ≡ true
  unfolding fetch_recommended_build list_versions_with_assets_call
  failed_call tags s e h = elim (Bool-cases (fails (codes "ListVersionsWithAssets") 0)) [
    | inl f ↦ f
    | inr f ↦ absurd (let h' = rw f at h in cc)
  ]

  pub fetch_recommended_build-lem :
      (tags : Map Text) (s : Store) (r : Result (Option BuildDetail))
      → IsUnique same_key tags
      → (fetch_recommended_build parse relative format fails platform tags s).0 ≡ r
      → IsRecommended fails platform tags s (or_none parse relative format fails collate platform r)
  unfolding fetch_recommended_build
  fetch_recommended_build-lem tags s (err e) u h = inl (failed_call tags s e h)
  fetch_recommended_build-lem tags s (ok o) u h =
      let q = build_params platform tags (some true) 1 0 in
      let mc = or_empty (lookup (codes "minecraft") tags) in
      let found = fetch_recommended_build parse relative format fails platform tags s in
      let (r, t, e, k) =
        after-split (λ result. pure (first_build parse relative format platform mc result.versions))
          (list_versions_with_assets_call fails 0 q s) o found.1 (ap (λ r. (r, found.1)) h) in
      let (f, g, m) = list_versions_with_assets_call-lem 0 q s t r u e in
      let (x, y) =
        ok-injective (first_build parse relative format platform mc r.versions) o t found.1 k in
      is_shown tags mc s s.tags (list_versions_filtered s q) o (unfold page_at in refl)
        (ap (first_build parse relative format platform mc) (sym f) ∙ sym x)
