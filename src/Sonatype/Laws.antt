-- ===== src/Sonatype/Laws.antt =====
-- What the two searches of the client return, from a server whose pages come to an end.
use mathlib.Core.List.{flatten, append-nil, append_assoc, map-append}
use system_of_adownload.Prelude.{
  Bool, Bool-cases, List, Option, Text, [], ap, arith, if◌then◌else◌, inl, inr, length, map, none,
  not, refl, some, suc, sym, text_eq, text_eq_iff, text_eq_refl, true, zero, ℕ, ◌&&◌, ◌++◌, ◌∙◌,
  ◌∷◌, ◌||◌, is_empty, ◌≡◌, ◌≤◌, false,
}
use system_of_adownload.Activity.Sync.{VersionInfo}
use system_of_adownload.Domain.Commit.{AssetInfo}
use system_of_adownload.Prelude.Rows.{any, select, select-select, select_equal, select-append}
use system_of_adownload.Sonatype.{
  Page, Reply, reply, fetched, Server, HttpClient, SearchAssetItem, crawl, Seen, version_info,
  add_versions, search_page, fetch_versions,
}
use system_of_adownload.Sonatype.Assets.{
  asset_info, is_checksum, is_denied, add_assets, search_assets_page, search_assets,
  version_has_assets,
}

-- The server answers one page after the other, from this token on.
abbrev Serves : {A : Type 0} → (Option Text → Reply (Page A)) → Option Text → List (List A) → Type 0
Serves get token [] = ⊥
Serves get token (items ∷ []) =
    get token ≡ reply 200 (some (record { items = items; continuation_token = none }))
Serves get token (items ∷ page ∷ pages) =
    (next : Text) × (get token
      ≡ reply 200 (some (record { items = items; continuation_token = some next })))
    × Serves get (some next) (page ∷ pages)

absorbed {ℓ κ} : {A : Type ℓ} {S : Type κ} → (S → List A → S) → S → List (List A) → S
absorbed absorb s [] = s
absorbed absorb s (items ∷ pages) = absorbed absorb (absorb s items) pages

module _ {κ} {A : Type 0} {S : Type κ} (absorb : S → List A → S)
    (get : Option Text → Reply (Page A)) where
  -- With a unit of fuel for each page the loop ends, behind the last one.
  crawl_lem :
      (pages : List (List A)) (fuel : ℕ) (token : Option Text) (s : S)
      → length pages ≤ fuel
      → Serves get token pages
      → crawl absorb get fuel token s ≡ fetched (absorbed absorb s pages)
  unfolding crawl absorbed
  crawl_lem [] fuel token s l h = absurd h
  crawl_lem (items ∷ pages) zero token s l h = absurd (omega arith)
  crawl_lem (items ∷ []) (suc fuel) token s l h = rw h refl
  crawl_lem (items ∷ page ∷ pages) (suc fuel) token s l (next, e, h) =
      rw e (crawl_lem (page ∷ pages) fuel (some next) (absorb s items) (omega arith) h)

-- The first occurrences of the texts of a list, in their order.
unfoldable pub distinct : List Text → List Text
unfolding select
distinct [] = []
distinct (x ∷ xs) = x ∷ select (λ y. not (text_eq y x)) (distinct xs)

module _ (group artifact : Text) where
  -- The versions that the loop over the items adds.
  added : List Text → List Text → List VersionInfo
  unfolding select distinct any
  added seen items =
      map (version_info group artifact) (select (λ y. not (any (text_eq y) seen)) (distinct items))

  seen_covers :
      (seen : List Text) (x y : Text)
      → any (text_eq x) seen ≡ true
      → (not (text_eq y x) && not (any (text_eq y) seen)) ≡ not (any (text_eq y) seen)
  seen_covers seen x y h = elim (Bool-cases (text_eq y x)) [
    | inl e ↦ rw ((text_eq_iff y x).0 e, text_eq_refl x, h) refl
    | inr e ↦ rw e refl
  ]

  -- A version that has been seen, or that is new, and what the others then are.
  added-seen :
      (seen : List Text) (x : Text) (items : List Text)
      → any (text_eq x) seen ≡ true
      → added seen (x ∷ items) ≡ added seen items
  unfolding added distinct select
  added-seen seen x items e = rw e (
      ap (map (version_info group artifact)) (
        select-select (λ y. not (any (text_eq y) seen)) (λ y. not (text_eq y x)) (distinct items)
        ∙ select_equal _ (λ y. not (any (text_eq y) seen)) (λ y. seen_covers seen x y e)
            (distinct items)))

  added-new :
      (seen : List Text) (x : Text) (items : List Text)
      → any (text_eq x) seen ≡ false
      → added seen (x ∷ items) ≡ version_info group artifact x ∷ added (x ∷ seen) items
  unfolding added distinct select any
  added-new seen x items e = rw e (
      ap (λ vs. version_info group artifact x ∷ map (version_info group artifact) vs)
        (select-select (λ y. not (any (text_eq y) seen)) (λ y. not (text_eq y x)) (distinct items)
          ∙ select_equal _ (λ y. not (any (text_eq y) (x ∷ seen))) (λ y. ground arith)
              (distinct items)))

  abbrev next_seen : Seen → Text → Bool → Seen
  next_seen s v known =
      if known
      then s
      else record { seen = v ∷ s.seen; versions = s.versions ++ version_info group artifact v ∷ [] }

  add_versions_lem :
      (items : List Text) (s : Seen)
      → (add_versions group artifact s items).versions ≡ s.versions ++ added s.seen items
  unfolding add_versions
  add_versions_lem [] s = unfold added in sym (append-nil s.versions)
  add_versions_lem (x ∷ items) s = elim (Bool-cases (any (text_eq x) s.seen)) [
    | inl e ↦
        ap (λ b. (add_versions group artifact (next_seen s x b) items).versions) e
        ∙ add_versions_lem items s
        ∙ ap (λ vs. s.versions ++ vs) (sym (added-seen s.seen x items e))
    | inr e ↦
        ap (λ b. (add_versions group artifact (next_seen s x b) items).versions) e
        ∙ add_versions_lem items (next_seen s x false)
        ∙ append_assoc s.versions (version_info group artifact x ∷ []) (added (x ∷ s.seen) items)
        ∙ ap (λ vs. s.versions ++ vs) (sym (added-new s.seen x items e))
  ]

  add_versions-append :
      (items more : List Text) (s : Seen)
      → add_versions group artifact s (items ++ more)
        ≡ add_versions group artifact (add_versions group artifact s items) more
  unfolding add_versions
  add_versions-append [] more s = refl
  add_versions-append (x ∷ items) more s =
      add_versions-append items more (next_seen s x (any (text_eq x) s.seen))

  absorbed-flatten :
      (pages : List (List Text)) (s : Seen)
      → absorbed (add_versions group artifact) s pages
        ≡ add_versions group artifact s (flatten pages)
  unfolding absorbed add_versions flatten
  absorbed-flatten [] s = refl
  absorbed-flatten (items ∷ pages) s =
      absorbed-flatten pages (add_versions group artifact s items)
      ∙ sym (add_versions-append items (flatten pages) s)

abbrev no_versions : Seen
no_versions = record { seen = []; versions = [] }

select-true {ℓ} : {A : Type ℓ} (xs : List A) → select (λ _. true) xs ≡ xs
unfolding select
select-true [] = refl
select-true (x ∷ xs) = rw (select-true xs) refl

-- `FetchVersions`, from a server that answers page by page up to a last one, with one request for each
-- page: the versions are those of all pages, each once, in the order of their first occurrence.
pub fetch_versions_lem :
    (server : Server) (c : HttpClient) (group artifact : Text) (fuel : ℕ) (pages : List (List Text))
    → length pages ≤ fuel
    → Serves (search_page server c group artifact) none pages
    → fetch_versions server c fuel group artifact
      ≡ fetched (map (version_info group artifact) (distinct (flatten pages)))
unfolding fetch_versions added any
fetch_versions_lem server c group artifact fuel pages l h =
    rw
      (crawl_lem (add_versions group artifact) (search_page server c group artifact) pages fuel none
        no_versions l h)
      (ap fetched (
        ap (λ s. s.versions) (absorbed-flatten group artifact pages no_versions)
        ∙ add_versions_lem group artifact (flatten pages) no_versions
        ∙ ap (map (version_info group artifact)) (select-true (distinct (flatten pages)))))

-- What `SearchAssets` offers of an item.
abbrev pub is_offered : List Text → SearchAssetItem → Bool
is_offered deny i = not (is_checksum i || is_denied deny i)

module _ (deny : List Text) where
  abbrev next_assets : List AssetInfo → SearchAssetItem → Bool → List AssetInfo
  next_assets assets i skipped = if skipped then assets else assets ++ asset_info i ∷ []

  add_assets_lem :
      (items : List SearchAssetItem) (assets : List AssetInfo)
      → add_assets deny assets items ≡ assets ++ map asset_info (select (is_offered deny) items)
  unfolding add_assets select
  add_assets_lem [] assets = sym (append-nil assets)
  add_assets_lem (i ∷ items) assets = elim (Bool-cases (is_checksum i || is_denied deny i)) [
    | inl e ↦
        ap (λ b. add_assets deny (next_assets assets i b) items) e
        ∙ add_assets_lem items assets
        ∙ rw e refl
    | inr e ↦
        ap (λ b. add_assets deny (next_assets assets i b) items) e
        ∙ add_assets_lem items (next_assets assets i false)
        ∙ append_assoc assets (asset_info i ∷ []) (map asset_info (select (is_offered deny) items))
        ∙ rw e refl
  ]

  absorbed_assets :
      (pages : List (List SearchAssetItem)) (assets : List AssetInfo)
      → absorbed (add_assets deny) assets pages
        ≡ assets ++ map asset_info (select (is_offered deny) (flatten pages))
  unfolding absorbed flatten select
  absorbed_assets [] assets = sym (append-nil assets)
  absorbed_assets (items ∷ pages) assets =
      absorbed_assets pages (add_assets deny assets items)
      ∙ ap (λ z. z ++ map asset_info (select (is_offered deny) (flatten pages)))
          (add_assets_lem items assets)
      ∙ append_assoc assets _ _
      ∙ ap (λ z. assets ++ z)
          (sym (
              map-append asset_info (select (is_offered deny) items)
                (select (is_offered deny) (flatten pages)))
            ∙ ap (map asset_info) (sym (select-append (is_offered deny) items (flatten pages))))

any-offered :
    (deny : List Text) (items : List SearchAssetItem)
    → not (is_empty (map asset_info (select (is_offered deny) items))) ≡ any (is_offered deny) items
unfolding select any
any-offered deny [] = refl
any-offered deny (i ∷ items) = ground (arith, any-offered deny items)

-- From a server that answers page by page up to a last one, with one request for each page:
-- `SearchAssets` gives the assets of all items that are no checksum and not of a denied host, in their
-- order, and `VersionHasAssets` says whether there is one.
pub search_assets_lem :
    (server : Server) (c : HttpClient) (group artifact version : Text) (fuel : ℕ)
    (pages : List (List SearchAssetItem))
    → length pages ≤ fuel
    → Serves (search_assets_page server c group artifact version) none pages
    → (search_assets server c fuel group artifact version
        ≡ fetched (map asset_info (select (is_offered c.deny_repos) (flatten pages))))
      × (version_has_assets server c fuel group artifact version
          ≡ fetched (any (is_offered c.deny_repos) (flatten pages)))
unfolding search_assets version_has_assets
search_assets_lem server c group artifact version fuel pages l h =
    let e =
      crawl_lem (add_assets c.deny_repos) (search_assets_page server c group artifact version) pages
        fuel none [] l h
      ∙ ap fetched (absorbed_assets c.deny_repos pages []) in
    (e, rw e (ap fetched (any-offered c.deny_repos (flatten pages))))
