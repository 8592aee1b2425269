-- ===== src/Activity/Index/Laws.antt =====
-- What the index activities choose and store.
use mathlib.Core.Option
use mathlib.Core.List.{append-nil, append_assoc}
use system_of_adownload.Prelude.{
  ==_iff, Bool, List, Option, Text, [], ap, arith, inl, inr, is_empty, length, map, none, not, refl,
  some, suc, sym, true, ℕ, ◌&&◌, ◌++◌, ◌==◌, ◌∙◌, ◌∷◌, ◌≡◌, ◌⊎◌,
}
use system_of_adownload.Activity.Index.{
  asset_params, JarCommitCandidate, is_jar, candidate, pick, pick_best_jar_candidate, create_assets,
  store_version_assets,
}
use system_of_adownload.Db.Commits.{
  CreateAssetParams, asset_row, get_artifact_version, delete_artifact_version_assets,
  create_artifact_version_asset,
}
use system_of_adownload.Db.Models.{ArtifactVersion, AssetRow, Store}
use system_of_adownload.Db.Tx.{other, ok, err, Db, ◌>>=◌, ◌>>◌, pure, Faults, with_tx}
use system_of_adownload.Db.Tx.Laws.{with_tx-ok, after-ok, after-err, after-split}
use system_of_adownload.Domain.Commit.{AssetInfo}
use system_of_adownload.Prelude.Rows.{find, select, select-append}

-- A jar without a classifier.
abbrev is_main_jar : AssetInfo → Bool
is_main_jar a = is_jar a && is_empty a.classifier

abbrev pub or_else {ℓ} : {A : Type ℓ} → Option A → Option A → Option A
or_else none b = b
or_else (some a) b = some a

pick_lem :
    (fallback : Option JarCommitCandidate) (assets : List AssetInfo)
    → pick fallback assets
      ≡ or_else
          (Option.map candidate (find is_main_jar assets))
          (or_else fallback (Option.map candidate (find is_jar assets)))
unfolding pick find
pick_lem none [] = refl
pick_lem (some f) [] = refl
pick_lem none (a ∷ assets) =
    ground (arith, pick_lem none assets, pick_lem (some (candidate a)) assets)
pick_lem (some f) (a ∷ assets) = ground (arith, pick_lem (some f) assets)

-- `PickBestJarCandidate` takes the first jar without a classifier, else the first jar, else none.
pick_best_jar_candidate_lem :
    (assets : List AssetInfo)
    → pick_best_jar_candidate assets
      ≡ or_else
          (Option.map candidate (find is_main_jar assets))
          (Option.map candidate (find is_jar assets))
unfolding pick_best_jar_candidate
pick_best_jar_candidate_lem assets = pick_lem none assets

abbrev params_of : AssetRow → CreateAssetParams
params_of a = record {
  classifier = a.classifier;
  sha256 = a.sha256;
  download_url = a.download_url;
  md5 = a.md5;
  sha1 = a.sha1;
  sha512 = a.sha512;
  extension = a.extension;
}

abbrev of_version : ℕ → AssetRow → Bool
of_version i a = a.artifact_version_id == i

abbrev of_others : ℕ → AssetRow → Bool
of_others i a = not (a.artifact_version_id == i)

-- The assets of a version, in the order of the table.
unfoldable pub stored_assets : ℕ → Store → List CreateAssetParams
unfolding select
stored_assets i s = map params_of (select (of_version i) s.assets)

unfoldable pub other_assets : ℕ → Store → List AssetRow
unfolding select
other_assets i s = select (of_others i) s.assets

same_id : (i : ℕ) → (i == i) ≡ true
same_id i = (==_iff i i).1 refl

map-append {ℓ κ} :
    {A : Type ℓ} {B : Type κ} (f : A → B) (xs ys : List A) → map f (xs ++ ys) ≡ map f xs ++ map f ys
map-append f [] ys = refl
map-append f (x ∷ xs) ys = ap (λ zs. f x ∷ zs) (map-append f xs ys)

module _ (fails : Faults) (i : ℕ) where
  abbrev with_asset : AssetInfo → Store → Store
  with_asset a s = record s {
    assets = s.assets ++ asset_row s.next_asset i (asset_params a) ∷ [];
    next_asset = suc s.next_asset;
  }

  create_artifact_version_asset-cases :
      (call : ℕ) (a : AssetInfo) (s : Store)
      → (create_artifact_version_asset fails call i (asset_params a) s ≡ (err other, s))
        ⊎ (create_artifact_version_asset fails call i (asset_params a) s ≡ (ok tt, with_asset a s))
  unfolding create_artifact_version_asset
  create_artifact_version_asset-cases call a s = ground arith

  stored_assets-with_asset :
      (a : AssetInfo) (s : Store)
      → stored_assets i (with_asset a s) ≡ stored_assets i s ++ asset_params a ∷ []
  unfolding stored_assets select
  stored_assets-with_asset a s =
      ap (map params_of)
        (select-append (of_version i) s.assets (asset_row s.next_asset i (asset_params a) ∷ []))
      ∙ map-append params_of (select (of_version i) s.assets)
          (select (of_version i) (asset_row s.next_asset i (asset_params a) ∷ []))
      ∙ rw (same_id i) refl

  other_assets-with_asset :
      (a : AssetInfo) (s : Store) → other_assets i (with_asset a s) ≡ other_assets i s
  unfolding other_assets select
  other_assets-with_asset a s =
      select-append (of_others i) s.assets (asset_row s.next_asset i (asset_params a) ∷ [])
      ∙ rw (same_id i) (append-nil (select (of_others i) s.assets))

  create_assets_lem :
      (call : ℕ) (assets : List AssetInfo) (s s' : Store)
      → create_assets fails call i assets s ≡ (ok tt, s')
      → (stored_assets i s' ≡ stored_assets i s ++ map asset_params assets)
        × (other_assets i s' ≡ other_assets i s)
  unfolding create_assets
  create_assets_lem call [] s s' h = (
    rw (append-nil (stored_assets i s)) (ap (λ z. stored_assets i z.1) (sym h)),
    ap (λ z. other_assets i z.1) (sym h),
  )
  create_assets_lem call (a ∷ assets) s s' h = elim (create_artifact_version_asset-cases call a s) [
    | inl e ↦ absurd (after-err (λ _. create_assets fails (suc call) i assets) e h)
    | inr e ↦
        let (x, y) =
          create_assets_lem (suc call) assets (with_asset a s) s'
            (after-ok (λ _. create_assets fails (suc call) i assets) e h) in
        (
          x
              ∙ rw (stored_assets-with_asset a s) (
                  append_assoc (stored_assets i s) (asset_params a ∷ []) (map asset_params assets)),
          y ∙ other_assets-with_asset a s,
        )
  ]

  -- A transaction that replaces the assets: the new ones are those given, and no others change.
  delete_artifact_version_assets-cases :
      (s : Store)
      → (delete_artifact_version_assets fails i s ≡ (err other, s))
        ⊎ (delete_artifact_version_assets fails i s
            ≡ (ok tt, record s { assets = select (of_others i) s.assets }))
  unfolding select
  delete_artifact_version_assets-cases s = ground arith

  none_left : (xs : List AssetRow) → select (of_version i) (select (of_others i) xs) ≡ []
  unfolding select
  none_left [] = refl
  none_left (x ∷ xs) = ground (arith, none_left xs)

  all_others :
      (xs : List AssetRow)
      → select (of_others i) (select (of_others i) xs) ≡ select (of_others i) xs
  unfolding select
  all_others [] = refl
  all_others (x ∷ xs) = ground (arith, all_others xs)

  abbrev replace_assets : List AssetInfo → Db (Unit {0})
  replace_assets assets = delete_artifact_version_assets fails i >> create_assets fails 0 i assets

  replace_assets_lem :
      (assets : List AssetInfo) (s s' : Store)
      → replace_assets assets s ≡ (ok tt, s')
      → (stored_assets i s' ≡ map asset_params assets) × (other_assets i s' ≡ other_assets i s)
  unfolding stored_assets other_assets
  replace_assets_lem assets s s' h = elim (delete_artifact_version_assets-cases s) [
    | inl e ↦ absurd (after-err (λ _. create_assets fails 0 i assets) e h)
    | inr e ↦
        let (x, y) =
          create_assets_lem 0 assets (record s { assets = select (of_others i) s.assets }) s'
            (after-ok (λ _. create_assets fails 0 i assets) e h) in
        (
          x ∙ ap (λ z. map params_of z ++ map asset_params assets) (none_left s.assets),
          y ∙ all_others s.assets,
        )
  ]

get_artifact_version-store :
    (fails : Faults) (group artifact version : Text) (s : Store)
    → (get_artifact_version fails group artifact version s).1 ≡ s
get_artifact_version-store fails group artifact version s = ground arith

-- `StoreVersionAssets`, when it succeeds, has found the version, and has made its assets those that it
-- was given, in their order, whatever they were before; it counts them, and no asset of another
-- version is touched.
pub store_version_assets_lem :
    (fails : Faults) (group artifact version : Text) (assets : List AssetInfo) (s s' : Store)
    (n : ℕ)
    → store_version_assets fails group artifact version assets s ≡ (ok n, s')
    → (av : ArtifactVersion) × (get_artifact_version fails group artifact version s ≡ (ok av, s))
      × (n ≡ length assets)
      × (stored_assets av.id s' ≡ map asset_params assets)
      × (other_assets av.id s' ≡ other_assets av.id s)
unfolding store_version_assets
store_version_assets_lem fails group artifact version assets s s' n h =
    let (av, s1, e, k) =
      after-split
        (λ av. with_tx fails (replace_assets fails av.id assets) >>= (λ _. pure (length assets)))
        (get_artifact_version fails group artifact version s) n s' h in
    let (u, s2, e2, k2) =
      after-split (λ _. pure (length assets)) (with_tx fails (replace_assets fails av.id assets) s1)
        n s' k in
    let f = sym (ap (λ z. z.1) e) ∙ get_artifact_version-store fails group artifact version s in
    let (x, y) =
      replace_assets_lem fails av.id assets s1 s2
        (with_tx-ok fails (replace_assets fails av.id assets) s1 s2 u e2) in
    let g = sym (ap (λ z. z.1) k2) in
    (
      av,
      e ∙ ap (λ t. (ok av, t)) f,
      cc,
      ap (stored_assets av.id) g ∙ x,
      ap (other_assets av.id) g ∙ y ∙ ap (other_assets av.id) f,
    )
