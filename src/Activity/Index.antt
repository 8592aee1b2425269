-- ===== src/Activity/Index.antt =====
-- internal/activity/version_index.go. The download is a parameter: what `zip.NewReader` makes of the
-- bytes. Regular expressions are a parameter too.
pub mod Laws
use system_of_adownload.Prelude.{
  Bool, List, Option, Text, [], codes, cut_at, has_suffix, if◌then◌else◌, is_empty, length, lower,
  ltb, map, none, not, some, suc, text_eq, trim_space, ℕ, ◌==◌, ◌||◌, ◌∷◌,
}
use system_of_adownload.Db.Commits.{
  CreateAssetParams, get_artifact_version, update_artifact_version_commit_body,
  delete_artifact_version_assets, create_artifact_version_asset,
}
use system_of_adownload.Db.Tx.{other, Result, ok, err, Db, ◌>>=◌, ◌>>◌, pure, Faults, with_tx}
use system_of_adownload.Domain.Json.Commits.{marshal_commit}
use system_of_adownload.Domain.Commit.{AssetInfo, CommitInfo, no_commit}
use system_of_adownload.Domain.Version.Parse.{fallback}

-- `ptrOrNil`
abbrev ptr_or_nil : Text → Option Text
ptr_or_nil [] = none
ptr_or_nil (c ∷ s) = some (c ∷ s)

abbrev pub asset_params : AssetInfo → CreateAssetParams
asset_params a = record {
  classifier = ptr_or_nil a.classifier;
  sha256 = ptr_or_nil a.sha256;
  download_url = a.download_url;
  md5 = ptr_or_nil a.md5;
  sha1 = ptr_or_nil a.sha1;
  sha512 = ptr_or_nil a.sha512;
  extension = ptr_or_nil a.extension;
}

-- `JarCommitCandidate`
pub record JarCommitCandidate : Type 0 where
  pub download_url : Text
  pub classifier : Text

abbrev pub is_jar : AssetInfo → Bool
is_jar a = text_eq a.extension (codes "jar") || has_suffix a.path (codes ".jar")

abbrev pub candidate : AssetInfo → JarCommitCandidate
candidate a = record { download_url = a.download_url; classifier = a.classifier }

-- The loop of `PickBestJarCandidate`, with the fallback that it has.
unfoldable pub pick : Option JarCommitCandidate → List AssetInfo → Option JarCommitCandidate
unfolding has_suffix
pick fallback [] = fallback
pick fallback (a ∷ assets) =
    if is_jar a
    then (if is_empty a.classifier
        then some (candidate a)
        else pick (elim fallback [ none ↦ some (candidate a) | some f ↦ some f ]) assets)
    else pick fallback assets

unfoldable pub pick_best_jar_candidate : List AssetInfo → Option JarCommitCandidate
unfolding pick
pick_best_jar_candidate assets = pick none assets

-- The switch on the key of a line of git.properties.
abbrev git_property : Text → Text → CommitInfo → CommitInfo
git_property key val c =
    if text_eq key (codes "git.commit.id") || text_eq key (codes "git.commit.id.full")
    then record c { sha = val }
    else if text_eq key (codes "git.remote.origin.url")
    then record c { repository = val }
    else if text_eq key (codes "git.branch")
    then record c { branch = val }
    else c

-- The switch on the key of a line of MANIFEST.MF.
abbrev manifest_property : Text → Text → CommitInfo → CommitInfo
manifest_property key val c =
    if text_eq key (codes "Implementation-Build") || text_eq key (codes "Git-Commit")
    then record c { sha = val }
    else if text_eq key (codes "Git-Repository")
    then record c { repository = val }
    else if text_eq key (codes "Git-Branch")
    then record c { branch = val }
    else c

-- The loop of the scanner over the lines; a line without the separator is passed over.
unfoldable scan_lines :
    Text → (Text → Text → CommitInfo → CommitInfo) → List Text → CommitInfo → CommitInfo
unfolding cut_at trim_space
scan_lines sep property [] c = c
scan_lines sep property (line ∷ lines) c =
    scan_lines sep property lines
      (elim (cut_at sep line) [ none ↦ c | some (k, v) ↦ property (trim_space k) (trim_space v) c ])

-- A file of a zip: its name and, when it can be opened, the lines that the scanner gives before it
-- ends, with its error.
pub record ZipFile : Type 0 where
  pub name : Text
  pub contents : Option (List Text × Bool)

-- The end of both parsers: no commit without a sha; `good` is a nil error of the scanner.
abbrev found_commit : Bool → CommitInfo → Result (Option CommitInfo)
found_commit good c = if is_empty c.sha then ok none else if good then ok (some c) else err other

abbrev parse_file :
    Text → (Text → Text → CommitInfo → CommitInfo) → ZipFile → Result (Option CommitInfo)
parse_file sep property f = elim f.contents [
  | none ↦ err other
  | some (lines, good) ↦ found_commit good (scan_lines sep property lines no_commit)
]

unfoldable parse_git_properties : ZipFile → Result (Option CommitInfo)
unfolding scan_lines
parse_git_properties f = parse_file (codes "=") git_property f

unfoldable parse_manifest : ZipFile → Result (Option CommitInfo)
unfolding scan_lines
parse_manifest f = parse_file (codes ": ") manifest_property f

-- `unicode.ToLower`, as far as it gives an ASCII letter.
abbrev to_lower : ℕ → ℕ
to_lower c = if c == 0x130 then b'i' else if c == 0x212a then b'k' else lower c

-- A manifest without a commit lets the loop go on; git.properties ends it.
abbrev after_manifest :
    Result (Option CommitInfo) → Result (Option CommitInfo) → Result (Option CommitInfo)
after_manifest (ok none) later = later
after_manifest r later = r

-- The loop of `extractCommitFromZip` over the files.
unfoldable extract_commit_from_zip : List ZipFile → Result (Option CommitInfo)
unfolding parse_git_properties parse_manifest has_suffix
extract_commit_from_zip [] = ok none
extract_commit_from_zip (f ∷ files) =
    let later = extract_commit_from_zip files in
    if has_suffix (map to_lower f.name) (codes "git.properties")
    then parse_git_properties f
    else if text_eq (map to_lower f.name) (codes "meta-inf/manifest.mf")
    then after_manifest (parse_manifest f) later
    else later

-- A download: an error, or its status, its length, and its files if it is a zip.
pub record Download : Type 0 where
  pub status : ℕ
  pub size : ℕ
  pub files : Option (List ZipFile)

-- A bad zip, and a bad file in it, give no commit and no error.
abbrev or_no_commit : Result (Option CommitInfo) → Option CommitInfo
or_no_commit (ok c) = c
or_no_commit (err e) = none

-- `ExtractCommitFromJar`; fewer than 100 bytes are a placeholder.
unfoldable pub extract_commit_from_jar : Result Download → Result (Option CommitInfo)
unfolding extract_commit_from_zip
extract_commit_from_jar (err e) = err e
extract_commit_from_jar (ok d) =
    if not (d.status == 200) then err other else if ltb d.size 100 then ok none else elim d.files [
      | none ↦ ok none
      | some files ↦ ok (or_no_commit (extract_commit_from_zip files))
    ]

module _ (fails : Faults) where
  -- The loop of the transaction.
  unfoldable pub create_assets : ℕ → ℕ → List AssetInfo → Db (Unit {0})
  unfolding create_artifact_version_asset
  create_assets call version [] = pure tt
  create_assets call version (a ∷ assets) =
      create_artifact_version_asset fails call version (asset_params a)
      >> create_assets (suc call) version assets

  -- `StoreVersionAssets`: the assets of the version are replaced.
  unfoldable pub store_version_assets : Text → Text → Text → List AssetInfo → Db ℕ
  unfolding create_assets with_tx
  store_version_assets group artifact version assets = do
    av ← get_artifact_version fails group artifact version
    _ ← with_tx fails (delete_artifact_version_assets fails av.id >> create_assets 0 av.id assets)
    pure (length assets)

  -- `StoreCommitInfo`
  unfoldable pub store_commit_info : Text → Text → Text → CommitInfo → Db (Unit {0})
  unfolding with_tx
  store_commit_info group artifact version c = do
    av ← get_artifact_version fails group artifact version
    with_tx fails (update_artifact_version_commit_body fails av.id (marshal_commit c))
