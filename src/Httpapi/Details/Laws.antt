-- ===== src/Httpapi/Details/Laws.antt =====
-- `GetLatestVersion` against `GetVersionInfo`.
use mathlib.Core.List.{Mem}
use mathlib.Core.Path.{ap₂}
use system_of_adownload.Prelude.{
  Bool, List, Option, Text, [], arith, false, none, refl, some, sym, true, ◌&&◌, ◌∙◌, ◌∷◌, ◌≡◌, ap,
  map,
}
use system_of_adownload.App.Details.{VersionInfoDetail, get_version_info}
use system_of_adownload.App.Versions.{GetVersionsResult, entry_of, get_versions}
use system_of_adownload.App.Versions.Laws.{page_at, get_versions_lem}
use system_of_adownload.Db.Commits.{is_below}
use system_of_adownload.Db.Details.{get_version_detail}
use system_of_adownload.Db.Filter.{VersionQueryParams, list_versions_filtered}
use system_of_adownload.Db.Filter.Newest.{is_listed, list_versions_filtered_newest}
use system_of_adownload.Db.Models.{ArtifactVersion, TagRow, Store}
use system_of_adownload.Db.Tx.{artifact_not_found, Result, ok, err, Faults}
use system_of_adownload.Httpapi.Details.{
  VersionInfoResponse, built, latest_params, latest_detail, latest_entry, latest_of, version_errors,
  get_version_info_handler, get_latest_version,
}
use system_of_adownload.Httpapi.Handler.{answer}
use system_of_adownload.Httpapi.Versions.{answered, missing, request_tags}
use system_of_adownload.Prelude.Map.{Map}
use system_of_adownload.Prelude.Rows.{any}

-- What `GetLatestVersion` has found.
abbrev pub IsLatest : Store → VersionQueryParams → ArtifactVersion → Type 0
IsLatest s q v =
    Mem v s.versions
    × (is_listed s q v ≡ true)
    × (any (λ w. is_listed s q w && is_below v.sort_order w.sort_order) s.versions ≡ false)

module _ {Time : Type 0} (parse : Text → Text → Option Time) (is_zero : Time → Bool)
    (fails : Faults) (group artifact : Text) where
  -- The handlers of one version differ only in their errors.
  same_answer :
      (m : Result VersionInfoDetail × Store) (s : Store) (r : VersionInfoResponse Time)
      → built parse is_zero (answer (λ _. missing) m) ≡ (answered r, s)
      → built parse is_zero (answer version_errors m) ≡ (answered r, s)
  same_answer (ok d, t) s r h = h
  same_answer (err e, t) s r h = absurd cc

  latest_of-split :
      (recommended : Option Bool) (o : Option (Map Text)) (s s' : Store)
      (r : VersionInfoResponse Time)
      → latest_of parse is_zero fails group artifact recommended o s ≡ (answered r, s')
      → (t : Map Text) × (o ≡ some t)
        × (latest_entry parse is_zero fails group artifact
              (get_versions fails (latest_params group artifact recommended t) s)
            ≡ (answered r, s'))
  latest_of-split recommended none s s' r h = absurd cc
  latest_of-split recommended (some t) s s' r h = (t, refl, h)

  latest_entry-split :
      (m : Result GetVersionsResult × Store) (s : Store) (r : VersionInfoResponse Time)
      → latest_entry parse is_zero fails group artifact m ≡ (answered r, s)
      → (page : GetVersionsResult) × (t : Store) × (m ≡ (ok page, t))
        × (latest_detail parse is_zero fails group artifact page.entries t ≡ (answered r, s))
  latest_entry-split (ok page, t) s r h = (page, t, refl, h)
  latest_entry-split (err artifact_not_found, t) s r h = absurd cc
  latest_entry-split (err e, t) s r h = absurd cc

  latest_detail-split :
      (rows : List TagRow) (versions : List ArtifactVersion) (s s' : Store)
      (r : VersionInfoResponse Time)
      → latest_detail parse is_zero fails group artifact (map (entry_of rows) versions) s
        ≡ (answered r, s')
      → (v : ArtifactVersion) × (rest : List ArtifactVersion) × (versions ≡ v ∷ rest)
        × (get_version_info_handler parse is_zero fails group artifact v.version s
            ≡ (answered r, s'))
  unfolding get_version_info_handler
  latest_detail-split rows [] s s' r h = absurd cc
  latest_detail-split rows (v ∷ rest) s s' r h =
      (v, rest, refl, same_answer (get_version_info fails group artifact v.version s) s' r h)

  -- An answer about a version changes nothing.
  get_version_info_handler-store :
      (version : Text) (s : Store)
      → (get_version_info_handler parse is_zero fails group artifact version s).1 ≡ s
  unfolding get_version_info_handler get_version_info get_version_detail
  get_version_info_handler-store version s = ground arith

  -- A version that `GetLatestVersion` answers, with tags that are left out or valid: it is listed for
  -- the request, no listed version is above it, `GetVersionInfo` answers it in the same way, and
  -- nothing has changed.
  pub get_latest_version_lem :
      (recommended : Option Bool) (tags : Option Text) (s s' : Store) (r : VersionInfoResponse Time)
      → get_latest_version parse is_zero fails group artifact recommended tags s ≡ (answered r, s')
      → (v : ArtifactVersion) × (t : Map Text) × (request_tags tags ≡ some t)
        × IsLatest s (latest_params group artifact recommended t) v
        × (get_version_info_handler parse is_zero fails group artifact v.version s
            ≡ (answered r, s'))
        × (s' ≡ s)
  unfolding get_latest_version page_at
  get_latest_version_lem recommended tags s s' r h =
      let (t, e, h1) = latest_of-split recommended (request_tags tags) s s' r h in
      let q = latest_params group artifact recommended t in
      let (page, u, f, h2) = latest_entry-split (get_versions fails q s) s' r h1 in
      let (g, k) = get_versions_lem fails q s u page f in
      let at_page =
        sym (
          ap₂ (λ es x. latest_detail parse is_zero fails group artifact es x)
            (ap (λ z. z.entries) g) k)
        ∙ h2 in
      let (v, rest, l, m) =
        latest_detail-split s.tags (list_versions_filtered s q) s s' r at_page in
      (
        v,
        t,
        e,
        list_versions_filtered_newest s q v rest l,
        m,
        sym (ap (λ z. z.1) m) ∙ get_version_info_handler-store v.version s,
      )
