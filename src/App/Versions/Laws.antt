-- ===== src/App/Versions/Laws.antt =====
-- What `GetVersions` gives.
use mathlib.Core.Path.{subst}
use system_of_adownload.Db.Registry
use system_of_adownload.Prelude.{
  ==_iff, All, All-map, Bool, Bool-cases, List, Text, [], ap, arith, codes, if◌then◌else◌, inl, inr,
  is_empty, length, length-map, map, refl, sym, true, ℕ, ◌==◌, ◌∙◌, ◌∷◌, ◌≡◌, ◌≤◌,
}
use system_of_adownload.App.Service.{or_not_found}
use system_of_adownload.App.Versions.{
  GetVersionsResult, tags_of, entry_of, tags_for_versions, list_versions_filtered_call,
  list_tags_for_versions, count_versions_filtered_call, with_tags, get_versions,
}
use system_of_adownload.Db.Filter.{
  VersionQueryParams, list_versions_filtered, count_versions_filtered,
}
use system_of_adownload.Db.Filter.Page.{length-list_versions_filtered}
use system_of_adownload.Db.Models.{ArtifactVersion, TagRow, Store}
use system_of_adownload.Db.Tx.{artifact_not_found, ok, ◌>>=◌, pure, Faults}
use system_of_adownload.Db.Tx.Laws.{after-split, ok-injective, ask-ok}
use system_of_adownload.Prelude.Map.{Map, insert}
use system_of_adownload.Prelude.Rows.{any, select}

has_id : List ArtifactVersion → ℕ → Bool
unfolding any
has_id versions i = any (λ v. v.id == i) versions

has_id_later :
    (v w : ArtifactVersion) (versions : List ArtifactVersion)
    → has_id versions w.id ≡ true
    → has_id (v ∷ versions) w.id ≡ true
unfolding has_id any
has_id_later v w versions h = ground (arith, h)

has_id_self : (versions : List ArtifactVersion) → All (λ v. has_id versions v.id ≡ true) versions
unfolding has_id any
has_id_self [] = tt
has_id_self (v ∷ versions) = (
  rw ((==_iff v.id v.id).1 refl) refl,
  All-map (λ w h. has_id_later v w versions h) versions (has_id_self versions),
)

-- The rows of other versions do not count.
tags_of-select :
    (p : TagRow → Bool) (i : ℕ)
    → ((t : TagRow) → (t.artifact_version_id == i) ≡ true → p t ≡ true)
    → (rows : List TagRow) (m : Map Text) → tags_of i (select p rows) m ≡ tags_of i rows m
unfolding tags_of select
tags_of-select p i h [] m = refl
tags_of-select p i h (t ∷ rows) m = elim (Bool-cases (p t)) [
  | inl e ↦ rw e (
      tags_of-select p i h rows
        (if t.artifact_version_id == i then insert t.tag_key t.tag_value m else m))
  | inr e ↦ elim (Bool-cases (t.artifact_version_id == i)) [
    | inl f ↦ absurd (ground (arith, h t f))
    | inr f ↦ rw (e, f) (tags_of-select p i h rows m)
  ]
]

entry-lem :
    (all : List ArtifactVersion) (s : Store) (versions : List ArtifactVersion)
    → All (λ v. has_id all v.id ≡ true) versions
    → map (entry_of (tags_for_versions all s)) versions ≡ map (entry_of s.tags) versions
unfolding has_id
entry-lem all s [] h = refl
entry-lem all s (v ∷ versions) h =
    let p : TagRow → Bool = λ t. any (λ v. v.id == t.artifact_version_id) all in
    let e =
      tags_of-select p v.id
        (λ t f.
          subst (λ i. any (λ w. w.id == i) all ≡ true)
            (sym ((==_iff t.artifact_version_id v.id).0 f)) h.0)
        s.tags [] in
    rw (e, entry-lem all s versions h.1) refl

-- The page, read off the tables: each version with the tags that it has in the whole table; the total
-- counts all versions that match, but is 0 on an empty page.
unfoldable pub page_at : VersionQueryParams → Store → GetVersionsResult
page_at q s =
    let versions = list_versions_filtered s q in
    record {
      entries = map (entry_of s.tags) versions;
      total = if is_empty versions then 0 else count_versions_filtered s q;
    }

pub length-page_at : (q : VersionQueryParams) (s : Store) → length (page_at q s).entries ≤ q.limit
unfolding page_at
length-page_at q s = omega (
  arith,
  length-list_versions_filtered s q,
  length-map (list_versions_filtered s q) (entry_of s.tags),
)

result_equal : (a b : GetVersionsResult) → a.entries ≡ b.entries → a.total ≡ b.total → a ≡ b
result_equal a b e f = ap (λ x. record a { entries = x }) e ∙ ap (λ n. record b { total = n }) f

module _ (fails : Faults) where
  with_tags_lem :
      (q : VersionQueryParams) (versions : List ArtifactVersion) (s s' : Store)
      (r : GetVersionsResult)
      → with_tags fails q versions s ≡ (ok r, s')
      → (r.entries ≡ map (entry_of s.tags) versions)
        × (r.total ≡ (if is_empty versions then 0 else count_versions_filtered s q))
        × (s' ≡ s)
  with_tags_lem q [] s s' r h =
      let (e, f) = ok-injective (record { entries = []; total = 0 }) r s s' h in
      (ap (λ z. z.entries) e, ap (λ z. z.total) e, f)
  with_tags_lem q (v ∷ versions) s s' r h =
      let all = v ∷ versions in
      let (rows, t, e, k) =
        after-split
          (λ rows.
            count_versions_filtered_call fails q
            >>= (λ total. pure (record { entries = map (entry_of rows) all; total = total })))
          (list_tags_for_versions fails all s) r s' h in
      let (n, u, f, m) =
        after-split (λ total. pure (record { entries = map (entry_of rows) all; total = total }))
          (count_versions_filtered_call fails q t) r s' k in
      let (x, y) = ok-injective (tags_for_versions all s) rows s t (
        ask-ok fails (codes "ListTagsForVersions") 0 (λ s. (ok (tags_for_versions all s), s)) s rows
          t e) in
      let (x', y') = ok-injective (count_versions_filtered t q) n t u (
        ask-ok fails (codes "CountVersionsFiltered") 0 (λ s. (ok (count_versions_filtered s q), s))
          t n u f) in
      let (a, b) =
        ok-injective (record { entries = map (entry_of rows) all; total = n }) r u s' m in
      (
        ap (λ z. z.entries) a
            ∙ ap (λ rs. map (entry_of rs) all) x
            ∙ entry-lem all s all (has_id_self all),
        ap (λ z. z.total) a ∙ x' ∙ ap (λ z. count_versions_filtered z q) y,
        b ∙ y' ∙ y,
      )

  artifact-store :
      (q : VersionQueryParams) (s : Store)
      → (or_not_found artifact_not_found
          (Registry.get_artifact_by_group_and_id fails q.group_id q.artifact_id)
          s).1
        ≡ s
  artifact-store q s = ground arith

  -- `GetVersions`, when it succeeds, gives the page that stands in the tables, and changes nothing.
  pub get_versions_lem :
      (q : VersionQueryParams) (s s' : Store) (r : GetVersionsResult)
      → get_versions fails q s ≡ (ok r, s')
      → (r ≡ page_at q s) × (s' ≡ s)
  unfolding get_versions page_at
  get_versions_lem q s s' r h =
      let (a, t, e, k) =
        after-split (λ _. list_versions_filtered_call fails q >>= with_tags fails q)
          (or_not_found artifact_not_found
            (Registry.get_artifact_by_group_and_id fails q.group_id q.artifact_id) s)
          r s' h in
      let w = sym (ap (λ z. z.1) e) ∙ artifact-store q s in
      let (vs, u, f, m) =
        after-split (with_tags fails q) (list_versions_filtered_call fails q t) r s' k in
      let (x, y) = ok-injective (list_versions_filtered t q) vs t u (
        ask-ok fails (codes "ListVersionsFiltered") 0 (λ s. (ok (list_versions_filtered s q), s)) t
          vs u f) in
      let z = y ∙ w in
      let (c, d, g) = with_tags_lem q vs u s' r m in
      let l = x ∙ ap (λ z. list_versions_filtered z q) w in
      (
        result_equal r (page_at q s)
            (c ∙ ap (λ z. map (entry_of z.tags) vs) z ∙ ap (map (entry_of s.tags)) l)
            (d
              ∙ ap (λ z'. if is_empty vs then 0 else count_versions_filtered z' q) z
              ∙ ap (λ ws. if is_empty ws then 0 else count_versions_filtered s q) l),
        g ∙ z,
      )
