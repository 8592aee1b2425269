-- ===== src/Activity/Sync/Laws.antt =====
-- The versions that the pages list, against the table.
use system_of_adownload.Prelude.{
  All, Bool, Bool-cases, List, Ordering, Text, [], arith, false, inl, inr, length, length-map, map,
  text_eq, text_eq_iff, ℕ, ◌&&◌, ◌==◌, ◌∙◌, ◌∷◌, ◌≡◌, ◌≤◌,
}
use system_of_adownload.Activity.Sort.Any.{any-sort_stable}
use system_of_adownload.Activity.Sort.Stable.{length-sort_stable}
use system_of_adownload.Activity.Sync.{VersionInfo}
use system_of_adownload.Db.Models.{Store}
use system_of_adownload.Db.Versions.{is_version, version_strings}
use system_of_adownload.Prelude.Rows.{any, select, any-select, any-map, any_equal, length-select}

pub All-select {κ} :
    {Q : VersionInfo → Type κ} (p : VersionInfo → Bool)
    → ((v : VersionInfo) → p v ≡ false → Q v)
    → (vs : List VersionInfo) → All Q (select p vs)
    → All Q vs
unfolding select
All-select p h [] hs = tt
All-select p h (v ∷ vs) hs = elim (Bool-cases (p v)) [
  | inl e ↦ let hs' = rw e at hs in (hs'.0, All-select p h vs hs'.1)
  | inr e ↦ (h v e, All-select p h vs (rw e at hs))
]

module _ (collate : Text → Text → Ordering) (s : Store) (artifact : ℕ) where
  -- The list has exactly the versions of the artifact.
  pub any-version_strings :
      (version : Text)
      → any (text_eq version) (version_strings collate s artifact)
        ≡ any (is_version artifact version) s.versions
  unfolding version_strings
  any-version_strings version =
      any-sort_stable (text_eq version) collate
        (map (λ v. v.version) (select (λ v. v.artifact_id == artifact) s.versions))
      ∙ any-map (text_eq version) (λ v. v.version)
          (select (λ v. v.artifact_id == artifact) s.versions)
      ∙ any-select (λ v. text_eq version v.version) (λ v. v.artifact_id == artifact) s.versions
      ∙ any_equal (λ v. v.artifact_id == artifact && text_eq version v.version)
          (is_version artifact version)
          (λ v. ground (arith, text_eq_iff version v.version, text_eq_iff v.version version))
          s.versions

  pub length-version_strings : length (version_strings collate s artifact) ≤ length s.versions
  unfolding version_strings
  length-version_strings =
      rw
        (
          length-sort_stable collate
              (map (λ v. v.version) (select (λ v. v.artifact_id == artifact) s.versions)),
          length-map (select (λ v. v.artifact_id == artifact) s.versions) (λ v. v.version),
        )
        (length-select (λ v. v.artifact_id == artifact) s.versions)
