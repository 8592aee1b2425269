-- ===== src/Activity/Sync/Inserts.antt =====
-- The transaction of `StoreNewVersions`.
use mathlib.Core.List.{append-nil, append_assoc}
use system_of_adownload.Prelude.{
  All, All-append, Bool, List, Text, [], ap, arith, false, inl, inr, refl, suc, sym, text_eq_refl,
  true, ℕ, ◌++◌, ◌∙◌, ◌∷◌, ◌≡◌, ◌⊎◌,
}
use system_of_adownload.Activity.Sync.{VersionInfo, insert_versions}
use system_of_adownload.Db.Models.{ArtifactVersion, Store}
use system_of_adownload.Db.Tx.{other, ok, err, Faults}
use system_of_adownload.Db.Tx.Laws.{after-ok, after-err}
use system_of_adownload.Db.Versions.{is_version, bare_version, insert_new_artifact_version}
use system_of_adownload.Prelude.Rows.{any, any-append, IsUnique, IsUnique-append}

abbrev pub same_version : ArtifactVersion → ArtifactVersion → Bool
same_version a b = is_version b.artifact_id b.version a

-- A row that only names a version: no order, no recommendation, no commit.
abbrev IsBare : ℕ → ArtifactVersion → Type 0
IsBare artifact v = v ≡ bare_version artifact v.version v.id

-- `s'` has the rows of `s` and, after them, rows that only name versions of the artifact.
abbrev pub Grows : ℕ → Store → Store → Type 0
Grows artifact s s' =
    (added : List ArtifactVersion) × (s'.versions ≡ s.versions ++ added)
    × All (IsBare artifact) added

pub Grows-refl : (artifact : ℕ) (s : Store) → Grows artifact s s
Grows-refl artifact s = ([], sym (append-nil s.versions), tt)

Grows-trans :
    (artifact : ℕ) (r s t : Store) → Grows artifact r s → Grows artifact s t → Grows artifact r t
Grows-trans artifact r s t (xs, e, hx) (ys, e', hy) =
    (xs ++ ys, e' ∙ rw e (append_assoc r.versions xs ys), All-append (IsBare artifact) xs ys hx hy)

module _ (fails : Faults) (artifact : ℕ) where
  insert_new_artifact_version-cases :
      (call : ℕ) (version : Text) (s : Store)
      → (insert_new_artifact_version fails call artifact version s ≡ (err other, s))
        ⊎ ((insert_new_artifact_version fails call artifact version s ≡ (ok tt, s))
            × (any (is_version artifact version) s.versions ≡ true))
        ⊎ ((insert_new_artifact_version fails call artifact version s ≡ (
          ok tt,
          record s {
            versions = s.versions ++ bare_version artifact version s.next_version ∷ [];
            next_version = suc s.next_version;
          },
        ))
            × (any (is_version artifact version) s.versions ≡ false))
  unfolding insert_new_artifact_version
  insert_new_artifact_version-cases call version s = ground arith

  abbrev with_version : Text → Store → Store
  with_version version s = record s {
    versions = s.versions ++ bare_version artifact version s.next_version ∷ [];
    next_version = suc s.next_version;
  }

  with_version-Grows : (version : Text) (s : Store) → Grows artifact s (with_version version s)
  with_version-Grows version s =
      (bare_version artifact version s.next_version ∷ [], refl, (refl, tt))

  -- Whatever call fails, the rows that are there stay as they are.
  pub insert_versions-Grows :
      (call : ℕ) (vs : List VersionInfo) (s : Store)
      → Grows artifact s (insert_versions fails call artifact vs s).1
  unfolding insert_versions
  insert_versions-Grows call [] s = Grows-refl artifact s
  insert_versions-Grows call (v ∷ rest) s =
      elim (insert_new_artifact_version-cases call v.version s) [
        | inl e ↦ rw e (Grows-refl artifact s)
        | inr (inl (e, h)) ↦ rw e (insert_versions-Grows (suc call) rest s)
        | inr (inr (e, h)) ↦ rw e (
            Grows-trans artifact s (with_version v.version s)
              (insert_versions fails (suc call) artifact rest (with_version v.version s)).1
              (with_version-Grows v.version s)
              (insert_versions-Grows (suc call) rest (with_version v.version s)))
      ]

  -- Where no version of an artifact has two rows, the inserts give none a second row, whatever rows
  -- a concurrent run has added since the versions were listed.
  pub insert_versions-IsUnique :
      (call : ℕ) (vs : List VersionInfo) (s : Store)
      → IsUnique same_version s.versions
      → IsUnique same_version (insert_versions fails call artifact vs s).1.versions
  unfolding insert_versions
  insert_versions-IsUnique call [] s u = u
  insert_versions-IsUnique call (v ∷ rest) s u =
      elim (insert_new_artifact_version-cases call v.version s) [
        | inl e ↦ rw e u
        | inr (inl (e, h)) ↦ rw e (insert_versions-IsUnique (suc call) rest s u)
        | inr (inr (e, h)) ↦ rw e (
            insert_versions-IsUnique (suc call) rest (with_version v.version s) (
              IsUnique-append same_version s.versions
                (bare_version artifact v.version s.next_version) u h))
      ]

  pub Grows-any :
      (p : ArtifactVersion → Bool) (s s' : Store)
      → Grows artifact s s'
      → any p s.versions ≡ true
      → any p s'.versions ≡ true
  Grows-any p s s' (added, e, h) t = ap (any p) e ∙ any-append p s.versions added ∙ rw t refl

  with_version-any :
      (version : Text) (s : Store)
      → any (is_version artifact version) (with_version version s).versions ≡ true
  unfolding any
  with_version-any version s = ground (
    arith,
    any-append (is_version artifact version) s.versions
        (bare_version artifact version s.next_version ∷ []),
    text_eq_refl version,
  )

  stored_step :
      (call : ℕ) (v : VersionInfo) (rest : List VersionInfo) (s s' t : Store)
      → insert_versions fails (suc call) artifact rest t ≡ (ok tt, s')
      → any (is_version artifact v.version) t.versions ≡ true
      → All (λ w. any (is_version artifact w.version) s'.versions ≡ true) rest
      → All (λ w. any (is_version artifact w.version) s'.versions ≡ true) (v ∷ rest)
  stored_step call v rest s s' t r h hs = (
    ap (λ z. any (is_version artifact v.version) z.1.versions) (sym r)
        ∙ Grows-any (is_version artifact v.version) t
            (insert_versions fails (suc call) artifact rest t).1
            (insert_versions-Grows (suc call) rest t) h,
    hs,
  )

  -- When no call fails, all the versions are in the table.
  pub insert_versions-stored :
      (call : ℕ) (vs : List VersionInfo) (s s' : Store)
      → insert_versions fails call artifact vs s ≡ (ok tt, s')
      → All (λ v. any (is_version artifact v.version) s'.versions ≡ true) vs
  unfolding insert_versions
  insert_versions-stored call [] s s' r = tt
  insert_versions-stored call (v ∷ rest) s s' r =
      elim (insert_new_artifact_version-cases call v.version s) [
        | inl e ↦ absurd (after-err (λ _. insert_versions fails (suc call) artifact rest) e r)
        | inr (inl (e, h)) ↦
            stored_step call v rest s s' s
              (after-ok (λ _. insert_versions fails (suc call) artifact rest) e r) h
              (insert_versions-stored (suc call) rest s s'
                (after-ok (λ _. insert_versions fails (suc call) artifact rest) e r))
        | inr (inr (e, h)) ↦
            stored_step call v rest s s' (with_version v.version s)
              (after-ok (λ _. insert_versions fails (suc call) artifact rest) e r)
              (with_version-any v.version s)
              (insert_versions-stored (suc call) rest (with_version v.version s) s'
                (after-ok (λ _. insert_versions fails (suc call) artifact rest) e r))
      ]
