-- ===== src/Activity/Sync/NewVersions.antt =====
-- `StoreNewVersions`: what it stores and what it returns.
-- What follows a transaction returns its argument and leaves the store.
use system_of_adownload.Db.Registry
use system_of_adownload.Prelude.{
  All, Bool, List, Ordering, Text, [], ap, arith, codes, false, inl, inr, length, not, refl, some,
  suc, sym, true, ℕ, ◌<◌, ◌^◌, ◌∙◌, ◌∷◌, ◌≡◌,
}
use system_of_adownload.Activity.Sync.{
  VersionInfo, is_unknown, insert_versions, store_pending, existing_strings, store_new_versions,
}
use system_of_adownload.Activity.Sync.Inserts.{
  Grows, Grows-refl, insert_versions-Grows, Grows-any, insert_versions-stored,
}
use system_of_adownload.Activity.Sync.Laws.{All-select, any-version_strings, length-version_strings}
use system_of_adownload.Activity.Sync.Pages.{page_loop-store, page_loop_lem}
use system_of_adownload.Db.Models.{ArtifactRow, Store}
use system_of_adownload.Db.Registry.{is_artifact}
use system_of_adownload.Db.Tx.{Result, ok, err, Db, after, ◌>>=◌, pure, Faults, with_tx}
use system_of_adownload.Db.Tx.Laws.{with_tx-cases, with_tx-ok}
use system_of_adownload.Db.Versions.{is_version, version_strings}
use system_of_adownload.Prelude.Rows.{find, any, select}

bind-store :
    (r : Result (Unit {0}) × Store) (vs : List VersionInfo) → (after (λ _. pure vs) r).1 ≡ r.1
bind-store (ok t, s) vs = refl
bind-store (err e, s) vs = refl

bind-ok :
    (r : Result (Unit {0}) × Store) (vs new : List VersionInfo) (s' : Store)
    → after (λ _. pure vs) r ≡ (ok new, s')
    → (new ≡ vs) × (r ≡ (ok tt, s'))
bind-ok (ok t, s) vs new s' h = ground arith
bind-ok (err e, s) vs new s' h = absurd (cc h)

-- A call that only reads, and what follows it.
after-Grows :
    {A B : Type 0} (f : A → Db B) (s : Store) (r : Result A × Store)
    → r.1 ≡ s
    → ((a : A) → (i : ℕ) × Grows i s (f a s).1)
    → (i : ℕ) × Grows i s (after f r).1
after-Grows f s (ok a, t) e h = rw e (h a)
after-Grows f s (err e', t) e h = (0, rw e (Grows-refl 0 s))

module _ (fails : Faults) where
  get_artifact-store :
      (group artifact : Text) (s : Store)
      → (Registry.get_artifact_by_group_and_id fails group artifact s).1 ≡ s
  get_artifact-store group artifact s = ground arith

  store_pending-Grows :
      (artifact : ℕ) (pending : List VersionInfo) (s : Store)
      → Grows artifact s (store_pending fails artifact pending s).1
  unfolding store_pending
  store_pending-Grows artifact [] s = Grows-refl artifact s
  store_pending-Grows artifact (v ∷ vs) s =
      elim (with_tx-cases fails (insert_versions fails 0 artifact (v ∷ vs)) s) [
        | inl e ↦
            rw
              (bind-store (with_tx fails (insert_versions fails 0 artifact (v ∷ vs)) s) (v ∷ vs), e)
              (Grows-refl artifact s)
        | inr e ↦
            rw
              (bind-store (with_tx fails (insert_versions fails 0 artifact (v ∷ vs)) s) (v ∷ vs), e)
              (insert_versions-Grows fails artifact 0 (v ∷ vs) s)
      ]

module _ (fails : Faults) (collate : Text → Text → Ordering) where
  -- Not stored for the artifact.
  abbrev pub is_new : ℕ → Store → VersionInfo → Bool
  is_new artifact s v = not (any (is_version artifact v.version) s.versions)

  existing_strings_lem :
      (artifact : ℕ) (s : Store)
      → ((i : ℕ) → fails (codes "ListArtifactVersionStringsByArtifactID") i ≡ false)
      → length s.versions < 2 ^ 31
      → existing_strings fails collate artifact s ≡ (ok (version_strings collate s artifact), s)
  unfolding existing_strings
  existing_strings_lem artifact s works small =
      page_loop_lem fails collate artifact s (suc (length s.versions)) 0 0 [] works
        (omega (arith, length-version_strings collate s artifact)) (omega arith)
        (omega (arith, length-version_strings collate s artifact))

  select_new :
      (artifact : ℕ) (s : Store) (vs : List VersionInfo)
      → select (is_unknown (version_strings collate s artifact)) vs ≡ select (is_new artifact s) vs
  unfolding select
  select_new artifact s [] = refl
  select_new artifact s (v ∷ vs) =
      ground (arith, any-version_strings collate s artifact v.version, select_new artifact s vs)

  -- The read half: with the reads working, `StoreNewVersions` goes on with exactly the versions
  -- that are not stored.
  store_new_versions-store_pending :
      (group artifact : Text) (vs : List VersionInfo) (a : ArtifactRow) (s : Store)
      → find (is_artifact group artifact) s.artifacts ≡ some a
      → fails (codes "GetArtifactByGroupAndId") 0 ≡ false
      → ((i : ℕ) → fails (codes "ListArtifactVersionStringsByArtifactID") i ≡ false)
      → length s.versions < 2 ^ 31
      → store_new_versions fails collate group artifact vs s
        ≡ store_pending fails a.id (select (is_new a.id s) vs) s
  unfolding store_new_versions store_pending
  store_new_versions-store_pending group artifact [] a s found asks works small = refl
  store_new_versions-store_pending group artifact (v ∷ vs) a s found asks works small =
      rw (asks, found, existing_strings_lem a.id s works small, select_new a.id s (v ∷ vs)) refl

  -- Whatever call of the database fails, `StoreNewVersions` leaves all rows of the versions as they
  -- are, and the rows it adds only name versions: no order and no commit is overwritten.
  pub store_new_versions-Grows :
      (group artifact : Text) (vs : List VersionInfo) (s : Store)
      → (i : ℕ) × Grows i s (store_new_versions fails collate group artifact vs s).1
  unfolding store_new_versions
  store_new_versions-Grows group artifact [] s = (0, Grows-refl 0 s)
  store_new_versions-Grows group artifact (v ∷ vs) s =
      after-Grows
        (λ a. existing_strings fails collate a.id >>= λ existing.
          store_pending fails a.id (select (is_unknown existing) (v ∷ vs)))
        s (Registry.get_artifact_by_group_and_id fails group artifact s)
        (get_artifact-store fails group artifact s)
        (λ a.
          after-Grows (λ existing. store_pending fails a.id (select (is_unknown existing) (v ∷ vs)))
            s (existing_strings fails collate a.id s)
            (unfold existing_strings in
              page_loop-store fails collate a.id s (suc (length s.versions)) 0 0 [])
            (λ existing.
              (a.id, store_pending-Grows fails a.id (select (is_unknown existing) (v ∷ vs)) s)))

  stored_pending :
      (artifact : ℕ) (pending : List VersionInfo) (s s' : Store) (new : List VersionInfo)
      → store_pending fails artifact pending s ≡ (ok new, s')
      → (new ≡ pending) × All (λ v. any (is_version artifact v.version) s'.versions ≡ true) pending
  unfolding store_pending
  stored_pending artifact [] s s' new r = (ground arith, tt)
  stored_pending artifact (v ∷ vs) s s' new r =
      let (e, done) =
        bind-ok (with_tx fails (insert_versions fails 0 artifact (v ∷ vs)) s) (v ∷ vs) new s' r in
      (
        e,
        insert_versions-stored fails artifact 0 (v ∷ vs) s s'
            (with_tx-ok fails (insert_versions fails 0 artifact (v ∷ vs)) s s' tt done),
      )

  -- For a registered artifact, with the reads working and fewer than 2^31 rows, `StoreNewVersions`
  -- that succeeds returns exactly the versions of its input that the artifact did not have, in
  -- their order, and afterwards the artifact has all versions of the input.
  pub store_new_versions_lem :
      (group artifact : Text) (vs new : List VersionInfo) (a : ArtifactRow) (s s' : Store)
      → find (is_artifact group artifact) s.artifacts ≡ some a
      → fails (codes "GetArtifactByGroupAndId") 0 ≡ false
      → ((i : ℕ) → fails (codes "ListArtifactVersionStringsByArtifactID") i ≡ false)
      → length s.versions < 2 ^ 31
      → store_new_versions fails collate group artifact vs s ≡ (ok new, s')
      → (new ≡ select (is_new a.id s) vs)
        × All (λ v. any (is_version a.id v.version) s'.versions ≡ true) vs
  store_new_versions_lem group artifact vs new a s s' found asks works small r =
      let pending = select (is_new a.id s) vs in
      let r' =
        sym (store_new_versions-store_pending group artifact vs a s found asks works small) ∙ r in
      let (e, stored) = stored_pending a.id pending s s' new r' in
      (
        e,
        All-select (is_new a.id s)
            (λ v known.
              ap (λ z. any (is_version a.id v.version) z.1.versions) (sym r')
              ∙ Grows-any fails a.id (is_version a.id v.version) s
                  (store_pending fails a.id pending s).1 (store_pending-Grows fails a.id pending s)
                  (ground arith))
            vs stored,
      )
