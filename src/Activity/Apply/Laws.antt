-- ===== src/Activity/Apply/Laws.antt =====
-- What `ApplyVersionOrdering` makes of the rows.
use system_of_adownload.Prelude.{
  Bool, Bool-cases, List, Option, [], ap, arith, codes, false, if◌then◌else◌, inl, inr, map, none,
  refl, some, suc, sym, true, ℕ, ◌==◌, ◌∙◌, ◌∷◌, ◌≡◌,
}
use system_of_adownload.Activity.Apply.{apply_loop, apply_version_ordering}
use system_of_adownload.Activity.Ordering.{VersionSortAssignment}
use system_of_adownload.Db.Models.{ArtifactVersion, Store}
use system_of_adownload.Db.Tx.{ok, Faults}
use system_of_adownload.Db.Tx.Laws.{with_tx-ok}
use system_of_adownload.Prelude.Rows.{find, any, update, IsUnique}

abbrev pub same_version_id : VersionSortAssignment → VersionSortAssignment → Bool
same_version_id a b = a.version_id == b.version_id

abbrev given : Option VersionSortAssignment → ArtifactVersion → ArtifactVersion
given none v = v
given (some a) v = record v { sort_order = a.sort_order; recommended = a.recommended }

-- The row with the order and the flag that its assignment has, if there is one.
unfoldable pub assigned : List VersionSortAssignment → ArtifactVersion → ArtifactVersion
unfolding find
assigned assignments v = given (find (λ a. v.id == a.version_id) assignments) v

unassigned :
    (a : VersionSortAssignment) (rest : List VersionSortAssignment) (v : ArtifactVersion)
    → any (same_version_id a) rest ≡ false
    → (v.id == a.version_id) ≡ true
    → find (λ b. v.id == b.version_id) rest ≡ none
unfolding find any
unassigned a [] v h e = refl
unassigned a (b ∷ rest) v h e = ground (arith, unassigned a rest v)

pub assigned_step :
    (a : VersionSortAssignment) (rest : List VersionSortAssignment) (v : ArtifactVersion)
    → any (same_version_id a) rest ≡ false
    → assigned rest (
        if v.id == a.version_id
        then record v { sort_order = a.sort_order; recommended = a.recommended }
        else v)
      ≡ assigned (a ∷ rest) v
unfolding assigned
assigned_step a rest v h = elim (Bool-cases (v.id == a.version_id)) [
  | inl e ↦ rw e (rw (unassigned a rest v h e) refl)
  | inr e ↦ rw e refl
]

map-update :
    (f : ArtifactVersion → ArtifactVersion) (p : ArtifactVersion → Bool)
    (g : ArtifactVersion → ArtifactVersion) (vs : List ArtifactVersion)
    → map f (update p g vs) ≡ map (λ v. f (if p v then g v else v)) vs
unfolding update
map-update f p g [] = refl
map-update f p g (v ∷ vs) = ap (λ ws. f (if p v then g v else v) ∷ ws) (map-update f p g vs)

pub map_equal :
    (f g : ArtifactVersion → ArtifactVersion)
    → ((v : ArtifactVersion) → f v ≡ g v)
    → (vs : List ArtifactVersion) → map f vs ≡ map g vs
map_equal f g h [] = refl
map_equal f g h (v ∷ vs) = rw (h v, map_equal f g h vs) refl

pub map_id : (vs : List ArtifactVersion) → vs ≡ map (assigned []) vs
unfolding assigned find
map_id [] = refl
map_id (v ∷ vs) = ap (λ ws. v ∷ ws) (map_id vs)

module _ (fails : Faults) where
  apply_loop_lem :
      (call : ℕ) (xs : List VersionSortAssignment) (s s' : Store)
      → IsUnique same_version_id xs
      → apply_loop fails call xs s ≡ (ok tt, s')
      → s'.versions ≡ map (assigned xs) s.versions
  unfolding apply_loop
  apply_loop_lem call [] s s' u h = ap (λ r. r.1.versions) (sym h) ∙ map_id s.versions
  apply_loop_lem call (a ∷ rest) s s' u h =
      elim (Bool-cases (fails (codes "UpdateArtifactVersionOrder") call)) [
        | inl e ↦ absurd (ground arith)
        | inr e ↦
            apply_loop_lem (suc call) rest
              (record s {
                versions =
                    update (λ v. v.id == a.version_id)
                      (λ v. record v { sort_order = a.sort_order; recommended = a.recommended })
                      s.versions;
              })
              s' u.1 (rw e at h)
            ∙ map-update (assigned rest) (λ v. v.id == a.version_id)
                (λ v. record v { sort_order = a.sort_order; recommended = a.recommended })
                s.versions
            ∙ map_equal
                (λ v. assigned rest (
                  if v.id == a.version_id
                  then record v { sort_order = a.sort_order; recommended = a.recommended }
                  else v))
                (assigned (a ∷ rest)) (λ v. assigned_step a rest v u.0) s.versions
      ]

  -- With one assignment for each id, `ApplyVersionOrdering` that succeeds gives every version the
  -- order and the flag of its assignment, and leaves the versions without one.
  pub apply_version_ordering_lem :
      (xs : List VersionSortAssignment) (s s' : Store)
      → IsUnique same_version_id xs
      → apply_version_ordering fails xs s ≡ (ok tt, s')
      → s'.versions ≡ map (assigned xs) s.versions
  unfolding apply_version_ordering
  apply_version_ordering_lem [] s s' u h = ap (λ r. r.1.versions) (sym h) ∙ map_id s.versions
  apply_version_ordering_lem (a ∷ rest) s s' u h =
      apply_loop_lem 0 (a ∷ rest) s s' u
        (with_tx-ok fails (apply_loop fails 0 (a ∷ rest)) s s' tt h)
