-- ===== src/Workflow/Ordering/Laws.antt =====
-- What the ordering workflow makes of the rows.
use mathlib.Core.Path.{subst}
use system_of_adownload.Prelude.{
  Bool, Bool-cases, List, [], ap, arith, drop, false, if◌then◌else◌, inl, inr, is_empty, length,
  length-drop, map, refl, suc, sym, take, take-append-drop, true, zero, ℕ, ◌++◌, ◌+◌, ◌<◌, ◌==◌,
  ◌∙◌, ◌∷◌, ◌≡◌, ◌≤◌,
}
use system_of_adownload.Activity.Apply.{apply_version_ordering}
use system_of_adownload.Activity.Apply.Laws.{
  same_version_id, assigned, assigned_step, map_equal, map_id, apply_version_ordering_lem,
}
use system_of_adownload.Activity.Ordering.{
  VersionSortAssignment, VersionTagSet, ComputeVersionOrderingOutput,
}
use system_of_adownload.Activity.Tags.{store_version_tags}
use system_of_adownload.Activity.Tags.Laws.{store_version_tags-versions}
use system_of_adownload.Db.Models.{ArtifactVersion, Store}
use system_of_adownload.Db.Tx.{ok, ◌>>◌, pure, Faults}
use system_of_adownload.Db.Tx.Laws.{after-split, after-keeps}
use system_of_adownload.Prelude.Rows.{find, any, IsUnique}
use system_of_adownload.Workflow.Ordering.{
  chunk_from, chunk, ordering_batch_size, each_batch, apply_and_tag,
}

pub join {ℓ} : {A : Type ℓ} → List (List A) → List A
join [] = []
join (b ∷ batches) = b ++ join batches

length-drop_cons {ℓ} :
    {A : Type ℓ} (fuel n : ℕ) (x : A) (xs : List A)
    → 0 < n
    → length (x ∷ xs) ≤ suc fuel
    → length (drop n (x ∷ xs)) ≤ fuel
length-drop_cons fuel n x xs h l = omega (arith, length-drop n (x ∷ xs))

-- The batches hold the list, in its order.
join-chunk_from {ℓ} :
    {A : Type ℓ} (fuel n : ℕ) (xs : List A)
    → 0 < n
    → length xs ≤ fuel
    → join (chunk_from fuel n xs) ≡ xs
unfolding join chunk_from
join-chunk_from zero n [] h l = refl
join-chunk_from zero n (x ∷ xs) h l = absurd (omega arith)
join-chunk_from (suc fuel) n [] h l = refl
join-chunk_from (suc fuel) n (x ∷ xs) h l =
    ap (λ ys. take n (x ∷ xs) ++ ys)
      (join-chunk_from fuel n (drop n (x ∷ xs)) h (length-drop_cons fuel n x xs h l))
    ∙ take-append-drop n (x ∷ xs)

abbrev HasUniqueIds : List VersionSortAssignment → Type 0
HasUniqueIds xs = IsUnique same_version_id xs

any_left :
    (p : VersionSortAssignment → Bool) (xs ys : List VersionSortAssignment)
    → any p (xs ++ ys) ≡ false
    → any p xs ≡ false
unfolding any
any_left p [] ys h = refl
any_left p (x ∷ xs) ys h = ground (arith, any_left p xs ys)

IsUnique_left : (xs ys : List VersionSortAssignment) → HasUniqueIds (xs ++ ys) → HasUniqueIds xs
IsUnique_left [] ys u = tt
IsUnique_left (x ∷ xs) ys u = (any_left (same_version_id x) xs ys u.0, IsUnique_left xs ys u.1)

IsUnique_right : (xs ys : List VersionSortAssignment) → HasUniqueIds (xs ++ ys) → HasUniqueIds ys
IsUnique_right [] ys u = u
IsUnique_right (x ∷ xs) ys u = IsUnique_right xs ys u.1

assigned_none : (v : ArtifactVersion) → assigned [] v ≡ v
unfolding assigned find
assigned_none v = refl

assigned-append :
    (xs ys : List VersionSortAssignment) (v : ArtifactVersion)
    → HasUniqueIds (xs ++ ys)
    → assigned ys (assigned xs v) ≡ assigned (xs ++ ys) v
assigned-append [] ys v u = ap (assigned ys) (assigned_none v)
assigned-append (a ∷ xs) ys v u =
    ap (assigned ys) (sym (assigned_step a xs v (any_left (same_version_id a) xs ys u.0)))
    ∙ assigned-append xs ys
        (if v.id == a.version_id
          then record v { sort_order = a.sort_order; recommended = a.recommended }
          else v)
        u.1
    ∙ assigned_step a (xs ++ ys) v u.0

map-map :
    (f g : ArtifactVersion → ArtifactVersion) (vs : List ArtifactVersion)
    → map f (map g vs) ≡ map (λ v. f (g v)) vs
map-map f g [] = refl
map-map f g (v ∷ vs) = ap (λ ws. f (g v) ∷ ws) (map-map f g vs)

is_empty-nil {ℓ} : {A : Type ℓ} (xs : List A) → is_empty xs ≡ true → xs ≡ []
is_empty-nil [] e = refl
is_empty-nil (x ∷ xs) e = absurd cc

module _ (run : ℕ → Faults) where
  each_batch_lem :
      (i : ℕ) (batches : List (List VersionSortAssignment)) (s s' : Store)
      → HasUniqueIds (join batches)
      → each_batch (λ i b. apply_version_ordering (run i) b) i batches s ≡ (ok tt, s')
      → s'.versions ≡ map (assigned (join batches)) s.versions
  unfolding each_batch join
  each_batch_lem i [] s s' u h = ap (λ r. r.1.versions) (sym h) ∙ map_id s.versions
  each_batch_lem i (b ∷ batches) s s' u h =
      let (t, m, e, k) =
        after-split (λ _. each_batch (λ i b. apply_version_ordering (run i) b) (suc i) batches)
          (apply_version_ordering (run i) b s) tt s' h in
      each_batch_lem (suc i) batches m s' (IsUnique_right b (join batches) u) k
      ∙ ap (map (assigned (join batches)))
          (apply_version_ordering_lem (run i) b s m (IsUnique_left b (join batches) u) e)
      ∙ map-map (assigned (join batches)) (assigned b) s.versions
      ∙ map_equal (λ v. assigned (join batches) (assigned b v)) (assigned (b ++ join batches))
          (λ v. assigned-append b (join batches) v u) s.versions

  each_batch-versions :
      (i : ℕ) (batches : List (List VersionTagSet)) (s : Store)
      → (each_batch (λ i b. store_version_tags (run i) b) i batches s).1.versions ≡ s.versions
  unfolding each_batch
  each_batch-versions i [] s = refl
  each_batch-versions i (b ∷ batches) s =
      after-keeps (λ t. t.versions)
        (λ _. each_batch (λ i b. store_version_tags (run i) b) (suc i) batches)
        (store_version_tags (run i) b s) (λ u t. each_batch-versions (suc i) batches t)
      ∙ store_version_tags-versions (run i) b s

  none_ordered :
      (xs : List VersionSortAssignment) (s s' : Store) (n : ℕ)
      → xs ≡ []
      → pure 0 s ≡ (ok n, s')
      → (n ≡ length xs) × (s'.versions ≡ map (assigned xs) s.versions)
  none_ordered xs s s' n e h = rw e (cc, ap (λ r. r.1.versions) (sym h) ∙ map_id s.versions)

  -- The ordering workflow from its computed assignments on, however they fall into batches of 500:
  -- when it succeeds, every version has the order and the flag of its assignment, those without one
  -- are left, the tags change no version, and the count is that of the assignments.
  pub apply_and_tag_lem :
      (out : ComputeVersionOrderingOutput) (s s' : Store) (n : ℕ)
      → IsUnique same_version_id out.assignments
      → apply_and_tag run out s ≡ (ok n, s')
      → (n ≡ length out.assignments) × (s'.versions ≡ map (assigned out.assignments) s.versions)
  unfolding apply_and_tag
  apply_and_tag_lem out s s' n u h = elim (Bool-cases (is_empty out.assignments)) [
    | inl e ↦ none_ordered out.assignments s s' n (is_empty-nil out.assignments e) (rw e at h)
    | inr e ↦
        let orders =
          each_batch (λ i b. apply_version_ordering (run i) b) 3
            (chunk ordering_batch_size out.assignments) in
        let tags =
          each_batch (λ i b. store_version_tags (run i) b) (3 + length out.assignments)
            (chunk ordering_batch_size out.version_tags) in
        let (x, t2, e2, k2) =
          after-split (λ _. pure (length out.assignments)) ((orders >> tags) s) n s' (rw e at h) in
        let (y, t1, e1, k1) = after-split (λ _. tags) (orders s) x t2 e2 in
        let j =
          join-chunk_from (length out.assignments) ordering_batch_size out.assignments (omega arith)
            (omega arith) in
        (
          cc,
          sym (ap (λ r. r.1.versions) k2)
              ∙ sym (ap (λ r. r.1.versions) k1)
              ∙ each_batch-versions (3 + length out.assignments)
                  (chunk ordering_batch_size out.version_tags) t1
              ∙ each_batch_lem 3 (chunk ordering_batch_size out.assignments) s t1
                  (subst HasUniqueIds (sym j) u) e1
              ∙ ap (λ xs. map (assigned xs) s.versions) j,
        )
  ]
