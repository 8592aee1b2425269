-- ===== src/Workflow/Ordering.antt =====
-- internal/workflow/version_ordering.go. `run i` is which database calls fail in activity `i` of a
-- run: 0 to 2 read, and the batches count on from 3.
pub mod Laws
use system_of_adownload.Prelude.{
  Bool, List, Option, Text, [], drop, false, if◌then◌else◌, is_empty, length, none, some, suc, take,
  zero, ℕ, ℤ, ◌+◌, ◌∷◌,
}
use system_of_adownload.Activity.Apply.{apply_version_ordering}
use system_of_adownload.Activity.Fetch.{fetch_mojang_manifest, fetch_version_schema, order_versions}
use system_of_adownload.Activity.Ordering.{ComputeVersionOrderingOutput}
use system_of_adownload.Activity.Tags.{store_version_tags}
use system_of_adownload.App.Service.Consistent.{run}
use system_of_adownload.Db.Tx.{Result, ok, err, Db, ◌>>=◌, ◌>>◌, pure, Faults}
use system_of_adownload.Domain.Version.Schema.{Pattern, VersionSchema}
use system_of_adownload.Prelude.Map.{Map}

-- `slices.Chunk`; the fuel is the length of the list.
unfoldable pub chunk_from {ℓ} : {A : Type ℓ} → ℕ → ℕ → List A → List (List A)
chunk_from zero n xs = []
chunk_from (suc fuel) n [] = []
chunk_from (suc fuel) n (x ∷ xs) = take n (x ∷ xs) ∷ chunk_from fuel n (drop n (x ∷ xs))

abbrev pub chunk {ℓ} : {A : Type ℓ} → ℕ → List A → List (List A)
chunk n xs = chunk_from (length xs) n xs

abbrev pub ordering_batch_size : ℕ
ordering_batch_size = 500

-- A loop over the batches, which an error ends.
unfoldable pub each_batch {ℓ} :
    {A : Type ℓ} → (ℕ → List A → Db (Unit {0})) → ℕ → List (List A) → Db (Unit {0})
each_batch store i [] = pure tt
each_batch store i (b ∷ batches) = store i b >> each_batch store (suc i) batches

abbrev uses_manifest : Option VersionSchema → Bool
uses_manifest none = false
uses_manifest (some schema) = schema.use_mojang_manifest

module _ (run : ℕ → Faults) where
  -- Steps 4 and 5, and the count of the versions.
  unfoldable pub apply_and_tag : ComputeVersionOrderingOutput → Db ℕ
  unfolding apply_version_ordering store_version_tags each_batch chunk_from
  apply_and_tag out =
      if is_empty out.assignments
      then pure 0
      else (each_batch (λ i b. apply_version_ordering (run i) b) 3
            (chunk ordering_batch_size out.assignments)
          >> each_batch (λ i b. store_version_tags (run i) b) (3 + length out.assignments)
              (chunk ordering_batch_size out.version_tags)
          >> pure (length out.assignments))

module _ (run : ℕ → Faults) (compile : Text → Option Pattern)
    (manifest : Text → Result (List Text)) where
  -- Step 2
  abbrev fetch_manifest : Text → Option VersionSchema → Db (Option (Map ℤ))
  fetch_manifest url schema s =
      if uses_manifest schema
      then elim (fetch_mojang_manifest manifest url) [
        | ok order ↦ (ok (some order), s)
        | err e ↦ (err e, s)
      ]
      else (ok none, s)

  -- `VersionOrderingWorkflow`
  unfoldable version_ordering_workflow : Text → Text → Text → Db ℕ
  unfolding fetch_version_schema order_versions apply_and_tag
  version_ordering_workflow group artifact url = do
    schema ← fetch_version_schema (run 0) compile group artifact
    order ← fetch_manifest url schema
    out ← order_versions (run 2) compile group artifact schema order
    apply_and_tag run out
