-- ===== src/Activity/Apply.antt =====
-- `ApplyVersionOrdering` of internal/activity/version_ordering.go.
pub mod Laws
use system_of_adownload.Prelude.{List, [], if◌then◌else◌, is_empty, suc, ℕ, ◌∷◌}
use system_of_adownload.Activity.Ordering.{VersionSortAssignment}
use system_of_adownload.Db.Tx.{Db, ◌>>◌, pure, Faults, with_tx}
use system_of_adownload.Db.Versions.{update_artifact_version_order}
use system_of_adownload.Prelude.Rows.{update}

module _ (fails : Faults) where
  -- The loop of the transaction.
  pub apply_loop : ℕ → List VersionSortAssignment → Db (Unit {0})
  unfolding update
  apply_loop call [] = pure tt
  apply_loop call (a ∷ rest) =
      update_artifact_version_order fails call a.version_id a.sort_order a.recommended
      >> apply_loop (suc call) rest

  unfoldable pub apply_version_ordering : List VersionSortAssignment → Db (Unit {0})
  unfolding apply_loop with_tx
  apply_version_ordering assignments =
      if is_empty assignments then pure tt else with_tx fails (apply_loop 0 assignments)
