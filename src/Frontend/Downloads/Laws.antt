-- ===== src/Frontend/Downloads/Laws.antt =====
-- The downloads page against the listing of versions that the API answers.
use system_of_adownload.Prelude.{List, Option, Ordering, Text, [], codes, some, ℕ, ◌∷◌, ◌≡◌}
use system_of_adownload.Db.Details.{default_value}
use system_of_adownload.Db.Models.{Store}
use system_of_adownload.Db.Tx.{Result, ok, Faults}
use system_of_adownload.Frontend.Config.{PlatformConfig}
use system_of_adownload.Frontend.Downloads.{BuildDetail, DownloadsPage, or_none}
use system_of_adownload.Frontend.Pagination.{compute_pagination}
use system_of_adownload.Frontend.Preferences.{Preferences}
use system_of_adownload.Prelude.Map.{Map}
use system_of_adownload.Frontend.Downloads.Page.{HasNoDefault}

module _ {Time : Type 0} (parse : Text → Option Time) (relative format : Time → Text)
    (fails : Faults) (collate : Text → Text → Ordering) (platform : PlatformConfig) where
  abbrev page_of :
      ℕ → List Text → Text → Result (Option BuildDetail) → List BuildDetail × ℕ → DownloadsPage
  page_of offset mc_versions selected recommended (builds, total) = record {
    platform = platform;
    mc_versions = mc_versions;
    selected_mc = selected;
    recommended = or_none parse relative format fails collate platform recommended;
    builds = builds;
    pagination = compute_pagination offset total;
  }

  -- The default that was read, where it was.
  abbrev IsDefault : Text → Result Text → Store → Type 0
  IsDefault [] (ok (c ∷ v)) s =
      default_value platform.group platform.id (codes "minecraft") s ≡ some (c ∷ v)
  IsDefault [] _ s = HasNoDefault fails platform s
  IsDefault _ _ s = Unit
