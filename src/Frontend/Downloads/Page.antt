-- ===== src/Frontend/Downloads/Page.antt =====
-- What the downloads page shows, read off the tables and the listing of versions.
use system_of_adownload.Prelude.{
  Bool, List, Ordering, Text, [], ap, codes, map, none, not, refl, some, take, true, false, ℕ, ◌||◌,
  ◌∷◌, ◌≡◌, ◌≢◌, ◌⊎◌,
}
use system_of_adownload.Activity.Ordering.{int32}
use system_of_adownload.Db.Details.{default_value, get_distinct_tag_values}
use system_of_adownload.Db.Models.{Store}
use system_of_adownload.Db.Tx.{ok, Faults}
use system_of_adownload.Frontend.Config.{PlatformConfig}
use system_of_adownload.Frontend.Downloads.{
  DownloadsPage, or_empty, tag_filter_of, filter_mc_versions,
}
use system_of_adownload.Frontend.Pagination.{compute_pagination}
use system_of_adownload.Frontend.Preferences.{Preferences}
use system_of_adownload.Frontend.VersionSort.{is_pre_release}
use system_of_adownload.Prelude.Map.{Map, lookup}
use system_of_adownload.Prelude.Rows.{select}
use system_of_adownload.Frontend.Downloads.Builds.{IsListing, IsRecommended}

-- No default can be read: the query fails, no recommended version has the tag, or its value is empty.
abbrev pub HasNoDefault : Faults → PlatformConfig → Store → Type 0
HasNoDefault fails platform s =
    (fails (codes "GetDefaultTagValue") 0 ≡ true)
    ⊎ (default_value platform.group platform.id (codes "minecraft") s ≡ none)
    ⊎ (default_value platform.group platform.id (codes "minecraft") s ≡ some [])

-- The version of a page: the one that is asked for; without one, the default that stands in the tables;
-- without that, the first version that can be chosen.
abbrev pub IsChosen : Faults → PlatformConfig → Text → Store → List Text → Text → Type 0
IsChosen fails platform [] s mc_versions selected =
    ((default_value platform.group platform.id (codes "minecraft") s ≡ some selected)
      × (selected ≢ []))
    ⊎ (HasNoDefault fails platform s × (take 1 mc_versions ≡ selected ∷ []))
IsChosen fails platform (c ∷ asked) s mc_versions selected = selected ≡ c ∷ asked

-- What a page with builds shows: its version, the recommended build, if there is one, its builds, and the
-- buttons for their number.
abbrev pub IsBuildsPage : Faults → PlatformConfig → Bool → Text → ℕ → Store → DownloadsPage → Type 0
IsBuildsPage fails platform filter_api asked offset s p =
    (total : ℕ) × IsChosen fails platform asked s p.mc_versions p.selected_mc
    × IsRecommended fails platform (tag_filter_of platform p.selected_mc filter_api) s p.recommended
    × IsListing platform (tag_filter_of platform p.selected_mc filter_api) (int32 offset) s
        (map (λ b. b.version) p.builds) total
    × (p.pagination ≡ compute_pagination offset total)

-- Either there is no version to choose, and then there are no builds, or the page has builds.
abbrev pub IsFilled : Faults → PlatformConfig → Bool → Text → ℕ → Store → DownloadsPage → Type 0
IsFilled fails platform filter_api asked offset s p =
    ((p.mc_versions ≡ []) × (p.builds ≡ []))
    ⊎ IsBuildsPage fails platform filter_api asked offset s p

-- The versions that can be chosen are the values of the tag `minecraft`, less the pre-releases, unless
-- the preferences show them.
abbrev pub AreChoices :
    Faults → (Text → Text → Ordering) → PlatformConfig → Bool → Store → List Text → Type 0
AreChoices fails collate platform show_pre_release s versions =
    (tags : Map (List Text)) × (get_distinct_tag_values fails collate platform.group platform.id s
      ≡ (ok tags, s))
    × (versions
        ≡ select (λ v. show_pre_release || not (is_pre_release v))
            (or_empty (lookup (codes "minecraft") tags)))

abbrev pub IsPage :
    Faults
    → (Text → Text → Ordering)
    → PlatformConfig
    → Preferences
    → Text
    → ℕ
    → Store
    → DownloadsPage
    → Type 0
IsPage fails collate platform prefs asked offset s p =
    AreChoices fails collate platform prefs.show_pre_release s p.mc_versions
    × IsFilled fails platform prefs.filter_api asked offset s p

select_all : (p : Text → Bool) (xs : List Text) → ((x : Text) → p x ≡ true) → xs ≡ select p xs
unfolding select
select_all p [] h = refl
select_all p (x ∷ xs) h = rw (h x) (ap (λ r. x ∷ r) (select_all p xs h))

pub filter_mc_versions_lem :
    (versions : List Text) (show_pre_release : Bool)
    → filter_mc_versions versions show_pre_release
      ≡ select (λ v. show_pre_release || not (is_pre_release v)) versions
unfolding filter_mc_versions
filter_mc_versions_lem versions true = select_all (λ _. true) versions (λ _. refl)
filter_mc_versions_lem versions false = refl
