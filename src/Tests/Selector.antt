-- ===== src/Tests/Selector.antt =====
-- internal/frontend/version_sort.go on the texts of its own test.
use system_of_adownload.Prelude.{before, codes, not, refl, true, ◌≡◌}
use system_of_adownload.Domain.Version.Parse.{parse_simple_fields}
use system_of_adownload.Frontend.VersionSort.{is_pre_release}
use system_of_adownload.Frontend.VersionSort.Agreement.{is_final, is_pre_release_iff_final}

is_pre_release_iff_final_example :
    is_pre_release (codes "25w14a") ≡ not (is_final (parse_simple_fields (codes "25w14a")))
unfolding before
is_pre_release_iff_final_example = is_pre_release_iff_final (codes "25w14a") (λ e. cc e)

-- The premise is needed: the domain takes a leading `-` for a final release.
leading_dash :
    (is_pre_release (codes "-x") ≡ true) × (is_final (parse_simple_fields (codes "-x")) ≡ true)
unfolding is_pre_release parse_simple_fields
leading_dash = (refl, refl)
