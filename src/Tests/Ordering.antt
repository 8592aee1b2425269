-- ===== src/Tests/Ordering.antt =====
-- internal/activity/version_ordering.go on two versions.
use Prim.Native.String.{String}
use mathlib.Core.List.{Perm, mem-cons_self, mem-cons_of_mem}
use system_of_adownload.Prelude.{
  List, Ordering, [], arith, codes, map, none, pos, refl, some, true, ℕ, ◌∷◌, ◌≡◌, ◌≢◌,
}
use system_of_adownload.Activity.Ordering.{
  VersionRow, VersionSortAssignment, ComputeVersionOrderingOutput, compare_items, parse_row,
  compute_version_ordering,
}
use system_of_adownload.Activity.Ordering.Follows.{compute_version_ordering-follows}
use system_of_adownload.Activity.Ordering.Laws.{count_from, compute_version_ordering_lem}
use system_of_adownload.Domain.Version.Parse.{parse_simple_fields}
use system_of_adownload.Prelude.Map.{lookup, insert}
use system_of_adownload.Prelude.Rows.{any}
use system_of_adownload.Domain.Version.{ParseAs}
use system_of_adownload.Domain.Version.Schema.{parse_version_with_schema}
use system_of_adownload.Domain.Version.Schema.Form.{form}
use system_of_adownload.Tests.Versions.{sponge_compile, sponge_schema}

abbrev row : ℕ → String → VersionRow
row id text = record { id = id; text = codes text }

abbrev rows : List VersionRow
rows = row 10 "1.12-8" ∷ row 11 "1.12-7" ∷ []

abbrev out : ComputeVersionOrderingOutput
out = compute_version_ordering sponge_compile (some sponge_schema) none rows

newest_last : map (λ a. a.version_id) out.assignments ≡ 11 ∷ 10 ∷ []
unfolding compute_version_ordering insert parse_simple_fields
newest_last = refl

compute_version_ordering_lem_example :
    Perm (map (λ a. a.version_id) out.assignments) (map (λ v. v.id) rows)
    × (map (λ a. a.sort_order) out.assignments ≡ count_from 0 2)
compute_version_ordering_lem_example =
    compute_version_ordering_lem sponge_compile (some sponge_schema) none rows (omega arith)

abbrev older : VersionSortAssignment
older = record { version_id = 11; sort_order = pos 1; recommended = true }

abbrev newer : VersionSortAssignment
newer = record { version_id = 10; sort_order = pos 2; recommended = true }

-- 1.12-7 is not above 1.12-8.
compute_version_ordering-follows_example :
    compare_items
      (parse_row sponge_compile (some sponge_schema) none (row 11 "1.12-7"))
      (parse_row sponge_compile (some sponge_schema) none (row 10 "1.12-8"))
    ≢ Ordering.gt
unfolding form parse_version_with_schema compute_version_ordering insert lookup parse_simple_fields
    any
compute_version_ordering-follows_example =
    compute_version_ordering-follows sponge_compile (some sponge_schema) none
      (ParseAs.minecraft ∷ ParseAs.integer ∷ []) rows older newer (row 11 "1.12-7")
      (row 10 "1.12-8") (refl, (refl, tt)) (refl, (refl, tt)) (omega arith) mem-cons_self
      (mem-cons_of_mem older mem-cons_self) (mem-cons_of_mem (row 10 "1.12-8") mem-cons_self)
      mem-cons_self refl refl refl
