-- ===== src/Db/Filter/Page.antt =====
-- The size of a page of versions.
use Prim.Native.Nat.{min}
use system_of_adownload.Prelude.{
  ap, arith, drop, length, length-drop, length-take, ◌-◌, ◌∙◌, ◌≡◌, ◌≤◌,
}
use system_of_adownload.Activity.Sort.{sort_stable}
use system_of_adownload.Activity.Sort.Stable.{length-sort_stable}
use system_of_adownload.Db.Filter.{
  VersionQueryParams, filtered, page_of, list_versions_filtered, count_versions_filtered,
}
use system_of_adownload.Db.Models.{Store}
use system_of_adownload.Db.Versions.{newest_first}

pub length-list_versions_filtered :
    (s : Store) (q : VersionQueryParams) → length (list_versions_filtered s q) ≤ q.limit
unfolding list_versions_filtered page_of
length-list_versions_filtered s q =
    omega (arith, length-take q.limit (drop q.offset (sort_stable newest_first (filtered s q))))

pub length-list_versions_filtered_eq :
    (s : Store) (q : VersionQueryParams)
    → length (list_versions_filtered s q) ≡ min q.limit (count_versions_filtered s q - q.offset)
unfolding list_versions_filtered page_of count_versions_filtered
length-list_versions_filtered_eq s q =
    let sorted = sort_stable newest_first (filtered s q) in
    length-take q.limit (drop q.offset sorted)
    ∙ ap (min q.limit) (
        length-drop q.offset sorted
        ∙ ap (λ n. n - q.offset) (length-sort_stable newest_first (filtered s q)))
