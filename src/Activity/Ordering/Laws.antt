-- ===== src/Activity/Ordering/Laws.antt =====
-- What `ComputeVersionOrdering` returns.
use mathlib.Core.List.{Perm}
use mathlib.Core.List.Perm
use system_of_adownload.Prelude.{
  List, Option, Text, [], arith, length, length-map, map, pos, refl, suc, zero, ℕ, ℤ, ◌+◌, ◌<◌, ◌^◌,
  ◌∙◌, ◌∷◌, ◌≡◌,
}
use system_of_adownload.Activity.Ordering.{
  VersionRow, VersionWithId, int32, assign, compare_items, parse_row, ordered_items,
  compute_version_ordering,
}
use system_of_adownload.Activity.Sort.Laws.{sort_stable-perm}
use system_of_adownload.Activity.Sort.Stable.{length-sort_stable}
use system_of_adownload.Domain.Version.Schema.{Pattern, VersionSchema}
use system_of_adownload.Prelude.Map.{Map}

ids-assign :
    (i : ℕ) (items : List VersionWithId)
    → map (λ a. a.version_id) (assign i items) ≡ map (λ x. x.db_id) items
unfolding assign
ids-assign i [] = refl
ids-assign i (x ∷ items) = rw (ids-assign (suc i) items)

-- `i + 1`, `i + 2`, ..., `n` numbers in all.
abbrev pub count_from : ℕ → ℕ → List ℤ
count_from i zero = []
count_from i (suc n) = pos (i + 1) ∷ count_from (suc i) n

pub int32_small : (n : ℕ) → n < 2 ^ 31 → int32 n ≡ pos n
int32_small n h = ground arith

orders-assign :
    (i : ℕ) (items : List VersionWithId)
    → i + length items < 2 ^ 31
    → map (λ a. a.sort_order) (assign i items) ≡ count_from i (length items)
unfolding assign
orders-assign i [] h = refl
orders-assign i (x ∷ items) h =
    rw (int32_small (i + 1) (omega arith), orders-assign (suc i) items (omega arith))

module _ (compile : Text → Option Pattern) (schema : Option VersionSchema)
    (manifest : Option (Map ℤ)) where
  pub assignments-compute :
      (rows : List VersionRow)
      → (compute_version_ordering compile schema manifest rows).assignments
        ≡ assign 0 (ordered_items compile schema manifest rows)
  unfolding compute_version_ordering
  assignments-compute [] = refl
  assignments-compute (v ∷ rows) = refl

  ids-parse_row :
      (rows : List VersionRow)
      → map (λ x. x.db_id) (map (parse_row compile schema manifest) rows) ≡ map (λ v. v.id) rows
  unfolding parse_row
  ids-parse_row [] = refl
  ids-parse_row (v ∷ rows) = rw (ids-parse_row rows)

  pub items-perm :
      (rows : List VersionRow)
      → Perm
          (ordered_items compile schema manifest rows)
          (map (parse_row compile schema manifest) rows)
  unfolding ordered_items
  items-perm rows = sort_stable-perm compare_items (map (parse_row compile schema manifest) rows)

  ids-compute-perm :
      (rows : List VersionRow)
      → Perm
          (map
            (λ a. a.version_id)
            (compute_version_ordering compile schema manifest rows).assignments)
          (map (λ v. v.id) rows)
  ids-compute-perm rows =
      rw
        (
          assignments-compute rows,
          ids-assign 0 (ordered_items compile schema manifest rows),
          ← ids-parse_row rows,
        )
        (Perm.map (λ x. x.db_id) (items-perm rows))

  pub length-items :
      (rows : List VersionRow) → length (ordered_items compile schema manifest rows) ≡ length rows
  unfolding ordered_items
  length-items rows =
      length-sort_stable compare_items (map (parse_row compile schema manifest) rows)
      ∙ length-map rows (parse_row compile schema manifest)

  orders-compute :
      (rows : List VersionRow)
      → length rows < 2 ^ 31
      → map (λ a. a.sort_order) (compute_version_ordering compile schema manifest rows).assignments
        ≡ count_from 0 (length rows)
  orders-compute rows h = rw (
    assignments-compute rows,
    orders-assign 0 (ordered_items compile schema manifest rows) (omega (arith, length-items rows)),
    length-items rows,
  )

  -- Below 2^31 versions, `ComputeVersionOrdering` gives each version exactly one assignment, and the
  -- sort orders of the assignments are 1, 2, ..., N in this order.
  pub compute_version_ordering_lem :
      (rows : List VersionRow)
      → length rows < 2 ^ 31
      → Perm
          (map
            (λ a. a.version_id)
            (compute_version_ordering compile schema manifest rows).assignments)
          (map (λ v. v.id) rows)
        × (map
              (λ a. a.sort_order)
              (compute_version_ordering compile schema manifest rows).assignments
            ≡ count_from 0 (length rows))
  compute_version_ordering_lem rows h = (ids-compute-perm rows, orders-compute rows h)
