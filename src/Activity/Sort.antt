-- ===== src/Activity/Sort.antt =====
-- `slices.SortStableFunc`. The library sorts blocks of twenty by insertion and merges them; this is
-- the insertion, which every stable sort agrees with where the comparison is a total preorder. Each
-- element moves left past those that are strictly greater.
pub mod Laws
pub mod Stable
pub mod Any
use mathlib.Core.List.{reverse}
use system_of_adownload.Prelude.{Bool, List, Ordering, [], false, if◌then◌else◌, true, ◌∷◌}

-- `cmp(a, b) < 0`
abbrev pub is_less : Ordering → Bool
is_less Ordering.lt = true
is_less _ = false

module _ {ℓ} {A : Type ℓ} (cmp : A → A → Ordering) where
  -- Moves `x` into the sorted part, which is held from its last element to its first.
  pub sink : A → List A → List A
  sink x [] = x ∷ []
  sink x (y ∷ ys) = let moved = sink x ys in if is_less (cmp x y) then y ∷ moved else x ∷ y ∷ ys

  pub insert_all : List A → List A → List A
  unfolding sink
  insert_all [] sorted = sorted
  insert_all (x ∷ xs) sorted = insert_all xs (sink x sorted)

  unfoldable pub sort_stable : List A → List A
  unfolding insert_all
  sort_stable xs = reverse (insert_all xs [])
