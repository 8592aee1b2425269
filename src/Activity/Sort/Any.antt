-- ===== src/Activity/Sort/Any.antt =====
-- The stable sort keeps what is in the list.
use mathlib.Core.List.{reverse, reverse-cons}
use system_of_adownload.Prelude.{
  Bool, List, Ordering, [], arith, if◌then◌else◌, refl, true, ◌∷◌, ◌≡◌,
}
use system_of_adownload.Activity.Sort.{sink, insert_all, sort_stable}
use system_of_adownload.Prelude.Rows.{any, any-append}

module _ {ℓ} {A : Type ℓ} (p : A → Bool) where
  any-reverse : (xs : List A) → any p (reverse xs) ≡ any p xs
  unfolding any
  any-reverse [] = refl
  any-reverse (x ∷ xs) =
      rw (reverse-cons x xs) (ground (arith, any-append p (reverse xs) (x ∷ []), any-reverse xs))

  module _ (cmp : A → A → Ordering) where
    any-sink : (x : A) (ys : List A) → any p (sink cmp x ys) ≡ any p (x ∷ ys)
    unfolding any sink
    any-sink x [] = refl
    any-sink x (y ∷ ys) = ground (arith, any-sink x ys)

    any-insert_all :
        (xs ys : List A) → any p (insert_all cmp xs ys) ≡ (if any p xs then true else any p ys)
    unfolding any insert_all
    any-insert_all [] ys = refl
    any-insert_all (x ∷ xs) ys = ground (arith, any-insert_all xs (sink cmp x ys), any-sink x ys)

    pub any-sort_stable : (xs : List A) → any p (sort_stable cmp xs) ≡ any p xs
    unfolding sort_stable any
    any-sort_stable xs = ground (arith, any-reverse (insert_all cmp xs []), any-insert_all xs [])
