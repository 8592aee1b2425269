-- ===== src/Activity/Sort/Stable.antt =====
-- The stable sort keeps the order of equal elements.
use mathlib.Core.List.{reverse, reverse-cons, reverse-reverse, append-nil, append_assoc}
use system_of_adownload.Prelude.{
  Bool, Bool-cases, List, Ordering, [], arith, if◌then◌else◌, inl, inr, length, length-append, refl,
  suc, true, ◌++◌, ◌+◌, ◌∷◌, ◌≡◌,
}
use system_of_adownload.Activity.Sort.{sink, insert_all, sort_stable}

module _ {ℓ} {A : Type ℓ} (q : A → Bool) where
  -- The elements that pass the test.
  keep : List A → List A
  keep [] = []
  keep (x ∷ xs) = let rest = keep xs in if q x then x ∷ rest else rest

  keep-append : (xs ys : List A) → keep (xs ++ ys) ≡ keep xs ++ keep ys
  unfolding keep
  keep-append [] ys = refl
  keep-append (x ∷ xs) ys = ground (arith, keep-append xs ys)

  keep-reverse : (xs : List A) → keep (reverse xs) ≡ reverse (keep xs)
  keep-reverse [] = unfold keep in refl
  keep-reverse (x ∷ xs) =
      rw (reverse-cons, keep-append, keep-reverse xs)
        (elim (Bool-cases (q x)) [
          | inl e ↦ unfold keep in rw e (rw reverse-cons)
          | inr e ↦ unfold keep in rw e (append-nil (reverse (keep xs)))
        ])

  module _ (cmp : A → A → Ordering)
      (equal : (x y : A) → q x ≡ true → q y ≡ true → cmp x y ≡ Ordering.eq) where
    sink-keep :
        (x : A) (ys : List A) → keep (sink cmp x ys) ≡ (if q x then x ∷ keep ys else keep ys)
    unfolding sink keep
    sink-keep x [] = refl
    sink-keep x (y ∷ ys) = ground (arith, sink-keep x ys, equal x y)

    insert_all-keep : (xs ys : List A) → keep (insert_all cmp xs ys) ≡ reverse (keep xs) ++ keep ys
    unfolding insert_all
    insert_all-keep [] ys = unfold keep in refl
    insert_all-keep (x ∷ xs) ys =
        rw (insert_all-keep xs (sink cmp x ys), sink-keep x ys)
          (elim (Bool-cases (q x)) [
            | inl e ↦ unfold keep in rw e (rw (reverse-cons, append_assoc))
            | inr e ↦ unfold keep in rw e
          ])

    -- The elements of a class that compares equal stand in the order in which they were given.
    sort_stable-keep : (xs : List A) → keep (sort_stable cmp xs) ≡ keep xs
    unfolding sort_stable
    sort_stable-keep xs =
        rw (keep-reverse, insert_all-keep xs []) (unfold keep in rw (append-nil, reverse-reverse))

module _ {ℓ} {A : Type ℓ} (cmp : A → A → Ordering) where
  length-sink : (x : A) (ys : List A) → length (sink cmp x ys) ≡ suc (length ys)
  unfolding sink
  length-sink x [] = refl
  length-sink x (y ∷ ys) = ground (arith, length-sink x ys)

  length-insert_all : (xs ys : List A) → length (insert_all cmp xs ys) ≡ length xs + length ys
  unfolding insert_all
  length-insert_all [] ys = omega arith
  length-insert_all (x ∷ xs) ys =
      omega (arith, length-insert_all xs (sink cmp x ys), length-sink x ys)

  length-reverse : (xs : List A) → length (reverse xs) ≡ length xs
  length-reverse [] = refl
  length-reverse (x ∷ xs) =
      rw reverse-cons (omega (arith, length-append (reverse xs) (x ∷ []), length-reverse xs))

  pub length-sort_stable : (xs : List A) → length (sort_stable cmp xs) ≡ length xs
  unfolding sort_stable
  length-sort_stable xs =
      omega (arith, length-reverse (insert_all cmp xs []), length-insert_all xs [])
