-- ===== src/Prelude/Rows.antt =====
-- Tables as lists of rows: what WHERE, UPDATE and EXISTS do to them.
use Prim.Native.Nat.{◌≤◌}
use mathlib.Core.Path.{◌≡◌, refl, sym, ◌∙◌}
use mathlib.Core.Bool.{Bool, true, false, ◌&&◌}
use mathlib.Core.Option.{Option, none, some}
use mathlib.Core.List.{List, [], ◌∷◌, ◌++◌, map}
use native.Mathlib.Omega.{arith}
use mathlib.Core.Logic.{◌⊎◌, inl, inr}
use system_of_adownload.Prelude.Tests.{if◌then◌else◌, Bool-cases}
use system_of_adownload.Prelude.Lists.{All, length}

module _ {ℓ} {A : Type ℓ} (p : A → Bool) where
  unfoldable pub find : List A → Option A
  find [] = none
  find (a ∷ rest) = if p a then some a else find rest

  unfoldable pub any : List A → Bool
  any [] = false
  any (a ∷ rest) = if p a then true else any rest

  unfoldable pub select : List A → List A
  select [] = []
  select (a ∷ rest) = let kept = select rest in if p a then a ∷ kept else kept

  unfoldable pub update : (A → A) → List A → List A
  update f [] = []
  update f (a ∷ rest) = (if p a then f a else a) ∷ update f rest

  pub any-append : (xs ys : List A) → any (xs ++ ys) ≡ (if any xs then true else any ys)
  unfolding any
  any-append [] ys = refl
  any-append (x ∷ xs) ys = ground (arith, any-append xs ys)

  pub find-holds : (xs : List A) (a : A) → find xs ≡ some a → p a ≡ true
  unfolding find
  find-holds [] a h = ground arith
  find-holds (x ∷ xs) a h = ground (arith, find-holds xs a)

  pub found_last :
      (xs : List A) (a : A) → p a ≡ true → any xs ≡ false → find (xs ++ a ∷ []) ≡ some a
  unfolding find any
  found_last [] a h e = rw h refl
  found_last (x ∷ xs) a h e = ground (arith, found_last xs a)

  pub find_cases :
      (xs : List A)
      → ((find xs ≡ none) × (any xs ≡ false))
        ⊎ ((a : A) × (find xs ≡ some a) × (any xs ≡ true) × (p a ≡ true))
  unfolding find any
  find_cases [] = inl (refl, refl)
  find_cases (x ∷ xs) = elim (Bool-cases (p x)) [
    | inl e ↦ inr (x, rw e refl, rw e refl, e)
    | inr e ↦ rw e (find_cases xs)
  ]

  pub find-update :
      (f : A → A) (xs : List A) (a : A)
      → p (f a) ≡ true
      → find xs ≡ some a
      → find (update f xs) ≡ some (f a)
  unfolding find update
  find-update f [] a h e = ground arith
  find-update f (x ∷ xs) a h e = ground (arith, find-update f xs a)

if_holds {ℓ κ} :
    {A : Type ℓ} (P : A → Type κ) (b : Bool) {x y : A} → P x → P y → P (if b then x else y)
if_holds P true hx hy = hx
if_holds P false hx hy = hy

module _ {ℓ} {A : Type ℓ} where
  pub any-update :
      (p q : A → Bool) (f : A → A)
      → ((a : A) → q (f a) ≡ q a)
      → (xs : List A) → any q (update p f xs) ≡ any q xs
  unfolding any update
  any-update p q f h [] = refl
  any-update p q f h (x ∷ xs) = ground (arith, h x, any-update p q f h xs)

  pub any_weaken :
      (p q : A → Bool)
      → ((a : A) → p a ≡ true → q a ≡ true)
      → (xs : List A) → any q xs ≡ false
      → any p xs ≡ false
  unfolding any
  any_weaken p q h [] e = refl
  any_weaken p q h (x ∷ xs) e = ground (arith, h x, any_weaken p q h xs)

  pub All-update {κ} :
      {P : A → Type κ} (p : A → Bool) (f : A → A)
      → ((a : A) → P a → P (f a))
      → (xs : List A) → All P xs
      → All P (update p f xs)
  unfolding update
  All-update p f h [] hs = tt
  All-update {P = P} p f h (x ∷ xs) hs =
      (if_holds P (p x) (h x hs.0) hs.0, All-update p f h xs hs.1)

  pub any-select : (p q : A → Bool) (xs : List A) → any p (select q xs) ≡ any (λ x. q x && p x) xs
  unfolding any select
  any-select p q [] = refl
  any-select p q (x ∷ xs) = ground (arith, any-select p q xs)

  pub any-map {κ} :
      {B : Type κ} (p : B → Bool) (f : A → B) (xs : List A)
      → any p (map f xs) ≡ any (λ x. p (f x)) xs
  unfolding any
  any-map p f [] = refl
  any-map p f (x ∷ xs) = ground (arith, any-map p f xs)

  pub any_equal : (p q : A → Bool) → ((x : A) → p x ≡ q x) → (xs : List A) → any p xs ≡ any q xs
  unfolding any
  any_equal p q h [] = refl
  any_equal p q h (x ∷ xs) = ground (arith, h x, any_equal p q h xs)

  pub select-append :
      (p : A → Bool) (xs ys : List A) → select p (xs ++ ys) ≡ select p xs ++ select p ys
  unfolding select
  select-append p [] ys = refl
  select-append p (x ∷ xs) ys = ground (arith, select-append p xs ys)

  pub select-select :
      (p q : A → Bool) (xs : List A) → select p (select q xs) ≡ select (λ x. q x && p x) xs
  unfolding select
  select-select p q [] = refl
  select-select p q (x ∷ xs) = ground (arith, select-select p q xs)

  pub select_equal :
      (p q : A → Bool) → ((x : A) → p x ≡ q x) → (xs : List A) → select p xs ≡ select q xs
  unfolding select
  select_equal p q h [] = refl
  select_equal p q h (x ∷ xs) = ground (arith, h x, select_equal p q h xs)

  pub length-select : (p : A → Bool) (xs : List A) → length (select p xs) ≤ length xs
  unfolding select
  length-select p [] = omega arith
  length-select p (x ∷ xs) = ground (arith, length-select p xs)

  -- No row clashes with a later one.
  module _ (clash : A → A → Bool) where
    abbrev pub IsUnique : List A → Type 0
    IsUnique [] = Unit
    IsUnique (a ∷ rest) = (any (clash a) rest ≡ false) × IsUnique rest

    pub IsUnique-append :
        (xs : List A) (a : A)
        → IsUnique xs
        → any (λ x. clash x a) xs ≡ false
        → IsUnique (xs ++ a ∷ [])
    unfolding any
    IsUnique-append [] a u h = (refl, tt)
    IsUnique-append (x ∷ xs) a u h =
        (ground (arith, any-append (clash x) xs (a ∷ [])), IsUnique-append xs a u.1 (ground arith))

    pub IsUnique-update :
        (p : A → Bool) (f : A → A)
        → ((a b : A) → clash (f a) b ≡ clash a b)
        → ((a b : A) → clash a (f b) ≡ clash a b)
        → (xs : List A) → IsUnique xs
        → IsUnique (update p f xs)
    unfolding update
    IsUnique-update p f l r [] u = tt
    IsUnique-update p f l r (x ∷ xs) u = (
      if_holds (λ z. any (clash z) (update p f xs) ≡ false) (p x)
          (any_weaken (clash (f x)) (clash x) (λ b e. sym (l x b) ∙ e) (update p f xs)
            (any-update p (clash x) f (r x) xs ∙ u.0))
          (any-update p (clash x) f (r x) xs ∙ u.0),
      IsUnique-update p f l r xs u.1,
    )
