-- ===== src/Activity/Sort/Laws.antt =====
-- The stable sort permutes its input, keeps the order of equal elements, and is ascending where the
-- comparison is a total preorder.
use mathlib.Core.List.{reverse, reverse_perm, reverse-cons, append-nil, perm_middle, Perm}
use mathlib.Core.List.Perm
use system_of_adownload.Prelude.{
  All, All-append, Bool-cases, List, Ordering, [], arith, false, inl, inr, true, ◌++◌, ◌∷◌, ◌≡◌,
}
use system_of_adownload.Activity.Sort.{is_less, sink, insert_all, sort_stable}
use system_of_adownload.Domain.Version.Compare.{flip}
use system_of_adownload.Domain.Version.Compare.Order.{Coherent}

-- `cmp(a, b) <= 0`
abbrev pub AtMost : Ordering → Type 0
AtMost Ordering.gt = ⊥
AtMost _ = Unit

module _ {ℓ} {A : Type ℓ} (cmp : A → A → Ordering) where
  sink-perm : (x : A) (ys : List A) → Perm (sink cmp x ys) (x ∷ ys)
  unfolding sink
  sink-perm x [] = Perm.refl (x ∷ [])
  sink-perm x (y ∷ ys) = elim (Bool-cases (is_less (cmp x y))) [
    | inl e ↦ rw e (Perm.trans (Perm.cons y (sink-perm x ys)) (Perm.swap x y ys))
    | inr e ↦ rw e (Perm.refl (x ∷ y ∷ ys))
  ]

  insert_all-perm : (xs ys : List A) → Perm (insert_all cmp xs ys) (xs ++ ys)
  unfolding insert_all
  insert_all-perm [] ys = Perm.refl ys
  insert_all-perm (x ∷ xs) ys =
      Perm.trans (insert_all-perm xs (sink cmp x ys))
        (Perm.trans (Perm.append_left xs (sink-perm x ys)) (perm_middle xs ys))

  pub sort_stable-perm : (xs : List A) → Perm (sort_stable cmp xs) xs
  unfolding sort_stable
  sort_stable-perm xs =
      Perm.trans (reverse_perm (insert_all cmp xs [])) (rw append-nil at (insert_all-perm xs []))

  -- Each element is at most those behind it.
  abbrev pub IsAscending : List A → Type ℓ
  IsAscending [] = Unit
  IsAscending (x ∷ xs) = All (λ y. AtMost (cmp x y)) xs × IsAscending xs

  abbrev IsDescending : List A → Type ℓ
  IsDescending [] = Unit
  IsDescending (x ∷ xs) = All (λ y. AtMost (cmp y x)) xs × IsDescending xs

  sink-All {κ} : (Q : A → Type κ) (x : A) (ys : List A) → Q x → All Q ys → All Q (sink cmp x ys)
  unfolding sink
  sink-All Q x [] q h = (q, tt)
  sink-All Q x (y ∷ ys) q h = elim (Bool-cases (is_less (cmp x y))) [
    | inl e ↦ rw e (h.0, sink-All Q x ys q h.1)
    | inr e ↦ rw e (q, h)
  ]

  -- Adding a last element that all are at most.
  snoc-IsAscending :
      (xs : List A) (x : A)
      → IsAscending xs
      → All (λ y. AtMost (cmp y x)) xs
      → IsAscending (xs ++ x ∷ [])
  snoc-IsAscending [] x h k = (tt, tt)
  snoc-IsAscending (y ∷ ys) x h k =
      (All-append _ ys (x ∷ []) h.0 (k.0, tt), snoc-IsAscending ys x h.1 k.1)

  reverse-All {κ} : (Q : A → Type κ) (xs : List A) → All Q xs → All Q (reverse xs)
  reverse-All Q [] h = tt
  reverse-All Q (x ∷ xs) h =
      rw reverse-cons (All-append Q (reverse xs) (x ∷ []) (reverse-All Q xs h.1) (h.0, tt))

  reverse-IsAscending : (xs : List A) → IsDescending xs → IsAscending (reverse xs)
  reverse-IsAscending [] h = tt
  reverse-IsAscending (x ∷ xs) h =
      rw reverse-cons
        (snoc-IsAscending (reverse xs) x (reverse-IsAscending xs h.1) (reverse-All _ xs h.0))

AtMost-trans : (p q r : Ordering) → AtMost p → AtMost q → Coherent p q r → AtMost r
AtMost-trans p q r a b c = ground arith

less-AtMost : (p : Ordering) → is_less p ≡ true → AtMost p
less-AtMost p h = ground arith

not_less-AtMost : (p q : Ordering) → q ≡ flip p → is_less p ≡ false → AtMost q
not_less-AtMost p q e h = ground arith

All-map {ℓ κ μ} :
    {A : Type ℓ} (P : A → Type κ) (Q : A → Type μ) (xs : List A)
    → ((x : A) → P x → Q x)
    → All P xs
    → All Q xs
All-map P Q [] f h = tt
All-map P Q (x ∷ xs) f h = (f x h.0, All-map P Q xs f h.1)

module _ {ℓ} {A : Type ℓ} (cmp : A → A → Ordering) (P : A → Type 0)
    (flips : (a b : A) → cmp b a ≡ flip (cmp a b))
    (coherent : (a b c : A) → P a → P b → P c → Coherent (cmp a b) (cmp b c) (cmp a c)) where
  -- What is at most `y` is at most `x`, if `y` is.
  All-trans :
      (x y : A) (zs : List A)
      → AtMost (cmp y x)
      → P x
      → P y
      → All P zs
      → All (λ z. AtMost (cmp z y)) zs
      → All (λ z. AtMost (cmp z x)) zs
  All-trans x y [] yx px py ps h = tt
  All-trans x y (z ∷ zs) yx px py ps h =
      (AtMost-trans _ _ _ h.0 yx (coherent z y x ps.0 py px), All-trans x y zs yx px py ps.1 h.1)

  sink-IsDescending :
      (x : A) (ys : List A)
      → P x
      → All P ys
      → IsDescending cmp ys
      → IsDescending cmp (sink cmp x ys)
  unfolding sink
  sink-IsDescending x [] px ps h = (tt, tt)
  sink-IsDescending x (y ∷ ys) px ps h = elim (Bool-cases (is_less (cmp x y))) [
    | inl e ↦ rw e (sink-All cmp _ x ys (less-AtMost _ e) h.0, sink-IsDescending x ys px ps.1 h.1)
    | inr e ↦ rw e (
        let yx : AtMost (cmp y x) = not_less-AtMost _ _ (flips x y) e in
        ((yx, All-trans x y ys yx px ps.0 ps.1 h.0), h))
  ]

  insert_all-IsDescending :
      (xs ys : List A)
      → All P xs
      → All P ys
      → IsDescending cmp ys
      → IsDescending cmp (insert_all cmp xs ys)
  unfolding insert_all
  insert_all-IsDescending [] ys px py h = h
  insert_all-IsDescending (x ∷ xs) ys px py h =
      insert_all-IsDescending xs (sink cmp x ys) px.1 (sink-All cmp P x ys px.0 py)
        (sink-IsDescending x ys px.0 py h)

  pub sort_stable-IsAscending : (xs : List A) → All P xs → IsAscending cmp (sort_stable cmp xs)
  unfolding sort_stable
  sort_stable-IsAscending xs px = reverse-IsAscending cmp _ (insert_all-IsDescending xs [] px tt tt)
