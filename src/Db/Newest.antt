-- ===== src/Db/Newest.antt =====
-- The first row of a listing that is ordered by `sort_order DESC`.
use mathlib.Core.List.{Mem, mem-cons_self, mem-cons_of_mem, mem-cons, Mem-prop}
use mathlib.Core.List.Perm
use mathlib.Core.Logic.Or
use mathlib.Core.Path.{subst}
use system_of_adownload.Prelude.{
  All, Bool, List, [], ap, arith, false, none, not, refl, some, sym, true, ◌&&◌, ◌∙◌, ◌∷◌, ◌≡◌,
  Bool-cases, inl, inr,
}
use system_of_adownload.Activity.Sort.{sort_stable}
use system_of_adownload.Activity.Sort.Any.{any-sort_stable}
use system_of_adownload.Activity.Sort.Laws.{
  AtMost, IsAscending, sort_stable-IsAscending, sort_stable-perm,
}
use system_of_adownload.Db.Commits.{is_below, first}
use system_of_adownload.Db.Models.{ArtifactVersion}
use system_of_adownload.Db.Versions.{newest_first}
use system_of_adownload.Domain.Version.Compare.{flip}
use system_of_adownload.Domain.Version.Compare.Flip.{compare_ℤ-flip}
use system_of_adownload.Domain.Version.Compare.Order.{Coherent}
use system_of_adownload.Prelude.Rows.{any, select, any-select}

newest_first-flip : (a b : ArtifactVersion) → newest_first b a ≡ flip (newest_first a b)
newest_first-flip a b = compare_ℤ-flip b.sort_order a.sort_order

newest_first-Coherent :
    (a b c : ArtifactVersion) → Coherent (newest_first a b) (newest_first b c) (newest_first a c)
newest_first-Coherent a b c = ground arith

not_above :
    (x y : ArtifactVersion) → AtMost (newest_first x y) → is_below x.sort_order y.sort_order ≡ false
not_above x y h = ground arith

none_above :
    (v : ArtifactVersion) (rows : List ArtifactVersion)
    → All (λ y. AtMost (newest_first v y)) rows
    → any (λ y. is_below v.sort_order y.sort_order) rows ≡ false
unfolding any
none_above v [] h = refl
none_above v (y ∷ rows) h = rw (not_above v y h.0) (none_above v rows h.1)

not_below_self : (v : ArtifactVersion) → is_below v.sort_order v.sort_order ≡ false
not_below_self v = ground arith

pub first_lem {ℓ} :
    {A : Type ℓ} (xs : List A) (a : A) → first xs ≡ some a → (rest : List A) × (xs ≡ a ∷ rest)
first_lem [] a h = absurd cc
first_lem (x ∷ xs) a h = (xs, ap (λ y. y ∷ xs) (ap (λ o. elim o [ none ↦ x | some b ↦ b ]) h))

none_fails {ℓ} :
    {A : Type ℓ} (p : A → Bool) (xs : List A) → any (λ x. not (p x)) (select p xs) ≡ false
unfolding any select
none_fails p [] = refl
none_fails p (x ∷ xs) = ground (arith, none_fails p xs)

any-first {ℓ} :
    {A : Type ℓ} (p : A → Bool) (a : A) (rest : List A) → any p (a ∷ rest) ≡ false → p a ≡ false
unfolding any
any-first p a rest h = ground arith

unit_for_each {ℓ} : {A : Type ℓ} (xs : List A) → All (λ _. Unit {0}) xs
unit_for_each [] = tt
unit_for_each (x ∷ xs) = (tt, unit_for_each xs)

not-false : (b : Bool) → not b ≡ false → b ≡ true
not-false true h = refl
not-false false h = absurd cc

mem-select {ℓ} : {A : Type ℓ} (p : A → Bool) (xs : List A) {a : A} → Mem a (select p xs) → Mem a xs
unfolding select
mem-select p [] m = m
mem-select p (x ∷ xs) m = elim (Bool-cases (p x)) [
  | inl e ↦
      Or.elim Mem-prop (mem-cons.0 (rw e at m))
        (λ f. subst (λ y. Mem y (x ∷ xs)) (sym f) mem-cons_self)
        (λ k. mem-cons_of_mem x (mem-select p xs k))
  | inr e ↦ mem-cons_of_mem x (mem-select p xs (rw e at m))
]

-- It is a row of the table that passes the test, and no row that passes has a higher order.
pub newest_lem :
    (p : ArtifactVersion → Bool) (rows : List ArtifactVersion) (v : ArtifactVersion)
    (rest : List ArtifactVersion)
    → sort_stable newest_first (select p rows) ≡ v ∷ rest
    → Mem v rows
      × (p v ≡ true)
      × (any (λ w. p w && is_below v.sort_order w.sort_order) rows ≡ false)
unfolding any
newest_lem p rows v rest e =
    let ascending =
      sort_stable-IsAscending newest_first (λ _. Unit) newest_first-flip
        (λ a b c _ _ _. newest_first-Coherent a b c) (select p rows)
        (unit_for_each (select p rows)) in
    let fails = any-sort_stable (λ w. not (p w)) newest_first (select p rows) ∙ none_fails p rows in
    let is_first = any-first (λ w. not (p w)) v rest (ap (any (λ w. not (p w))) (sym e) ∙ fails) in
    (
      mem-select p rows (
          Perm.subset (sort_stable-perm newest_first (select p rows)) v
            (subst (λ l. Mem v l) (sym e) mem-cons_self)),
      not-false (p v) is_first,
      sym (any-select (λ w. is_below v.sort_order w.sort_order) p rows)
          ∙ sym (
              any-sort_stable (λ w. is_below v.sort_order w.sort_order) newest_first
                (select p rows))
          ∙ ap (any (λ w. is_below v.sort_order w.sort_order)) e
          ∙ rw (not_below_self v)
              (none_above v rest (subst (IsAscending newest_first) e ascending).0),
    )
