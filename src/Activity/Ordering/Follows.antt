-- ===== src/Activity/Ordering/Follows.antt =====
-- The sort orders of `ComputeVersionOrdering` follow `CompareVersions`.
use mathlib.Core.HLevel.{⊥_prop}
use mathlib.Core.List.{Mem, mem-cons, mem-cons_self, mem-cons_of_mem, not-mem-nil}
use mathlib.Core.List.Perm
use mathlib.Core.Logic.Or
use mathlib.Core.Path.{subst}
use system_of_adownload.Prelude.{
  ==_iff, All, Bool, List, Option, Ordering, Text, [], ap, arith, false, length, map, pos, suc, sym,
  true, ℕ, ℤ, ◌+◌, ◌<◌, ◌==◌, ◌^◌, ◌∙◌, ◌∷◌, ◌≡◌, ◌≢◌,
}
use system_of_adownload.Activity.Ordering.{
  VersionRow, VersionWithId, VersionSortAssignment, assign, compare_items, parse_row, ordered_items,
  compute_version_ordering,
}
use system_of_adownload.Activity.Ordering.Ascending.{RowHasForm, ordered_items-IsAscending}
use system_of_adownload.Activity.Ordering.Laws.{
  assignments-compute, int32_small, items-perm, length-items,
}
use system_of_adownload.Activity.Sort.Laws.{AtMost, IsAscending}
use system_of_adownload.Domain.Version.{ParseAs}
use system_of_adownload.Domain.Version.Schema.{Pattern, VersionSchema}
use system_of_adownload.Prelude.Int.{compare_ℤ}
use system_of_adownload.Prelude.Map.{Map}
use system_of_adownload.Prelude.Rows.{any, IsUnique}

AtMost-prop : (o : Ordering) → IsProp (AtMost o)
AtMost-prop Ordering.lt = hlevel
AtMost-prop Ordering.eq = hlevel
AtMost-prop Ordering.gt = hlevel

not_above : (o : Ordering) → AtMost o → o ≢ Ordering.gt
not_above Ordering.lt h e = cc
not_above Ordering.eq h e = cc
not_above Ordering.gt h e = absurd h

mem-All {ℓ κ} :
    {A : Type ℓ} (P : A → Type κ)
    → ((x : A) → IsProp (P x))
    → {a : A} (xs : List A) → All P xs
    → Mem a xs
    → P a
mem-All P q [] h m = absurd (not-mem-nil m)
mem-All P q {a} (x ∷ xs) h m =
    Or.elim (q a) (mem-cons.0 m) (λ e. subst P (sym e) h.0) (mem-All P q xs h.1)

next_above :
    (z : ℤ) (i : ℕ) → compare_ℤ z (pos i) ≡ Ordering.lt → compare_ℤ z (pos (suc i)) ≡ Ordering.lt
next_above z i h = ground arith

-- The sort orders of the assignments from index `i` on are above `i`.
above :
    (i : ℕ) (items : List VersionWithId) {a : VersionSortAssignment}
    → i + length items < 2 ^ 31
    → Mem a (assign i items)
    → compare_ℤ a.sort_order (pos (suc i)) ≡ Ordering.lt
    → ⊥
unfolding assign
above i [] l m h = absurd (not-mem-nil m)
above i (x ∷ items) {a} l m h =
    Or.elim ⊥_prop (mem-cons.0 m)
      (λ e.
        let f = ap (λ a. a.sort_order) e ∙ int32_small (i + 1) (omega arith) in
        absurd (ground arith))
      (λ m. above (suc i) items (omega arith) m (next_above a.sort_order (suc i) h))

module _ {C : Type 0} (prop : IsProp C) where
  -- Each assignment is that of an item.
  owner :
      (i : ℕ) (items : List VersionWithId) {a : VersionSortAssignment}
      → Mem a (assign i items)
      → ((x : VersionWithId) → Mem x items → a.version_id ≡ x.db_id → C)
      → C
  unfolding assign
  owner i [] m k = absurd (not-mem-nil m)
  owner i (x ∷ items) m k =
      Or.elim prop (mem-cons.0 m) (λ e. k x mem-cons_self (ap (λ a. a.version_id) e))
        (λ m. owner (suc i) items m (λ y n e. k y (mem-cons_of_mem x n) e))

  -- Of two assignments, that with the lower sort order is that of an item which stands before.
  owners :
      (i : ℕ) (items : List VersionWithId) {a b : VersionSortAssignment}
      → i + length items < 2 ^ 31
      → IsAscending compare_items items
      → Mem a (assign i items)
      → Mem b (assign i items)
      → compare_ℤ a.sort_order b.sort_order ≡ Ordering.lt
      → ((x y : VersionWithId)
          → Mem x items
          → Mem y items
          → a.version_id ≡ x.db_id
          → b.version_id ≡ y.db_id
          → AtMost (compare_items x y)
          → C)
      → C
  unfolding assign
  owners i [] l s m n h k = absurd (not-mem-nil m)
  owners i (x ∷ items) {a} {b} l s m n h k =
      let first = int32_small (i + 1) (omega arith) in
      Or.elim prop (mem-cons.0 n)
        (λ e.
          let f = ap (λ b. b.sort_order) e ∙ first in
          absurd (above i (x ∷ items) l m (ground (arith, h, f))))
        (λ n.
          Or.elim prop (mem-cons.0 m)
            (λ e. owner (suc i) items n (λ y o f.
              k x y mem-cons_self (mem-cons_of_mem x o) (ap (λ a. a.version_id) e) f (
                mem-All (λ y. AtMost (compare_items x y)) (λ y. AtMost-prop (compare_items x y))
                  items s.0 o)))
            (λ m.
              owners (suc i) items (omega arith) s.1 m n h
                (λ x' y o p e f. k x' y (mem-cons_of_mem x o) (mem-cons_of_mem x p) e f)))

  not_any :
      (p : VersionRow → Bool) (rows : List VersionRow) {w : VersionRow}
      → any p rows ≡ false
      → Mem w rows
      → p w ≡ true
      → C
  unfolding any
  not_any p [] h m e = absurd (not-mem-nil m)
  not_any p (v ∷ rows) h m e =
      Or.elim prop (mem-cons.0 m) (λ f. absurd (ground (arith, ap p f)))
        (λ m. not_any p rows (ground (arith, h)) m e)

  -- Rows with the same id are the same row.
  same_row :
      (rows : List VersionRow) {v w : VersionRow}
      → IsUnique (λ v w. v.id == w.id) rows
      → Mem v rows
      → Mem w rows
      → v.id ≡ w.id
      → (v ≡ w → C)
      → C
  same_row [] u m n h k = absurd (not-mem-nil m)
  same_row (x ∷ rows) {v} {w} u m n h k =
      Or.elim prop (mem-cons.0 m)
        (λ e.
          Or.elim prop (mem-cons.0 n) (λ f. k (e ∙ sym f))
            (λ n.
              not_any (λ w. x.id == w.id) rows u.0 n
                ((==_iff x.id w.id).1 (sym (ap (λ v. v.id) e) ∙ h))))
        (λ m.
          Or.elim prop (mem-cons.0 n)
            (λ f.
              not_any (λ w. x.id == w.id) rows u.0 m
                ((==_iff x.id v.id).1 (sym (ap (λ v. v.id) f) ∙ sym h)))
            (λ n. same_row rows u.1 m n h k))

module _ (compile : Text → Option Pattern) (schema : Option VersionSchema)
    (manifest : Option (Map ℤ)) where
  -- What an item is made of.
  row_of :
      {C : Type 0} (prop : IsProp C) (rows : List VersionRow) {x : VersionWithId}
      → Mem x (map (parse_row compile schema manifest) rows)
      → ((v : VersionRow) → Mem v rows → x ≡ parse_row compile schema manifest v → C)
      → C
  row_of prop [] m k = absurd (not-mem-nil m)
  row_of prop (v ∷ rows) m k =
      Or.elim prop (mem-cons.0 m) (λ e. k v mem-cons_self e)
        (λ m. row_of prop rows m (λ w n e. k w (mem-cons_of_mem v n) e))

  -- An item with the id of a row is made of that row.
  item_of :
      {C : Type 0} (prop : IsProp C) (rows : List VersionRow) {x : VersionWithId} {v : VersionRow}
      → IsUnique (λ v w. v.id == w.id) rows
      → Mem v rows
      → Mem x (ordered_items compile schema manifest rows)
      → v.id ≡ x.db_id
      → (x ≡ parse_row compile schema manifest v → C)
      → C
  unfolding parse_row
  item_of prop rows {x} {v} u m n h k =
      row_of prop rows ((Perm.mem_iff (items-perm compile schema manifest rows)).0 n) (λ w o e.
        same_row prop rows u m o (h ∙ ap (λ x. x.db_id) e)
          (λ f. k (e ∙ ap (parse_row compile schema manifest) (sym f))))

  -- Below 2^31 versions with different ids, all of which are parsed into the same kinds of segments:
  -- where `ComputeVersionOrdering` gives one version a lower sort order than another, `CompareVersions`
  -- does not put the first, with its manifest position, above the other.
  pub compute_version_ordering-follows :
      (ps : List ParseAs) (rows : List VersionRow) (a b : VersionSortAssignment) (v w : VersionRow)
      → All (RowHasForm compile schema manifest ps) rows
      → IsUnique (λ v w. v.id == w.id) rows
      → length rows < 2 ^ 31
      → Mem a (compute_version_ordering compile schema manifest rows).assignments
      → Mem b (compute_version_ordering compile schema manifest rows).assignments
      → Mem v rows
      → Mem w rows
      → a.version_id ≡ v.id
      → b.version_id ≡ w.id
      → compare_ℤ a.sort_order b.sort_order ≡ Ordering.lt
      → compare_items (parse_row compile schema manifest v) (parse_row compile schema manifest w)
        ≢ Ordering.gt
  compute_version_ordering-follows ps rows a b v w f u l ma mb mv mw ea eb h =
      let at_most : AtMost (
          compare_items (parse_row compile schema manifest v)
            (parse_row compile schema manifest w)) =
        (let prop = AtMost-prop (
            compare_items (parse_row compile schema manifest v)
              (parse_row compile schema manifest w)) in
          owners prop 0 (ordered_items compile schema manifest rows)
            (omega (arith, length-items compile schema manifest rows))
            (ordered_items-IsAscending compile schema manifest ps rows f)
            (subst (Mem a) (assignments-compute compile schema manifest rows) ma)
            (subst (Mem b) (assignments-compute compile schema manifest rows) mb) h
            (λ x y mx my ex ey c. item_of prop rows u mv mx (sym ea ∙ ex) (λ ix.
              item_of prop rows u mw my (sym eb ∙ ey) (λ iy.
                subst (λ x. AtMost (compare_items x (parse_row compile schema manifest w))) ix
                  (subst (λ y. AtMost (compare_items x y)) iy c))))) in
      not_above _ at_most
