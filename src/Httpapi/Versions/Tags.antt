-- ===== src/Httpapi/Versions/Tags.antt =====
-- What `parseTags` gives.
use mathlib.Core.Path.{subst}
use system_of_adownload.Prelude.{
  All, Bool, Bool-cases, List, List-cases, Option, Option-cases, Text, [], ap, arith, before, drop,
  false, inl, inr, is_empty, is_space, length, none, not, refl, some, split, suc, sym, text_eq,
  trim_space, trim_space_left, trim_space_right, true, zero, ℕ, ◌&&◌, ◌==◌, ◌||◌, ◌∙◌, ◌∷◌, ◌≡◌,
  ◌⊎◌,
}
use system_of_adownload.Httpapi.Versions.{tag_pair, parse_pairs, parse_tags}
use system_of_adownload.Prelude.Map.{Map, insert}
use system_of_adownload.Prelude.Rows.{any}

abbrev visible : Text → Bool
visible t = any (λ c. not (is_space c)) t

visible-trim_space_left : (t : Text) → visible (trim_space_left t) ≡ visible t
unfolding trim_space_left any
visible-trim_space_left [] = refl
visible-trim_space_left (c ∷ t) = elim (Bool-cases (is_space c)) [
  | inl e ↦ rw e (visible-trim_space_left t)
  | inr e ↦ ground (arith, e)
]

nothing : (t : Text) → is_empty t ≡ true → visible t ≡ false
unfolding any
nothing [] h = refl
nothing (c ∷ t) h = absurd cc

visible-trim_space_right : (t : Text) → visible (trim_space_right t) ≡ visible t
unfolding trim_space_right any
visible-trim_space_right [] = refl
visible-trim_space_right (c ∷ t) =
    ground (arith, visible-trim_space_right t, nothing (trim_space_right t))

not_empty : (t : Text) → visible t ≡ true → is_empty t ≡ false
unfolding any
not_empty [] h = absurd cc
not_empty (c ∷ t) h = refl

trim_space-not_empty : (t : Text) → visible t ≡ true → is_empty (trim_space t) ≡ false
unfolding trim_space
trim_space-not_empty t h =
    not_empty (trim_space t)
      (visible-trim_space_right (trim_space_left t) ∙ visible-trim_space_left t ∙ h)

trim_space_right_cases :
    (c : ℕ) (t : Text)
    → (trim_space_right (c ∷ t) ≡ [])
      ⊎ ((trim_space_right (c ∷ t) ≡ c ∷ trim_space_right t)
          × ((is_space c ≡ false) ⊎ (is_empty (trim_space_right t) ≡ false)))
unfolding trim_space_right
trim_space_right_cases c t = elim (Bool-cases (is_empty (trim_space_right t) && is_space c)) [
  | inl e ↦ inl (rw e refl)
  | inr e ↦ inr (rw e refl, some_false (is_empty (trim_space_right t)) (is_space c) e)
]
  where
    some_false : (a b : Bool) → (a && b) ≡ false → (b ≡ false) ⊎ (a ≡ false)
    some_false true b h = inl h
    some_false false b h = inr refl

nil_cons : {c : ℕ} {t : Text} → ◌≡◌ {A = Text} [] (c ∷ t) → ⊥
nil_cons h = cc

visible_cons :
    (c : ℕ) (t : Text) → (is_space c ≡ false) ⊎ (visible t ≡ true) → visible (c ∷ t) ≡ true
unfolding any
visible_cons c t h = ground (arith, h)

drop_nothing : (n : ℕ) → is_empty (drop {A = ℕ} n []) ≡ false → ⊥
drop_nothing zero h = cc
drop_nothing (suc n) h = cc

cons-injective : (c d : ℕ) (t u : Text) → ◌≡◌ {A = Text} (c ∷ t) (d ∷ u) → (c ≡ d) × (t ≡ u)
cons-injective c d t u h =
    (ap (λ z. elim z [ [] ↦ c | x ∷ xs ↦ x ]) h, ap (λ z. elim z [ [] ↦ t | x ∷ xs ↦ xs ]) h)

-- What is left of a trimmed text after some characters is not blank.
drop-trim_space_right :
    (n : ℕ) (t u : Text)
    → trim_space_right t ≡ u
    → is_empty (drop n u) ≡ false
    → visible (drop n u) ≡ true
unfolding trim_space_right
drop-trim_space_right n t [] e h = absurd (drop_nothing n h)
drop-trim_space_right n [] (d ∷ u) e h = absurd cc
drop-trim_space_right zero (c ∷ t) (d ∷ u) e h = elim (trim_space_right_cases c t) [
  | inl f ↦ absurd (nil_cons (sym f ∙ e))
  | inr (f, inl g) ↦
      let (x, y) = cons-injective c d (trim_space_right t) u (sym f ∙ e) in
      visible_cons d u (inl (ap is_space (sym x) ∙ g))
  | inr (f, inr g) ↦
      let (x, y) = cons-injective c d (trim_space_right t) u (sym f ∙ e) in
      visible_cons d u (inr (drop-trim_space_right zero t u y (ap is_empty (sym y) ∙ g)))
]
drop-trim_space_right (suc n) (c ∷ t) (d ∷ u) e h = elim (trim_space_right_cases c t) [
  | inl f ↦ absurd (nil_cons (sym f ∙ e))
  | inr (f, g) ↦
      let (x, y) = cons-injective c d (trim_space_right t) u (sym f ∙ e) in
      drop-trim_space_right n t u y h
]

-- The first character of a trimmed text is not blank.
trim_space_left-visible :
    (t : Text) (c : ℕ) (u : Text) → trim_space_left t ≡ c ∷ u → is_space c ≡ false
unfolding trim_space_left
trim_space_left-visible [] c u h = absurd cc
trim_space_left-visible (d ∷ t) c u h = elim (Bool-cases (is_space d)) [
  | inl e ↦ trim_space_left-visible t c u (rw e at h)
  | inr e ↦ ap is_space (sym (cons-injective d c t u (rw e at h)).0) ∙ e
]

trim_space-visible : (t : Text) (c : ℕ) (u : Text) → trim_space t ≡ c ∷ u → is_space c ≡ false
unfolding trim_space
trim_space-visible t c u h = elim (List-cases (trim_space_left t)) [
  | inl e ↦ absurd (nil_cons (sym (ap trim_space_right e) ∙ h))
  | inr (d, s, e) ↦ elim (trim_space_right_cases d s) [
    | inl f ↦ absurd (nil_cons (sym (ap trim_space_right e ∙ f) ∙ h))
    | inr (f, g) ↦
        ap is_space
          (sym (cons-injective d c (trim_space_right s) u (sym (ap trim_space_right e ∙ f) ∙ h)).0)
        ∙ trim_space_left-visible t d s e
  ]
]

empty_key : (d : ℕ) (k : Text) → ◌≡◌ {A = Option Text} (some []) (some (d ∷ k)) → ⊥
empty_key d k h = cc

no_key {ℓ} : {A : Type ℓ} (a : A) → ◌≡◌ {A = Option A} none (some a) → ⊥
no_key a h = cc

same_key : (c d : ℕ) (t k : Text) → ◌≡◌ {A = Option Text} (some (c ∷ t)) (some (d ∷ k)) → d ≡ c
same_key c d t k h = ap (λ o. elim o [ none ↦ c | some x ↦ elim x [ [] ↦ c | y ∷ ys ↦ y ] ]) (sym h)

before-first : (b c : ℕ) (s k : Text) (d : ℕ) → before b (c ∷ s) ≡ some (d ∷ k) → d ≡ c
unfolding before
before-first b c s k d h = elim (Bool-cases (c == b)) [
  | inl e ↦ absurd (empty_key d k (rw (before, e) at h))
  | inr e ↦ elim (Option-cases (before b s)) [
    | inl f ↦ absurd (no_key (d ∷ k) (rw (before, e, f) at h))
    | inr (t, f) ↦ same_key c d t k (rw (before, e, f) at h)
  ]
]

before_nothing : (b : ℕ) → none ≡ before b []
unfolding before
before_nothing b = refl

key_visible :
    (b : ℕ) (p key : Text)
    → before b (trim_space p) ≡ some key
    → is_empty key ≡ false
    → visible key ≡ true
key_visible b p [] e h = absurd cc
key_visible b p (c ∷ k) e h = elim (List-cases (trim_space p)) [
  | inl f ↦ absurd (no_key (c ∷ k) (before_nothing b ∙ sym (ap (before b) f) ∙ e))
  | inr (d, s, f) ↦ visible_cons c k (
      inl (
        ap is_space (before-first b d s k c (sym (ap (before b) f) ∙ e))
        ∙ trim_space-visible p d s f))
]

value_visible :
    (n : ℕ) (p : Text)
    → is_empty (drop n (trim_space p)) ≡ false
    → visible (drop n (trim_space p)) ≡ true
unfolding trim_space
value_visible n p h = drop-trim_space_right n (trim_space_left p) (trim_space p) refl h

abbrev pub IsFull : Text × Text → Type 0
IsFull (k, v) = (is_empty k ≡ false) × (is_empty v ≡ false)

both_false : (a b : Bool) → (a || b) ≡ false → (a ≡ false) × (b ≡ false)
both_false true b h = absurd cc
both_false false b h = (refl, h)

pair_injective :
    (a b k v : Text)
    → ◌≡◌ {A = Option (Text × Text)} (some (a, b)) (some (k, v))
    → (k ≡ a) × (v ≡ b)
pair_injective a b k v h = (
  ap (λ o. elim o [ none ↦ a | some x ↦ x.0 ]) (sym h),
  ap (λ o. elim o [ none ↦ b | some x ↦ x.1 ]) (sym h),
)

tag_pair-IsFull : (p k v : Text) → tag_pair (trim_space p) ≡ some (k, v) → IsFull (k, v)
unfolding tag_pair
tag_pair-IsFull p k v h = elim (Option-cases (before b':' (trim_space p))) [
  | inl e ↦ absurd (no_key (k, v) (rw (tag_pair, e) at h))
  | inr (key, e) ↦
      elim (Bool-cases (is_empty key || is_empty (drop (suc (length key)) (trim_space p)))) [
        | inl f ↦ absurd (no_key (k, v) (rw (tag_pair, e, f) at h))
        | inr f ↦
            let (x, y) =
              pair_injective (trim_space key) (trim_space (drop (suc (length key)) (trim_space p)))
                k v (rw (tag_pair, e, f) at h) in
            let (g, g') =
              both_false (is_empty key) (is_empty (drop (suc (length key)) (trim_space p))) f in
            (
              ap is_empty x ∙ trim_space-not_empty key (key_visible b':' p key e g),
              ap is_empty y
                  ∙ trim_space-not_empty (drop (suc (length key)) (trim_space p))
                      (value_visible (suc (length key)) p g'),
            )
      ]
]

insert-IsFull :
    (k v : Text) (m : Map Text) → IsFull (k, v) → All IsFull m → All IsFull (insert k v m)
unfolding insert
insert-IsFull k v [] h hs = (h, tt)
insert-IsFull k v ((j, w) ∷ m) h hs = elim (Bool-cases (text_eq j k)) [
  | inl e ↦ rw e (h, hs.1)
  | inr e ↦ rw e (hs.0, insert-IsFull k v m h hs.1)
]

some_injective : (m n : Map Text) → some m ≡ some n → m ≡ n
some_injective m n h = ap (λ o. elim o [ none ↦ m | some x ↦ x ]) h

parse_pairs-IsFull :
    (pairs : List Text) (m tags : Map Text)
    → All IsFull m
    → parse_pairs pairs m ≡ some tags
    → All IsFull tags
unfolding parse_pairs
parse_pairs-IsFull [] m tags hs h = subst (All IsFull) (some_injective m tags h) hs
parse_pairs-IsFull (p ∷ pairs) m tags hs h = elim (Bool-cases (is_empty (trim_space p))) [
  | inl e ↦ parse_pairs-IsFull pairs m tags hs (rw (parse_pairs, e) at h)
  | inr e ↦ elim (Option-cases (tag_pair (trim_space p))) [
    | inl f ↦ absurd (no_key tags (rw (parse_pairs, e, f) at h))
    | inr ((k, v), f) ↦
        parse_pairs-IsFull pairs (insert k v m) tags
          (insert-IsFull k v m (tag_pair-IsFull p k v f) hs) (rw (parse_pairs, e, f) at h)
  ]
]

-- The tags of a request that `parseTags` accepts are not none, and no key and no value is empty,
-- whatever blanks, empty pairs and repeated keys the text has.
pub parse_tags-IsFull :
    (raw : Text) (tags : Map Text)
    → parse_tags raw ≡ some tags
    → (is_empty tags ≡ false) × All IsFull tags
unfolding parse_tags
parse_tags-IsFull raw tags h = elim (Option-cases (parse_pairs (split b',' raw) [])) [
  | inl e ↦ absurd (no_key tags (rw (parse_tags, e) at h))
  | inr (m, e) ↦ elim (Bool-cases (is_empty m)) [
    | inl f ↦ absurd (no_key tags (rw (parse_tags, e, f) at h))
    | inr f ↦
        let x = some_injective m tags (rw (parse_tags, e, f) at h) in
        (
          ap is_empty (sym x) ∙ f,
          subst (All IsFull) x (parse_pairs-IsFull (split b',' raw) [] m tt e),
        )
  ]
]
