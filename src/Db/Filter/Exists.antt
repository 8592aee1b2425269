-- ===== src/Db/Filter/Exists.antt =====
-- The subquery against the EXISTS conditions.
use system_of_adownload.Prelude.{
  All, All-map, Bool, Bool-cases, List, Text, [], ap, arith, false, if◌then◌else◌, inl, inr,
  is_empty, length, length-map, map, not, refl, suc, sym, text_eq, text_eq_iff, true, ℕ, ◌&&◌, ◌==◌,
  ◌∙◌, ◌∷◌, ◌≡◌, ◌≤◌,
}
use system_of_adownload.Db.Filter.{
  VersionQueryParams, tag_matches, count_distinct, matched, in_subquery, exist_all, in_listing,
  filtered, filtered_by_exists, list_versions_filtered, count_versions_filtered,
  list_versions_with_assets,
}
use system_of_adownload.Db.Filter.Agreement.{hits, count_distinct-hits}
use system_of_adownload.Db.Models.{TagRow, Store}
use system_of_adownload.Prelude.Map.{Map}
use system_of_adownload.Prelude.Rows.{
  any, select, any_weaken, any-select, any-map, any_equal, select_equal, length-select, IsUnique,
}

-- The keys of a Go map.
abbrev pub same_key : Text × Text → Text × Text → Bool
same_key a b = text_eq a.0 b.0

-- A row with the key of a tag that matches one of the tags matches this tag.
abbrev OnKey : TagRow → Map Text → Text × Text → Type 0
OnKey t tags tag = (any (tag_matches t) tags && text_eq tag.0 t.tag_key) ≡ tag_matches t tag

other_tag :
    (t : TagRow) (a : Text × Text)
    → text_eq a.0 t.tag_key ≡ true
    → (tag : Text × Text) → tag_matches t tag ≡ true
    → same_key a tag ≡ true
unfolding tag_matches
other_tag t a e (k, v) m =
    ground (arith, text_eq_iff a.0 t.tag_key, text_eq_iff t.tag_key k, text_eq_iff a.0 k)

other_key :
    (t : TagRow) (a : Text × Text) (tags : Map Text)
    → any (same_key a) tags ≡ false
    → text_eq a.0 t.tag_key ≡ true
    → any (tag_matches t) tags ≡ false
other_key t a tags h e = any_weaken (tag_matches t) (same_key a) (other_tag t a e) tags h

on_keys_later :
    (t : TagRow) (a : Text × Text) (tags later : Map Text)
    → any (same_key a) later ≡ false
    → All (OnKey t tags) later
    → All (OnKey t (a ∷ tags)) later
unfolding any tag_matches
on_keys_later t a tags [] h hs = tt
on_keys_later t (k, v) tags ((k', v') ∷ later) h hs = (
  ground (arith, hs.0, text_eq_iff t.tag_key k, text_eq_iff k' t.tag_key, text_eq_iff k k'),
  on_keys_later t (k, v) tags later (ground arith) hs.1,
)

on_keys : (t : TagRow) (tags : Map Text) → IsUnique same_key tags → All (OnKey t tags) tags
unfolding any tag_matches
on_keys t [] u = tt
on_keys t ((k, v) ∷ tags) u = (
  ground (arith, other_key t (k, v) tags u.0, text_eq_iff t.tag_key k, text_eq_iff k t.tag_key),
  on_keys_later t (k, v) tags tags u.0 (on_keys t tags u.1),
)

All-swap {ℓ κ ι} :
    {T : Type ℓ} {A : Type κ} (P : T → A → Type ι) (xs : List A)
    → ((t : T) → All (P t) xs)
    → All (λ x. (t : T) → P t x) xs
All-swap P [] h = tt
All-swap P (x ∷ xs) h = ((λ t. (h t).0), All-swap P xs (λ t. (h t).1))

tag_key_matches :
    (t : TagRow) (tag : Text × Text) → tag_matches t tag ≡ true → text_eq t.tag_key tag.0 ≡ true
unfolding tag_matches
tag_key_matches t (k, v) m = ground arith

key_is_wanted :
    (t : TagRow) (tags : Map Text)
    → any (tag_matches t) tags ≡ true
    → any (text_eq t.tag_key) (map (λ a. a.0) tags) ≡ true
key_is_wanted t tags m =
    any-map (text_eq t.tag_key) (λ a. a.0) tags
    ∙ elim (Bool-cases (any (λ a. text_eq t.tag_key a.0) tags)) [
      | inl e ↦ e
      | inr e ↦ absurd (
          cc
            (any_weaken (tag_matches t) (λ a. text_eq t.tag_key a.0) (tag_key_matches t) tags e, m))
    ]

keys-IsUnique : (tags : Map Text) → IsUnique same_key tags → IsUnique text_eq (map (λ a. a.0) tags)
keys-IsUnique [] u = tt
keys-IsUnique (a ∷ tags) u = (any-map (text_eq a.0) (λ b. b.0) tags ∙ u.0, keys-IsUnique tags u.1)

hits-le : (ks ws : List Text) → hits ks ws ≤ length ws
unfolding hits
hits-le ks ws = length-select (λ w. any (text_eq w) ks) ws

-- With a tag wanted, the test that the group has rows adds nothing.
group_test :
    (wanted : ℕ) (group : List TagRow)
    → (not (is_empty group) && count_distinct (map (λ t. t.tag_key) group) == suc wanted)
      ≡ (count_distinct (map (λ t. t.tag_key) group) == suc wanted)
unfolding count_distinct
group_test wanted [] = ground arith
group_test wanted (t ∷ group) = refl

module _ (rows : List TagRow) (version : ℕ) where
  abbrev keys_of : Map Text → List Text
  keys_of tags = map (λ t. t.tag_key) (matched rows tags version)

  -- The rows of the version that match this tag.
  abbrev has_tag : Text × Text → Bool
  has_tag tag = any (λ t. t.artifact_version_id == version && tag_matches t tag) rows

  key_hit :
      (tags : Map Text) (tag : Text × Text)
      → ((t : TagRow) → OnKey t tags tag)
      → any (text_eq tag.0) (keys_of tags) ≡ has_tag tag
  unfolding matched
  key_hit tags tag h =
      any-map (text_eq tag.0) (λ t. t.tag_key) (matched rows tags version)
      ∙ any-select (λ t. text_eq tag.0 t.tag_key)
          (λ t. t.artifact_version_id == version && any (tag_matches t) tags) rows
      ∙ any_equal
          (λ t.
            (t.artifact_version_id == version && any (tag_matches t) tags)
            && text_eq tag.0 t.tag_key)
          (λ t. t.artifact_version_id == version && tag_matches t tag) (λ t. ground (arith, h t))
          rows

  keys_are_wanted :
      (tags : Map Text) (ts : List TagRow)
      → All
          (λ k. any (text_eq k) (map (λ a. a.0) tags) ≡ true)
          (map (λ t. t.tag_key) (matched ts tags version))
  unfolding matched select
  keys_are_wanted tags [] = tt
  keys_are_wanted tags (t ∷ ts) =
      elim (Bool-cases (t.artifact_version_id == version && any (tag_matches t) tags)) [
        | inl e ↦ rw e (key_is_wanted t tags (ground arith), keys_are_wanted tags ts)
        | inr e ↦ rw e (keys_are_wanted tags ts)
      ]

  exist_all-hits :
      (ks : List Text) (tags : Map Text)
      → All (λ tag. any (text_eq tag.0) ks ≡ has_tag tag) tags
      → exist_all rows tags version ≡ (hits ks (map (λ a. a.0) tags) == length tags)
  unfolding exist_all hits select
  exist_all-hits ks [] h = ground arith
  exist_all-hits ks (tag ∷ tags) h = ground (
    arith,
    h.0,
    exist_all-hits ks tags h.1,
    hits-le ks (map (λ a. a.0) tags),
    length-map tags (λ a. a.0),
  )

  in_subquery-exist_all :
      (tag : Text × Text) (tags : Map Text)
      → IsUnique same_key (tag ∷ tags)
      → in_subquery rows (tag ∷ tags) version ≡ exist_all rows (tag ∷ tags) version
  unfolding in_subquery
  in_subquery-exist_all tag tags u =
      group_test (length tags) (matched rows (tag ∷ tags) version)
      ∙ ap (λ n. n == suc (length tags))
          (count_distinct-hits (keys_of (tag ∷ tags)) (map (λ a. a.0) (tag ∷ tags))
            (keys-IsUnique (tag ∷ tags) u) (keys_are_wanted (tag ∷ tags) rows))
      ∙ sym (
          exist_all-hits (keys_of (tag ∷ tags)) (tag ∷ tags) (
            All-map (key_hit (tag ∷ tags)) (tag ∷ tags)
              (All-swap (λ t. OnKey t (tag ∷ tags)) (tag ∷ tags) (λ t. on_keys t (tag ∷ tags) u))))

filtered_step :
    (s : Store) (q : VersionQueryParams) (tags : Map Text)
    → q.tags ≡ tags
    → IsUnique same_key tags
    → filtered s q ≡ filtered_by_exists s q
unfolding filtered filtered_by_exists
filtered_step s q [] e u = rw e (
    select_equal (in_listing s q) (λ v. in_listing s q v && exist_all s.tags [] v.id)
      (λ v. unfold exist_all in ground arith) s.versions)
filtered_step s q (tag ∷ tags) e u = rw e (
    select_equal (λ v. in_listing s q v && in_subquery s.tags (tag ∷ tags) v.id)
      (λ v. in_listing s q v && exist_all s.tags (tag ∷ tags) v.id)
      (λ v. rw (in_subquery-exist_all s.tags v.id tag tags u) refl) s.versions)

-- Where each key stands once in the tags, as in a Go map, `ListVersionsWithAssets` shows the page
-- that `ListVersionsFiltered` returns, and its total is what `CountVersionsFiltered` counts, or 0 on
-- an empty page.
pub list_versions_with_assets_lem :
    (s : Store) (q : VersionQueryParams)
    → IsUnique same_key q.tags
    → list_versions_with_assets s q ≡ (
      list_versions_filtered s q,
      if is_empty (list_versions_filtered s q) then 0 else count_versions_filtered s q,
    )
unfolding list_versions_with_assets list_versions_filtered count_versions_filtered
list_versions_with_assets_lem s q u = rw (filtered_step s q q.tags refl u) refl
