-- ===== src/Db/Filter/Newest.antt =====
-- The one version of a page of size 1.
use mathlib.Core.List.{Mem}
use system_of_adownload.Prelude.{
  Bool, Bool-cases, List, [], false, inl, inr, is_empty, refl, suc, take, true, zero, ℕ, ◌&&◌, ◌||◌,
  ◌∙◌, ◌∷◌, ◌≡◌, ap, sym,
}
use system_of_adownload.Activity.Sort.{sort_stable}
use system_of_adownload.Db.Commits.{is_below}
use system_of_adownload.Db.Filter.{
  VersionQueryParams, in_listing, in_subquery, filtered, page_of, list_versions_filtered,
}
use system_of_adownload.Db.Models.{ArtifactVersion, Store}
use system_of_adownload.Db.Newest.{newest_lem}
use system_of_adownload.Db.Versions.{newest_first}
use system_of_adownload.Prelude.Rows.{any, select, select_equal}

-- The condition of the listing as one test.
unfoldable pub is_listed : Store → VersionQueryParams → ArtifactVersion → Bool
unfolding in_subquery
is_listed s q v = in_listing s q v && (is_empty q.tags || in_subquery s.tags q.tags v.id)

and_true : (b : Bool) → b ≡ (b && true)
and_true true = refl
and_true false = refl

filtered_lem :
    (s : Store) (q : VersionQueryParams) → filtered s q ≡ select (is_listed s q) s.versions
unfolding filtered is_listed
filtered_lem s q = elim (Bool-cases (is_empty q.tags)) [
  | inl e ↦
      rw e (select_equal _ (is_listed s q) (λ v. rw e (and_true (in_listing s q v))) s.versions)
  | inr e ↦ rw e (select_equal _ (is_listed s q) (λ v. rw e refl) s.versions)
]

take_head {ℓ} :
    {A : Type ℓ} (n : ℕ) (xs : List A) (a : A) (rest : List A)
    → take n xs ≡ a ∷ rest
    → (more : List A) × (xs ≡ a ∷ more)
take_head zero xs a rest h = absurd cc
take_head (suc n) [] a rest h = absurd cc
take_head (suc n) (x ∷ xs) a rest h =
    (xs, ap (λ y. y ∷ xs) (ap (λ l. elim l [ [] ↦ x | y ∷ _ ↦ y ]) h))

-- The first version of a page at offset 0 is one of the table that the listing has, and none that it
-- has is above it.
pub list_versions_filtered_newest :
    (s : Store) (q : VersionQueryParams) (v : ArtifactVersion) (rest : List ArtifactVersion)
    → list_versions_filtered s (record q { offset = 0 }) ≡ v ∷ rest
    → Mem v s.versions
      × (is_listed s q v ≡ true)
      × (any (λ w. is_listed s q w && is_below v.sort_order w.sort_order) s.versions ≡ false)
unfolding list_versions_filtered page_of
list_versions_filtered_newest s q v rest h =
    let (more, e) = take_head q.limit (sort_stable newest_first (filtered s q)) v rest h in
    newest_lem (is_listed s q) s.versions v more
      (ap (sort_stable newest_first) (sym (filtered_lem s q)) ∙ e)
