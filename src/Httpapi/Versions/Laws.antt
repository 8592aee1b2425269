-- ===== src/Httpapi/Versions/Laws.antt =====
-- What the handler of the version listing answers.
use mathlib.Core.Path.{subst}
use system_of_adownload.Prelude.{
  Bool-cases, Option, Option-cases, Text, ap, arith, inl, inr, length, ltb, ltb→lt, negsuc, none,
  pos, pos_part, refl, some, suc, sym, zero, ℕ, ℤ, ◌%◌, ◌-◌, ◌<◌, ◌^◌, ◌∙◌, ◌≡◌, ◌≤◌,
}
use system_of_adownload.Activity.Ordering.{int32}
use system_of_adownload.App.Versions.{GetVersionsResult, get_versions}
use system_of_adownload.App.Versions.Laws.{page_at, length-page_at, get_versions_lem}
use system_of_adownload.Db.Models.{Store}
use system_of_adownload.Db.Tx.{Result, ok, err, Faults}
use system_of_adownload.Httpapi.Versions.{
  int32_of, at_least_one, page_limit, not_negative, page_offset, request_tags, GetVersionsRequest,
  VersionsPage, Response, answered, bad_request, page_params, page_response, get_page,
  get_versions_page,
}
use system_of_adownload.Prelude.Map.{Map}

neg_pos : {n m : ℕ} → negsuc n ≡ pos m → ⊥
neg_pos h = cc

int32-range : (n : ℕ) (m : ℕ) → int32 n ≡ pos m → m < 2 ^ 31
int32-range n m h = elim (Bool-cases (ltb (n % 2 ^ 32) (2 ^ 31))) [
  | inl e ↦ subst (λ k. k < 2 ^ 31) (ap pos_part (rw e at h)) (ltb→lt (n % 2 ^ 32) (2 ^ 31) e)
  | inr e ↦ absurd (neg_pos (rw e at h))
]

some-injective : (m n : ℕ) → some m ≡ some n → m ≡ n
some-injective m n h = cc

offset_range : (k : ℕ) (x : ℤ) (n : ℕ) → int32 k ≡ x → not_negative x ≡ some n → n < 2 ^ 31
offset_range k (pos m) n e h = subst (λ j. j < 2 ^ 31) (some-injective m n h) (int32-range k m e)
offset_range k (negsuc m) n e h = absurd cc

-- The limit of a page is in 1 to 25, whatever is asked for, and the offset in an int32.
page_limit_lem : (l : Option ℤ) (n : ℕ) → page_limit l ≡ some n → (1 ≤ n) × (n ≤ 25)
unfolding page_limit
page_limit_lem none n h = ground arith
page_limit_lem (some l) n h = at_least_one_lem (int32_of l) n h
  where
    at_least_one_lem : (x : ℤ) (n : ℕ) → at_least_one x ≡ some n → (1 ≤ n) × (n ≤ 25)
    at_least_one_lem (pos zero) n h = absurd cc
    at_least_one_lem (pos (suc m)) n h = ground arith
    at_least_one_lem (negsuc m) n h = absurd cc

page_offset_lem : (o : Option ℤ) (n : ℕ) → page_offset o ≡ some n → n < 2 ^ 31
unfolding page_offset
page_offset_lem none n h = ground arith
page_offset_lem (some (pos k)) n h = offset_range k (int32 k) n refl h
page_offset_lem (some (negsuc k)) n h =
    offset_range (2 ^ 32 - suc k % 2 ^ 32) (int32 (2 ^ 32 - suc k % 2 ^ 32)) n refl h

not_answered :
    {s s' : Store} {p : VersionsPage}
    → ◌≡◌ {A = Response VersionsPage × Store} (bad_request, s) (answered p, s')
    → ⊥
not_answered h = cc

answer_or : VersionsPage → Response VersionsPage → VersionsPage
answer_or d (answered p) = p
answer_or d _ = d

page_response_lem :
    (limit offset : ℕ) (m : Result GetVersionsResult × Store) (p : VersionsPage) (s' : Store)
    → page_response limit offset m ≡ (answered p, s')
    → (r : GetVersionsResult) × (m ≡ (ok r, s'))
      × (p.limit ≡ limit)
      × (p.offset ≡ offset)
      × (p.entries ≡ r.entries)
unfolding answer_or
page_response_lem limit offset (ok r, s) p s' h =
    let e = ap (λ z. answer_or p z.0) h in
    (
      r,
      ap (λ t. (ok r, t)) (ap (λ z. z.1) h),
      sym (ap (λ z. z.limit) e),
      sym (ap (λ z. z.offset) e),
      sym (ap (λ z. z.entries) e),
    )
page_response_lem limit offset (err e, s) p s' h = absurd (ground arith)

-- A page that answers a request: its bounds, and the entries that the tables have for them.
abbrev pub PageOf : GetVersionsRequest → Store → Store → VersionsPage → Type 0
PageOf r s s' p =
    (1 ≤ p.limit)
    × (p.limit ≤ 25)
    × (p.offset < 2 ^ 31)
    × (length p.entries ≤ p.limit)
    × (tags : Map Text) × (request_tags r.tags ≡ some tags)
    × (p.entries ≡ (page_at (page_params r tags p.limit p.offset) s).entries)
    × (s' ≡ s)

module _ (fails : Faults) where
  page_lem :
      (r : GetVersionsRequest) (tags : Map Text) (limit offset : ℕ) (s s' : Store)
      (p : VersionsPage)
      → page_limit r.limit ≡ some limit
      → page_offset r.offset ≡ some offset
      → request_tags r.tags ≡ some tags
      → get_page fails r tags limit offset s ≡ (answered p, s')
      → PageOf r s s' p
  page_lem r tags limit offset s s' p e f g h =
      let (res, k, l, o, en) =
        page_response_lem limit offset (get_versions fails (page_params r tags limit offset) s) p s'
          h in
      let (x, y) = get_versions_lem fails (page_params r tags limit offset) s s' res k in
      let (lo, hi) = page_limit_lem r.limit limit e in
      let ent = en ∙ ap (λ z. z.entries) x in
      let len = length-page_at (page_params r tags limit offset) s in
      (
        omega (arith, lo, l),
        omega (arith, hi, l),
        subst (λ k. k < 2 ^ 31) (sym o) (page_offset_lem r.offset offset f),
        omega (arith, ap length ent, len, l),
        tags,
        g,
        ent
            ∙ ap (λ k. (page_at (page_params r tags k offset) s).entries) (sym l)
            ∙ ap (λ k. (page_at (page_params r tags p.limit k) s).entries) (sym o),
        y,
      )

  -- A page that is answered has a limit from 1 to 25 and an offset in an int32; it holds the versions
  -- of the tables for these, no more than the limit, and the request has changed nothing.
  pub get_versions_page_lem :
      (r : GetVersionsRequest) (s s' : Store) (p : VersionsPage)
      → get_versions_page fails r s ≡ (answered p, s')
      → PageOf r s s' p
  unfolding get_versions_page
  get_versions_page_lem r s s' p h = elim (Option-cases (page_limit r.limit)) [
    | inl e ↦ absurd (not_answered (rw (get_versions_page, e) at h))
    | inr (limit, e) ↦ elim (Option-cases (page_offset r.offset)) [
      | inl f ↦ absurd (not_answered (rw (get_versions_page, e, f) at h))
      | inr (offset, f) ↦ elim (Option-cases (request_tags r.tags)) [
        | inl g ↦ absurd (not_answered (rw (get_versions_page, e, f, g) at h))
        | inr (tags, g) ↦
            page_lem r tags limit offset s s' p e f g (rw (get_versions_page, e, f, g) at h)
      ]
    ]
  ]
