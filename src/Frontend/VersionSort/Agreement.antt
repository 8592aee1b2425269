-- ===== src/Frontend/VersionSort/Agreement.antt =====
-- `IsPreRelease` and the version parser of the domain agree.
use mathlib.Core.Path.{subst}
use mathlib.Core.List.{append-nil}
use system_of_adownload.Prelude.{
  All, Bool, Option, Option-cases, Text, [], arith, before, codes, contains, false, inl, inr, none,
  not, refl, some, span, true, ℕ, ◌&&◌, ◌++◌, ◌==◌, ◌||◌, ◌∙◌, ◌∷◌, ◌≡◌, ◌≢◌,
}
use system_of_adownload.Activity.Ordering.{is_release}
use system_of_adownload.Domain.Version.{VersionQualifier, Fields}
use system_of_adownload.Domain.Version.Parse.{
  ◌>>=◌, expect, optional, many1, is_dotted, expect_all, last_number, match_weekly, match_snapshot,
  match_keyword, match_qualifier, match_pure, fallback, simple_fields, parse_simple_fields,
}
use system_of_adownload.Frontend.VersionSort.{weekly_text, is_pre_release}

abbrev is_some {ℓ} : {A : Type ℓ} → Option A → Bool
is_some none = false
is_some (some a) = true

-- The two regular expressions for weekly snapshots match the same texts.

weekly_text-match_weekly : (raw : Text) → weekly_text raw ≡ is_some (match_weekly raw)
unfolding weekly_text match_weekly
weekly_text-match_weekly raw = ground arith

contains-before : (s : Text) → contains s (codes "-") ≡ is_some (before b'-' s)
unfolding contains before
contains-before [] = refl
contains-before (c ∷ s) = ground (arith, contains-before s)

before-append :
    (a r : Text) → is_some (before b'-' r) ≡ true → is_some (before b'-' (a ++ r)) ≡ true
unfolding before
before-append [] r h = h
before-append (c ∷ a) r h = ground (arith, before-append a r h)

span-append : (p : ℕ → Bool) (s : Text) → (span p s).0 ++ (span p s).1 ≡ s
unfolding span
span-append p [] = refl
span-append p (c ∷ s) = ground (arith, span-append p s)

span-All : (p : ℕ → Bool) (s : Text) → All (λ c. p c ≡ true) (span p s).0
unfolding span
span-All p [] = tt
span-All p (c ∷ s) = ground (arith, span-All p s)

dotted-before : (s : Text) → All (λ c. is_dotted c ≡ true) s → before b'-' s ≡ none
unfolding before
dotted-before [] h = refl
dotted-before (c ∷ s) h = ground (arith, dotted-before s h.1)

bind-eq-some {ℓ κ} :
    {A : Type ℓ} {B : Type κ} (o : Option A) (f : A → Option B) {b : B}
    → o >>= f ≡ some b
    → (a : A) × (o ≡ some a) × (f a ≡ some b)
bind-eq-some none f h = cc
bind-eq-some (some a) f h = (a, refl, h)

many1-append : (p : ℕ → Bool) (s a r : Text) → many1 p s ≡ some (a, r) → s ≡ a ++ r
unfolding many1
many1-append p s a r h = ground (arith, span-append p s)

many1-All : (p : ℕ → Bool) (s a r : Text) → many1 p s ≡ some (a, r) → All (λ c. p c ≡ true) a
unfolding many1
many1-All p s a r h =
    let first : (span p s).0 ≡ a = ground arith in
    subst (All (λ c. p c ≡ true)) first (span-All p s)

many1-before :
    (p : ℕ → Bool) (s a r : Text)
    → many1 p s ≡ some (a, r)
    → is_some (before b'-' r) ≡ true
    → is_some (before b'-' s) ≡ true
many1-before p s a r e h = rw (many1-append p s a r e) (before-append a r h)

expect_all-before :
    (xs s r : Text) → expect_all (b'-' ∷ xs) s ≡ some r → is_some (before b'-' s) ≡ true
unfolding expect_all before
expect_all-before xs [] r h = cc
expect_all-before xs (c ∷ s) r h = ground arith

expect-before : (s r : Text) → expect (λ c. c == b'-') s ≡ some r → is_some (before b'-' s) ≡ true
unfolding before
expect-before [] r h = cc
expect-before (c ∷ s) r h = ground arith

match_snapshot-before :
    (raw : Text) (m : Text × Text) → match_snapshot raw ≡ some m → is_some (before b'-' raw) ≡ true
unfolding match_snapshot
match_snapshot-before raw m h =
    let ((a, r), e, k) = bind-eq-some (many1 is_dotted raw) _ h in
    let (r', e', k') = bind-eq-some (expect_all (codes "-snapshot-") r) _ k in
    many1-before is_dotted raw a r e (expect_all-before (codes "snapshot-") r r' e')

keyword-is_release :
    (s r : Text) (q : VersionQualifier) → match_keyword s ≡ some (q, r) → is_release q ≡ false
keyword-is_release s r q h = elim (Option-cases (expect_all (codes "pre") s)) [
  | inl e ↦ elim (Option-cases (expect_all (codes "rc") s)) [
    | inl e' ↦ ground (arith, e, e')
    | inr (t, e') ↦ ground (arith, e, e')
  ]
  | inr (t, e) ↦ ground (arith, e)
]

match_qualifier-before :
    (raw n b : Text) (q : VersionQualifier)
    → match_qualifier raw ≡ some (n, q, b)
    → (is_some (before b'-' raw) ≡ true) × (is_release q ≡ false)
unfolding match_qualifier
match_qualifier-before raw n b q h =
    let ((a, r), e, k) = bind-eq-some (many1 is_dotted raw) _ h in
    let (r', e', k') = bind-eq-some (expect (λ c. c == b'-') r) _ k in
    let ((q', r''), e'', k'') = bind-eq-some (match_keyword r') _ k' in
    let (b', e3, k3) =
      bind-eq-some (last_number (optional (λ c. c == b'-' || c == b'.') r''))
        (λ (build : Text). some (a, q', build)) k'' in
    (
      many1-before is_dotted raw a r e (expect-before r r' e'),
      cc (keyword-is_release r' r'' q' e'', k3),
    )

match_pure-before : (raw : Text) → match_pure raw ≡ true → before b'-' raw ≡ none
unfolding match_pure
match_pure-before raw h = elim (Option-cases (many1 is_dotted raw)) [
  | inl e ↦ absurd (ground (arith, e))
  | inr ((a, []), e) ↦
      rw (many1-append is_dotted raw a [] e)
        (rw append-nil (dotted-before a (many1-All is_dotted raw a [] e)))
  | inr ((a, x ∷ r), e) ↦ absurd (ground (arith, e))
]

-- Not a weekly snapshot, and the qualifier of a final release.
abbrev pub is_final : Fields → Bool
is_final f = is_release f.qualifier && not (is_some f.weekly)

is_pre_release-before :
    (raw : Text) → is_pre_release raw ≡ (is_some (before b'-' raw) || weekly_text raw)
unfolding is_pre_release
is_pre_release-before raw = ground (arith, contains-before raw)

module _ (raw : Text) (nonempty : before b'-' raw ≢ some []) where
  fallback-is_final : (o : Option Text) → o ≢ some [] → is_final (fallback raw o) ≡ not (is_some o)
  fallback-is_final o h = ground arith

  simple_fields-is_final :
      (w : Option (Text × Text × ℕ)) (s : Option (Text × Text))
      (q : Option (Text × VersionQualifier × Text)) (p : Bool)
      → weekly_text raw ≡ is_some w
      → ((m : Text × Text) → s ≡ some m → is_some (before b'-' raw) ≡ true)
      → ((n b : Text) (k : VersionQualifier)
          → q ≡ some (n, k, b)
          → (is_some (before b'-' raw) ≡ true) × (is_release k ≡ false))
      → (p ≡ true → before b'-' raw ≡ none)
      → (is_some (before b'-' raw) || weekly_text raw) ≡ not (is_final (simple_fields raw w s q p))
  unfolding simple_fields
  simple_fields-is_final (some w) s q p hw hs hq hp = ground arith
  simple_fields-is_final none (some m) q p hw hs hq hp = ground (arith, hs m refl)
  simple_fields-is_final none none (some (n, k, b)) p hw hs hq hp = ground (arith, hq n b k refl)
  simple_fields-is_final none none none true hw hs hq hp = ground (arith, hp refl)
  simple_fields-is_final none none none false hw hs hq hp =
      ground (arith, fallback-is_final (before b'-' raw) nonempty)

  -- A text that does not begin with `-` is hidden as a pre-release exactly when the domain's parser
  -- takes it for a weekly snapshot or gives it a qualifier below a final release.
  pub is_pre_release_iff_final : is_pre_release raw ≡ not (is_final (parse_simple_fields raw))
  unfolding parse_simple_fields
  is_pre_release_iff_final =
      is_pre_release-before raw
      ∙ simple_fields-is_final (match_weekly raw) (match_snapshot raw) (match_qualifier raw)
          (match_pure raw) (weekly_text-match_weekly raw) (match_snapshot-before raw)
          (match_qualifier-before raw) (match_pure-before raw)
