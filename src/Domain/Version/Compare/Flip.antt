-- ===== src/Domain/Version/Compare/Flip.antt =====
-- `CompareVersions` with its arguments swapped.
use system_of_adownload.Prelude.{
  Bool, List, Ordering, [], arith, compare, compare_ℤ, if◌then◌else◌, pos, refl, text_eq_iff, true,
  ℕ, ℤ, ◌&&◌, ◌∷◌, ◌≡◌,
}
use system_of_adownload.Domain.Version.{
  ParseAs, Fields, ParsedVersion, parsed_version, Segments, nil, cons, ParsedSegment, segment,
  SubVersion, absent, present, rule, is_nonempty,
}
use system_of_adownload.Domain.Version.Compare.{
  flip, ◌then_by◌, compare_int_slices, same_parse_as, compare_qualifiers, compare_variants,
  compare_simple, compare_manifest, compare_values, compare_versions, compare_all, compare_segments,
  compare_subversions,
}

flip-then_by : (a b : Ordering) → flip (a then_by b) ≡ (flip a then_by flip b)
flip-then_by Ordering.lt b = refl
flip-then_by Ordering.eq b = refl
flip-then_by Ordering.gt b = refl

then_by-flip :
    (c c' d d' : Ordering) → c' ≡ flip c → d' ≡ flip d → (c' then_by d') ≡ flip (c then_by d)
then_by-flip c c' d d' e f = ground arith

compare-flip : (a b : ℕ) → compare b a ≡ flip (compare a b)
compare-flip a b = ground arith

pub compare_ℤ-flip : (a b : ℤ) → compare_ℤ b a ≡ flip (compare_ℤ a b)
compare_ℤ-flip a b = ground arith

compare_int_slices-flip : (a b : List ℤ) → compare_int_slices b a ≡ flip (compare_int_slices a b)
unfolding compare_int_slices
compare_int_slices-flip [] [] = refl
compare_int_slices-flip [] (b ∷ bs) = cc (
  compare_ℤ-flip (pos 0) b,
  compare_int_slices-flip [] bs,
  flip-then_by (compare_ℤ (pos 0) b) (compare_int_slices [] bs),
)
compare_int_slices-flip (a ∷ as') [] = cc (
  compare_ℤ-flip a (pos 0),
  compare_int_slices-flip as' [],
  flip-then_by (compare_ℤ a (pos 0)) (compare_int_slices as' []),
)
compare_int_slices-flip (a ∷ as') (b ∷ bs) = cc (
  compare_ℤ-flip a b,
  compare_int_slices-flip as' bs,
  flip-then_by (compare_ℤ a b) (compare_int_slices as' bs),
)

compare_qualifiers-flip : (a b : Fields) → compare_qualifiers b a ≡ flip (compare_qualifiers a b)
compare_qualifiers-flip a b = ground arith

compare_simple-flip : (a b : Fields) → compare_simple b a ≡ flip (compare_simple a b)
unfolding compare_simple
compare_simple-flip a b = ground (arith, compare_int_slices-flip a.primary b.primary)

compare_variants-flip : (a b : Fields) → compare_variants b a ≡ flip (compare_variants a b)
compare_variants-flip a b = ground arith

compare_manifest-flip :
    (m n : ℤ) (c d : Ordering) → d ≡ flip c → compare_manifest n m d ≡ flip (compare_manifest m n c)
compare_manifest-flip m n c d e = ground arith

same_parse_as_comm : (a b : ParseAs) → same_parse_as b a ≡ same_parse_as a b
same_parse_as_comm (ParseAs.unknown a) (ParseAs.unknown b) =
    ground (arith, text_eq_iff a b, text_eq_iff b a)
same_parse_as_comm a b = ground arith

compare_values-flip :
    (a b : ParseAs) (c d : Ordering) (ints ints' : List ℤ) (n n' : ℤ)
    → same_parse_as a b ≡ true
    → d ≡ flip c
    → compare_values b d ints' ints n' n ≡ flip (compare_values a c ints ints' n n')
compare_values-flip a b c d ints ints' n n' h e = ground (arith, compare_int_slices-flip ints ints')

-- The two branches of `CompareVersions` behind the manifest.
branch-flip :
    (x y : Bool) (c c' d d' : Ordering)
    → c' ≡ flip c
    → d' ≡ flip d
    → (if y && x then c' else d') ≡ flip (if x && y then c else d)
branch-flip x y c c' d d' e f = ground arith

-- One round of the loop.
round-flip :
    (x y : Bool) (c c' d d' : Ordering)
    → y ≡ x
    → (x ≡ true → c' ≡ flip c)
    → d' ≡ flip d
    → (if y then c' then_by d' else Ordering.eq) ≡ flip (if x then c then_by d else Ordering.eq)
round-flip x y c c' d d' e f g = ground arith

mutual
  unfolding compare_versions

  versions-flip : (a b : ParsedVersion) → compare_versions b a ≡ flip (compare_versions a b)
  versions-flip (parsed_version a sa) (parsed_version b sb) =
      compare_manifest-flip a.manifest_order b.manifest_order _ _ (
        branch-flip (is_nonempty sa) (is_nonempty sb) _ _ _ _
          (then_by-flip _ _ _ _ (all-flip sa sb) (compare_variants-flip a b))
          (compare_simple-flip a b))

  all-flip : (a b : Segments) → compare_all b a ≡ flip (compare_all a b)
  all-flip nil nil = refl
  all-flip nil (cons b sb) = refl
  all-flip (cons a sa) nil = refl
  all-flip (cons a sa) (cons b sb) =
      round-flip _ _ _ _ _ _ (same_parse_as_comm (rule a).parse_as (rule b).parse_as)
        (segments-flip a b) (all-flip sa sb)

  segments-flip :
      (a b : ParsedSegment)
      → same_parse_as (rule a).parse_as (rule b).parse_as ≡ true
      → compare_segments b a ≡ flip (compare_segments a b)
  segments-flip (segment r raw v ints n) (segment r' raw' v' ints' n') h =
      compare_values-flip r.parse_as r'.parse_as _ _ ints ints' n n' h (subversions-flip v v')

  subversions-flip : (a b : SubVersion) → compare_subversions b a ≡ flip (compare_subversions a b)
  subversions-flip (present a) (present b) = versions-flip a b
  subversions-flip (present a) absent = refl
  subversions-flip absent (present b) = refl
  subversions-flip absent absent = refl

-- Swapping the two versions turns the verdict round: neither argument is favoured, whatever
-- manifest orders, segments, weekly snapshots and qualifiers the two have.
pub compare_versions-flip :
    (a b : ParsedVersion) → compare_versions b a ≡ flip (compare_versions a b)
compare_versions-flip a b = versions-flip a b
