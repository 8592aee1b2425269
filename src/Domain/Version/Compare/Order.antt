-- ===== src/Domain/Version/Compare/Order.antt =====
-- Where `CompareVersions` is a total preorder: on versions of one form.
-- The verdicts on (a, b), (b, c) and (a, c) fit together: from a ≤ b ≤ c follows a ≤ c, and a < c if
-- one of the two is strict.
use system_of_adownload.Prelude.{
  Bool, List, Option, Ordering, [], arith, compare, compare_ℤ, false, if◌then◌else◌, none, pos,
  refl, some, sym, text_eq_refl, true, ℕ, ℤ, ◌==◌, ◌∙◌, ◌∷◌, ◌≡◌,
}
use system_of_adownload.Domain.Version.{
  rank, WeeklySnapshot, ParseAs, Fields, ParsedVersion, parsed_version, Segments, nil, cons,
  ParsedSegment, segment, SubVersion, absent, present, segments, rule, is_nonempty,
}
use system_of_adownload.Domain.Version.Compare.{
  flip, ◌then_by◌, compare_int_slices, same_parse_as, compare_qualifiers, compare_variants,
  compare_weekly, compare_numbers, compare_by_weekly, compare_simple, compare_manifest,
  compare_values, compare_versions, compare_all, compare_segments, compare_subversions,
}

abbrev pub Coherent : Ordering → Ordering → Ordering → Type 0
Coherent Ordering.lt Ordering.lt r = r ≡ Ordering.lt
Coherent Ordering.lt Ordering.eq r = r ≡ Ordering.lt
Coherent Ordering.eq Ordering.lt r = r ≡ Ordering.lt
Coherent Ordering.eq Ordering.eq r = r ≡ Ordering.eq
Coherent _ _ r = Unit

Coherent-then_by :
    (p q r p' q' r' : Ordering)
    → Coherent p q r
    → Coherent p' q' r'
    → Coherent (p then_by p') (q then_by q') (r then_by r')
Coherent-then_by p q r p' q' r' h k = ground arith

compare-Coherent : (a b c : ℕ) → Coherent (compare a b) (compare b c) (compare a c)
compare-Coherent a b c = ground arith

compare_ℤ-Coherent : (a b c : ℤ) → Coherent (compare_ℤ a b) (compare_ℤ b c) (compare_ℤ a c)
compare_ℤ-Coherent a b c = ground arith

flip-Coherent :
    (a b c : ℕ) → Coherent (flip (compare a b)) (flip (compare b c)) (flip (compare a c))
flip-Coherent a b c = ground arith

int_slices-Coherent :
    (a b c : List ℤ)
    → Coherent (compare_int_slices a b) (compare_int_slices b c) (compare_int_slices a c)
unfolding compare_int_slices
int_slices-Coherent [] [] [] = refl
int_slices-Coherent [] [] (z ∷ c) =
    Coherent-then_by Ordering.eq _ _ Ordering.eq _ _ (compare_ℤ-Coherent (pos 0) (pos 0) z)
      (int_slices-Coherent [] [] c)
int_slices-Coherent [] (y ∷ b) [] =
    Coherent-then_by _ _ Ordering.eq _ _ Ordering.eq (compare_ℤ-Coherent (pos 0) y (pos 0))
      (int_slices-Coherent [] b [])
int_slices-Coherent (x ∷ a) [] [] =
    Coherent-then_by _ Ordering.eq _ _ Ordering.eq _ (compare_ℤ-Coherent x (pos 0) (pos 0))
      (int_slices-Coherent a [] [])
int_slices-Coherent [] (y ∷ b) (z ∷ c) =
    Coherent-then_by _ _ _ _ _ _ (compare_ℤ-Coherent (pos 0) y z) (int_slices-Coherent [] b c)
int_slices-Coherent (x ∷ a) [] (z ∷ c) =
    Coherent-then_by _ _ _ _ _ _ (compare_ℤ-Coherent x (pos 0) z) (int_slices-Coherent a [] c)
int_slices-Coherent (x ∷ a) (y ∷ b) [] =
    Coherent-then_by _ _ _ _ _ _ (compare_ℤ-Coherent x y (pos 0)) (int_slices-Coherent a b [])
int_slices-Coherent (x ∷ a) (y ∷ b) (z ∷ c) =
    Coherent-then_by _ _ _ _ _ _ (compare_ℤ-Coherent x y z) (int_slices-Coherent a b c)

by_variant-Coherent :
    (x y z : ℕ) (p q r : Ordering)
    → Coherent p q r
    → Coherent
        (if x == y then p else flip (compare x y))
        (if y == z then q else flip (compare y z))
        (if x == z then r else flip (compare x z))
by_variant-Coherent x y z p q r h = ground arith

module _ (a b c : Fields) where
  qualifiers-Coherent :
      Coherent (compare_qualifiers a b) (compare_qualifiers b c) (compare_qualifiers a c)
  qualifiers-Coherent =
      Coherent-then_by _ _ _ _ _ _
        (compare-Coherent (rank a.qualifier) (rank b.qualifier) (rank c.qualifier))
        (compare_ℤ-Coherent a.qualifier_num b.qualifier_num c.qualifier_num)

  variants-Coherent : Coherent (compare_variants a b) (compare_variants b c) (compare_variants a c)
  variants-Coherent =
      by_variant-Coherent a.variant_order b.variant_order c.variant_order _ _ _ qualifiers-Coherent

  numbers-Coherent : Coherent (compare_numbers a b) (compare_numbers b c) (compare_numbers a c)
  unfolding compare_numbers
  numbers-Coherent =
      Coherent-then_by _ _ _ _ _ _ (int_slices-Coherent a.primary b.primary c.primary)
        qualifiers-Coherent

weekly-Coherent :
    (a b c : WeeklySnapshot)
    → Coherent (compare_weekly a b) (compare_weekly b c) (compare_weekly a c)
weekly-Coherent a b c = Coherent-then_by _ _ _ _ _ _ (compare_ℤ-Coherent a.year b.year c.year) (
    Coherent-then_by _ _ _ _ _ _ (compare_ℤ-Coherent a.week b.week c.week)
      (compare-Coherent a.build b.build c.build))

by_weekly-Coherent :
    (a b c : Option WeeklySnapshot) (p q r : Ordering)
    → Coherent p q r
    → Coherent (compare_by_weekly a b p) (compare_by_weekly b c q) (compare_by_weekly a c r)
by_weekly-Coherent (some a) (some b) (some c) p q r h = weekly-Coherent a b c
by_weekly-Coherent none none none p q r h = h
by_weekly-Coherent a b c p q r h = ground arith

simple-Coherent :
    (a b c : Fields) → Coherent (compare_simple a b) (compare_simple b c) (compare_simple a c)
unfolding compare_simple
simple-Coherent a b c = by_weekly-Coherent a.weekly b.weekly c.weekly _ _ _ (numbers-Coherent a b c)

manifest-Coherent :
    (a b c : ℤ) (p q r : Ordering)
    → Coherent p q r
    → Coherent (compare_manifest a b p) (compare_manifest b c q) (compare_manifest a c r)
manifest-Coherent a b c p q r h = ground arith

-- A version with no segments: what `parseSimpleVersion` returns.
abbrev IsPlain : ParsedVersion → Type 0
IsPlain (parsed_version f s) = is_nonempty s ≡ false

abbrev IsPlainSub : SubVersion → Type 0
IsPlainSub absent = Unit
IsPlainSub (present v) = IsPlain v

abbrev pub HoldsPlain : ParsedSegment → Type 0
HoldsPlain (segment r raw v ints n) = IsPlainSub v

-- The segments are parsed by these rules, in this order.
abbrev pub HasForm : List ParseAs → Segments → Type 0
HasForm [] nil = Unit
HasForm (p ∷ ps) (cons s rest) = ((rule s).parse_as ≡ p) × HoldsPlain s × HasForm ps rest
HasForm _ _ = ⊥

plain-Coherent :
    (a b c : ParsedVersion)
    → IsPlain a
    → IsPlain b
    → IsPlain c
    → Coherent (compare_versions a b) (compare_versions b c) (compare_versions a c)
unfolding compare_versions
plain-Coherent (parsed_version a nil) (parsed_version b nil) (parsed_version c nil) ha hb hc =
    manifest-Coherent a.manifest_order b.manifest_order c.manifest_order _ _ _
      (simple-Coherent a b c)
plain-Coherent a b c ha hb hc = ground arith

subversions-Coherent :
    (a b c : SubVersion)
    → IsPlainSub a
    → IsPlainSub b
    → IsPlainSub c
    → Coherent (compare_subversions a b) (compare_subversions b c) (compare_subversions a c)
unfolding compare_versions
subversions-Coherent (present a) (present b) (present c) ha hb hc = plain-Coherent a b c ha hb hc
subversions-Coherent absent b c ha hb hc = ground arith
subversions-Coherent a b c ha hb hc = ground arith

values-Coherent :
    (p p' : ParseAs) (x y z : Ordering) (ia ib ic : List ℤ) (na nb nc : ℤ)
    → p' ≡ p
    → Coherent x y z
    → Coherent
        (compare_values p x ia ib na nb)
        (compare_values p' y ib ic nb nc)
        (compare_values p z ia ic na nc)
values-Coherent p p' x y z ia ib ic na nb nc e h = ground (arith, int_slices-Coherent ia ib ic)

segments-Coherent :
    (p : ParseAs) (a b c : ParsedSegment)
    → (rule a).parse_as ≡ p
    → (rule b).parse_as ≡ p
    → HoldsPlain a
    → HoldsPlain b
    → HoldsPlain c
    → Coherent (compare_segments a b) (compare_segments b c) (compare_segments a c)
unfolding compare_versions
segments-Coherent p (segment r raw v i n) (segment r' raw' v' i' n') (segment r'' raw'' v'' i'' n'')
      ea eb ha hb hc =
    values-Coherent r.parse_as r'.parse_as _ _ _ i i' i'' n n' n'' (eb ∙ sym ea)
      (subversions-Coherent v v' v'' ha hb hc)

same_parse_as_refl : (p : ParseAs) → same_parse_as p p ≡ true
same_parse_as_refl (ParseAs.unknown a) = text_eq_refl a
same_parse_as_refl ParseAs.minecraft = refl
same_parse_as_refl p = refl

same_parse_as_of_eq : (p q r : ParseAs) → q ≡ p → r ≡ p → same_parse_as q r ≡ true
same_parse_as_of_eq p q r e f = rw (e, f) (same_parse_as_refl p)

round-Coherent :
    (x y z : Bool) (p q r p' q' r' : Ordering)
    → x ≡ true
    → y ≡ true
    → z ≡ true
    → Coherent p q r
    → Coherent p' q' r'
    → Coherent
        (if x then p then_by p' else Ordering.eq)
        (if y then q then_by q' else Ordering.eq)
        (if z then r then_by r' else Ordering.eq)
round-Coherent x y z p q r p' q' r' ex ey ez h k =
    rw (ex, ey, ez) (Coherent-then_by p q r p' q' r' h k)

all-Coherent :
    (ps : List ParseAs) (a b c : Segments)
    → HasForm ps a
    → HasForm ps b
    → HasForm ps c
    → Coherent (compare_all a b) (compare_all b c) (compare_all a c)
unfolding compare_versions
all-Coherent [] nil nil nil ha hb hc = refl
all-Coherent (p ∷ ps) (cons a sa) (cons b sb) (cons c sc) (ea, pa, fa) (eb, pb, fb) (ec, pc, fc) =
    round-Coherent _ _ _ _ _ _ _ _ _ (same_parse_as_of_eq p _ _ ea eb)
      (same_parse_as_of_eq p _ _ eb ec) (same_parse_as_of_eq p _ _ ea ec)
      (segments-Coherent p a b c ea eb pa pb pc) (all-Coherent ps sa sb sc fa fb fc)
all-Coherent ps a b c ha hb hc = ground arith

-- On versions that were parsed by the same segment rules, in the same order, or that have no
-- segments, the comparison is transitive: from a ≤ b ≤ c follows a ≤ c, strictly if one of the two
-- is strict, and equality is transitive too.
pub compare_versions-Coherent :
    (ps : List ParseAs) (a b c : ParsedVersion)
    → HasForm ps (segments a)
    → HasForm ps (segments b)
    → HasForm ps (segments c)
    → Coherent (compare_versions a b) (compare_versions b c) (compare_versions a c)
unfolding compare_versions
compare_versions-Coherent [] (parsed_version a nil) (parsed_version b nil) (parsed_version c nil) ha
      hb hc =
    plain-Coherent (parsed_version a nil) (parsed_version b nil) (parsed_version c nil) refl refl
      refl
compare_versions-Coherent (p ∷ ps) (parsed_version a (cons x sa)) (parsed_version b (cons y sb))
      (parsed_version c (cons z sc)) ha hb hc =
    manifest-Coherent a.manifest_order b.manifest_order c.manifest_order _ _ _ (
      Coherent-then_by _ _ _ _ _ _
        (all-Coherent (p ∷ ps) (cons x sa) (cons y sb) (cons z sc) ha hb hc)
        (variants-Coherent a b c))
compare_versions-Coherent ps a b c ha hb hc = ground arith
