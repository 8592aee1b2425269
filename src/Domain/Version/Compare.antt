-- ===== src/Domain/Version/Compare.antt =====
-- `CompareVersions`, `compareSegments` and `compareIntSlices`. The three signs of a Go comparison
-- are the three values of `Ordering`.
pub mod Flip
pub mod Order
use system_of_adownload.Prelude.{
  Bool, List, Option, Ordering, [], compare, compare_ℤ, false, if◌then◌else◌, is_positive, none,
  pos, some, text_eq, true, ℤ, ◌&&◌, ◌==◌, ◌∷◌,
}
use system_of_adownload.Domain.Version.{
  rank, WeeklySnapshot, ParseAs, Fields, ParsedVersion, parsed_version, Segments, nil, cons,
  ParsedSegment, segment, SubVersion, absent, present, rule, is_nonempty,
}

-- `-c`
abbrev pub flip : Ordering → Ordering
flip Ordering.lt = Ordering.gt
flip Ordering.eq = Ordering.eq
flip Ordering.gt = Ordering.lt

-- `if c := ...; c != 0 { return c }`, and what follows it.
infixr 20 ◌then_by◌
abbrev pub ◌then_by◌ : Ordering → Ordering → Ordering
Ordering.lt then_by c = Ordering.lt
Ordering.eq then_by c = c
Ordering.gt then_by c = Ordering.gt

-- `compareIntSlices`: the shorter list goes on with zeros.
pub compare_int_slices : List ℤ → List ℤ → Ordering
compare_int_slices [] [] = Ordering.eq
compare_int_slices (a ∷ as') [] = compare_ℤ a (pos 0) then_by compare_int_slices as' []
compare_int_slices [] (b ∷ bs) = compare_ℤ (pos 0) b then_by compare_int_slices [] bs
compare_int_slices (a ∷ as') (b ∷ bs) = compare_ℤ a b then_by compare_int_slices as' bs

-- `sa.Rule.ParseAs == sb.Rule.ParseAs`
abbrev pub same_parse_as : ParseAs → ParseAs → Bool
same_parse_as ParseAs.minecraft ParseAs.minecraft = true
same_parse_as ParseAs.dotted ParseAs.dotted = true
same_parse_as ParseAs.integer ParseAs.integer = true
same_parse_as ParseAs.ignore ParseAs.ignore = true
same_parse_as (ParseAs.unknown a) (ParseAs.unknown b) = text_eq a b
same_parse_as _ _ = false

abbrev pub compare_qualifiers : Fields → Fields → Ordering
compare_qualifiers a b =
    compare (rank a.qualifier) (rank b.qualifier) then_by compare_ℤ a.qualifier_num b.qualifier_num

-- The end of the segment branch: a lower variant index is a newer format.
abbrev pub compare_variants : Fields → Fields → Ordering
compare_variants a b =
    if a.variant_order == b.variant_order
    then compare_qualifiers a b
    else flip (compare a.variant_order b.variant_order)

abbrev pub compare_weekly : WeeklySnapshot → WeeklySnapshot → Ordering
compare_weekly a b =
    compare_ℤ a.year b.year then_by compare_ℤ a.week b.week then_by compare a.build b.build

-- Neither is a weekly snapshot.
pub compare_numbers : Fields → Fields → Ordering
unfolding compare_int_slices
compare_numbers a b = compare_int_slices a.primary b.primary then_by compare_qualifiers a b

abbrev compare_by_weekly : Option WeeklySnapshot → Option WeeklySnapshot → Ordering → Ordering
compare_by_weekly (some a) (some b) numbers = compare_weekly a b
compare_by_weekly (some a) none numbers = Ordering.lt
compare_by_weekly none (some b) numbers = Ordering.gt
compare_by_weekly none none numbers = numbers

-- What stands behind the segment branch.
pub compare_simple : Fields → Fields → Ordering
unfolding compare_numbers
compare_simple a b = compare_by_weekly a.weekly b.weekly (compare_numbers a b)

-- The switch on the manifest order, with what follows it.
abbrev pub compare_manifest : ℤ → ℤ → Ordering → Ordering
compare_manifest a b rest =
    if is_positive a
    then (if is_positive b then compare_ℤ a b then_by rest else Ordering.gt)
    else if is_positive b
    then Ordering.lt
    else rest

-- The switch of `compareSegments`; `mc` is its case "minecraft".
abbrev compare_values : ParseAs → Ordering → List ℤ → List ℤ → ℤ → ℤ → Ordering
compare_values ParseAs.minecraft mc ints ints' n n' = mc
compare_values ParseAs.dotted mc ints ints' n n' = compare_int_slices ints ints'
compare_values ParseAs.integer mc ints ints' n n' = compare_ℤ n n'
compare_values _ mc ints ints' n n' = Ordering.eq

unfoldable mutual
  unfolding compare_simple

  -- `CompareVersions`
  pub compare_versions : ParsedVersion → ParsedVersion → Ordering
  compare_versions (parsed_version a sa) (parsed_version b sb) =
      compare_manifest a.manifest_order b.manifest_order (
        if is_nonempty sa && is_nonempty sb
        then compare_all sa sb then_by compare_variants a b
        else compare_simple a b)

  -- The loop over the segments; `break` ends it with no verdict.
  pub compare_all : Segments → Segments → Ordering
  compare_all nil sb = Ordering.eq
  compare_all (cons a sa) nil = Ordering.eq
  compare_all (cons a sa) (cons b sb) =
      if same_parse_as (rule a).parse_as (rule b).parse_as
      then compare_segments a b then_by compare_all sa sb
      else Ordering.eq

  -- `compareSegments`
  pub compare_segments : ParsedSegment → ParsedSegment → Ordering
  compare_segments (segment r raw v ints n) (segment r' raw' v' ints' n') =
      compare_values r.parse_as (compare_subversions v v') ints ints' n n'

  -- Its case "minecraft".
  pub compare_subversions : SubVersion → SubVersion → Ordering
  compare_subversions (present a) (present b) = compare_versions a b
  compare_subversions (present a) absent = Ordering.gt
  compare_subversions absent (present b) = Ordering.lt
  compare_subversions absent absent = Ordering.eq
