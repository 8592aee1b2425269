-- ===== src/Domain/Version/Parse.antt =====
-- `parseSimpleVersion` and `parseDottedInts` of internal/domain/version_ordering.go. The four
-- regular expressions are recognisers over code points: in each of them a repeated class is
-- followed by a character outside of it, so the longest run is the only match.
use mathlib.Core.Option
use system_of_adownload.Prelude.{
  Bool, List, Option, Text, [], atoi, before, codes, false, if◌then◌else◌, is_digit, is_empty,
  is_lower, lower, none, some, span, split, true, ℕ, ℤ, ◌&&◌, ◌==◌, ◌||◌, ◌∷◌,
}
use system_of_adownload.Domain.Version.{
  VersionQualifier, Fields, ParsedVersion, parsed_version, nil, blank,
}

-- `do` blocks over a failing match.
infixl 5 ◌>>=◌ ◌>>◌
abbrev pub ◌>>=◌ {ℓ κ} : {A : Type ℓ} {B : Type κ} → Option A → (A → Option B) → Option B
none >>= f = none
some a >>= f = f a

abbrev pub ◌>>◌ {ℓ} : {B : Type ℓ} → Option (Unit {0}) → Option B → Option B
m >> k = m >>= λ _. k

abbrev check : Bool → Option (Unit {0})
check true = some tt
check false = none

-- `c`, `c?` and the end of the text.
abbrev pub expect : (ℕ → Bool) → Text → Option Text
expect p [] = none
expect p (c ∷ s) = if p c then some s else none

abbrev pub optional : (ℕ → Bool) → Text → Text
optional p [] = []
optional p (c ∷ s) = if p c then s else c ∷ s

-- `[class]+`, with what was matched.
unfoldable pub many1 : (ℕ → Bool) → Text → Option (Text × Text)
unfolding span
many1 p s = let (a, b) = span p s in if is_empty a then none else some (a, b)

-- `[\d.]`
abbrev pub is_dotted : ℕ → Bool
is_dotted c = is_digit c || c == b'.'

-- `(?i)` on an ASCII letter; `s` folds with the long s as well.
abbrev folds : ℕ → ℕ → Bool
folds x c = lower c == x || (x == b's' && c == 0x17f)

unfoldable pub expect_all : Text → Text → Option Text
expect_all [] s = some s
expect_all (x ∷ xs) s = do r ← expect (folds x) s; expect_all xs r

-- The last character of the text, of that class, with what was matched.
abbrev last_of : (ℕ → Bool) → Text → Option ℕ
last_of p (c ∷ []) = if p c then some c else none
last_of p _ = none

-- `(\d+)$`
pub last_number : Text → Option Text
unfolding many1
last_number s = do (n, r) ← many1 is_digit s; check (is_empty r); some n

-- `weeklySnapshotRe`: `^(\d+)w(\d+)([a-z])$`
unfoldable pub match_weekly : Text → Option (Text × Text × ℕ)
unfolding many1
match_weekly raw = do
  (year, r) ← many1 is_digit raw
  r' ← expect (λ c. c == b'w') r
  (week, r'') ← many1 is_digit r'
  build ← last_of is_lower r''
  some (year, week, build)

-- `snapshotDashNumRe`: `(?i)^([\d.]+)-snapshot-(\d+)$`
unfoldable pub match_snapshot : Text → Option (Text × Text)
unfolding many1 expect_all last_number
match_snapshot raw = do
  (numbers, r) ← many1 is_dotted raw
  r' ← expect_all (codes "-snapshot-") r
  build ← last_number r'
  some (numbers, build)

-- `(pre|rc)`, with the qualifier that it stands for.
abbrev pub match_keyword : Text → Option (VersionQualifier × Text)
match_keyword s = elim (expect_all (codes "pre") s) [
  | some r ↦ some (VersionQualifier.pre, r)
  | none ↦ Option.map (λ r. (VersionQualifier.rc, r)) (expect_all (codes "rc") s)
]

-- `stdQualifierRe`: `(?i)^([\d.]+)-(pre|rc)[-.]?(\d+)$`
unfoldable pub match_qualifier : Text → Option (Text × VersionQualifier × Text)
unfolding many1 expect_all last_number
match_qualifier raw = do
  (numbers, r) ← many1 is_dotted raw
  r' ← expect (λ c. c == b'-') r
  (qualifier, r'') ← match_keyword r'
  build ← last_number (optional (λ c. c == b'-' || c == b'.') r'')
  some (numbers, qualifier, build)

-- `pureVersionRe`: `^[\d.]+$`
unfoldable pub match_pure : Text → Bool
unfolding many1
match_pure raw = elim (many1 is_dotted raw) [ none ↦ false | some (a, r) ↦ is_empty r ]

-- The loop of `parseDottedInts`: a part that is no number, or out of range, is left out.
unfoldable dotted_ints : List Text → List ℤ
unfolding atoi
dotted_ints [] = []
dotted_ints (p ∷ parts) =
    let rest = dotted_ints parts in if (atoi p).valid then (atoi p).value ∷ rest else rest

pub parse_dotted_ints : Text → List ℤ
unfolding split dotted_ints
parse_dotted_ints s = dotted_ints (split b'.' s)

-- The fallback of `parseSimpleVersion`, on what stands before the first `-`, if that is not at once.
abbrev pub fallback : Text → Option Text → Fields
fallback raw none = blank raw
fallback raw (some []) = blank raw
fallback raw (some (c ∷ head)) = record (blank raw) {
  primary = parse_dotted_ints (c ∷ head);
  qualifier = VersionQualifier.snapshot;
}

-- The chain of `parseSimpleVersion` over the four matches; the segments stay nil.
unfoldable pub simple_fields :
    Text
    → Option (Text × Text × ℕ)
    → Option (Text × Text)
    → Option (Text × VersionQualifier × Text)
    → Bool
    → Fields
unfolding parse_dotted_ints atoi before
simple_fields raw (some (year, week, build)) _ _ _ = record (blank raw) {
  weekly = some (record { year = (atoi year).value; week = (atoi week).value; build = build });
}
simple_fields raw none (some (numbers, build)) _ _ = record (blank raw) {
  primary = parse_dotted_ints numbers;
  qualifier = VersionQualifier.snapshot;
  qualifier_num = (atoi build).value;
}
simple_fields raw none none (some (numbers, q, build)) _ = record (blank raw) {
  primary = parse_dotted_ints numbers;
  qualifier = q;
  qualifier_num = (atoi build).value;
}
simple_fields raw none none none true = record (blank raw) { primary = parse_dotted_ints raw }
simple_fields raw none none none false = fallback raw (before b'-' raw)

unfoldable pub parse_simple_fields : Text → Fields
unfolding simple_fields match_weekly match_snapshot match_qualifier match_pure
parse_simple_fields raw =
    simple_fields raw (match_weekly raw) (match_snapshot raw) (match_qualifier raw) (match_pure raw)

-- `parseSimpleVersion`
abbrev pub parse_simple_version : Text → ParsedVersion
parse_simple_version raw = parsed_version (parse_simple_fields raw) nil
