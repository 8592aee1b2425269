-- ===== src/Prelude/Strings.antt =====
-- Go strings as lists of code points, with the operations of `strings` and `strconv` that the
-- program calls.
use Prim.Native.Nat.{ℕ, ◌+◌, ◌-◌, ◌*◌, ◌^◌}
use Prim.Native.Char.{code}
use Prim.Native.String.{String}
use mathlib.Core.Path.{◌≡◌, refl}
use mathlib.Core.Logic.{◌↔◌}
use mathlib.Core.Bool.{Bool, true, false, not, ◌&&◌, ◌||◌}
use mathlib.Core.Option.{Option, none, some}
use mathlib.Core.List.{List, [], ◌∷◌}
use native.Mathlib.Omega.{arith}
use system_of_adownload.Prelude.Tests.{leb, ltb, ◌==◌, if◌then◌else◌}
use system_of_adownload.Prelude.Int.{ℤ, pos, negate, max_int, min_int}

abbrev pub Text : Type 0
Text = List ℕ

abbrev pub codes : String → Text
codes String.[] = []
codes (String.◌∷◌ c s) = code c ∷ codes s

-- `a == b`
abbrev pub text_eq : Text → Text → Bool
text_eq [] [] = true
text_eq (x ∷ xs) (y ∷ ys) = x == y && text_eq xs ys
text_eq _ _ = false

pub text_eq_iff : (a b : Text) → (text_eq a b ≡ true) ↔ (a ≡ b)
text_eq_iff (x ∷ a) (y ∷ b) = ground (arith, text_eq_iff a b)
text_eq_iff _ _ = ground arith

pub text_eq_refl : (a : Text) → text_eq a a ≡ true
text_eq_refl a = (text_eq_iff a a).1 refl

abbrev pub is_empty {ℓ} : {A : Type ℓ} → List A → Bool
is_empty [] = true
is_empty (x ∷ xs) = false

abbrev pub is_digit : ℕ → Bool
is_digit c = leb b'0' c && leb c b'9'

abbrev pub is_lower : ℕ → Bool
is_lower c = leb b'a' c && leb c b'z'

abbrev is_upper : ℕ → Bool
is_upper c = leb b'A' c && leb c b'Z'

-- `strings.ToLower` and `strings.ToUpper`, where the result is ASCII: the letters, and the two code
-- points in each direction outside of ASCII that are mapped to an ASCII letter. What the program
-- compares with the results is ASCII.
abbrev pub lower : ℕ → ℕ
lower c =
    if is_upper c then c + 32 else if c == 0x212a then b'k' else if c == 0x130 then b'i' else c

abbrev pub upper : ℕ → ℕ
upper c = if is_lower c then c - 32 else if c == 0x17f then b'S' else if c == 0x131 then b'I' else c

-- The longest prefix whose code points pass the test, and the rest.
unfoldable pub span : (ℕ → Bool) → Text → Text × Text
span p [] = ([], [])
span p (c ∷ cs) = let (a, b) = span p cs in if p c then (c ∷ a, b) else ([], c ∷ cs)

-- `strings.HasPrefix(s, p)`
unfoldable pub has_prefix : Text → Text → Bool
has_prefix s [] = true
has_prefix [] (x ∷ p) = false
has_prefix (c ∷ s) (x ∷ p) = c == x && has_prefix s p

-- `strings.Contains(s, p)`
unfoldable pub contains : Text → Text → Bool
unfolding has_prefix
contains [] p = is_empty p
contains (c ∷ s) p = has_prefix (c ∷ s) p || contains s p

-- `strings.IndexByte(s, b)` for an ASCII byte: the part before the first `b`, if there is one.
unfoldable pub before : ℕ → Text → Option Text
before b [] = none
before b (c ∷ s) =
    let rest = before b s in
    if c == b then some [] else elim rest [ none ↦ none | some t ↦ some (c ∷ t) ]

-- `strings.Split(s, string(sep))`: always at least one part.
unfoldable pub split : ℕ → Text → List Text
split sep [] = [] ∷ []
split sep (c ∷ s) = elim (split sep s) [
  | [] ↦ [] ∷ []
  | part ∷ parts ↦ if c == sep then [] ∷ part ∷ parts else (c ∷ part) ∷ parts
]

-- What `strconv.Atoi` returns: the number, and whether the error is nil.
pub record Atoi : Type 0 where
  pub value : ℤ
  pub valid : Bool

-- The digits of a number, read from the left as an unsigned 64-bit number: the first character
-- that is no digit is a syntax error, the first digit that takes it past the width a range error.
pub data Digits : Type 0 where
  number : ℕ → Digits
  bad_syntax out_of_range : Digits

unfoldable pub read_digits : ℕ → Text → Digits
read_digits n [] = number n
read_digits n (c ∷ cs) =
    let rest = read_digits (n * 10 + (c - b'0')) cs in
    if not (is_digit c)
    then bad_syntax
    else if leb (2 ^ 64) (n * 10 + (c - b'0'))
    then out_of_range
    else rest

abbrev failed : ℤ → Atoi
failed n = record { value = n; valid = false }

-- The bound that a number out of range is cut to.
abbrev cut : Bool → ℤ
cut negative = if negative then min_int else max_int

-- A number of 64 bits, with its sign, as an `int`.
abbrev signed : Bool → ℕ → Atoi
signed negative n =
    if (if negative then leb n (2 ^ 63) else ltb n (2 ^ 63))
    then record { value = if negative then negate n else pos n; valid = true }
    else failed (cut negative)

unsigned : Bool → Text → Atoi
unfolding read_digits
unsigned negative [] = failed (pos 0)
unsigned negative (c ∷ cs) = elim (read_digits 0 (c ∷ cs)) [
  | number n ↦ signed negative n
  | bad_syntax ↦ failed (pos 0)
  | out_of_range ↦ failed (cut negative)
]

-- `strconv.Atoi`: an optional sign, then decimal digits. A syntax error gives 0, a number out of
-- range gives the nearest bound, both with an error.
unfoldable pub atoi : Text → Atoi
unfolding unsigned
atoi [] = failed (pos 0)
atoi (c ∷ cs) =
    if c == b'-'
    then unsigned true cs
    else if c == b'+'
    then unsigned false cs
    else unsigned false (c ∷ cs)

-- What stands behind a prefix.
abbrev skip : Text → Text → Text
skip [] s = s
skip (x ∷ p) [] = []
skip (x ∷ p) (c ∷ s) = skip p s

-- `strings.Cut` at a text that is not empty.
unfoldable pub cut_at : Text → Text → Option (Text × Text)
unfolding has_prefix
cut_at sep [] = none
cut_at sep (c ∷ s) =
    let later = cut_at sep s in
    if has_prefix (c ∷ s) sep
    then some ([], skip sep (c ∷ s))
    else elim later [ none ↦ none | some (a, b) ↦ some (c ∷ a, b) ]

-- `unicode.IsSpace`
unfoldable pub is_space : ℕ → Bool
is_space c =
    (leb 9 c && leb c 13)
    || c == 32
    || c == 0x85
    || c == 0xa0
    || c == 0x1680
    || (leb 0x2000 c && leb c 0x200a)
    || c == 0x2028
    || c == 0x2029
    || c == 0x202f
    || c == 0x205f
    || c == 0x3000

-- `strings.TrimSpace`
unfoldable pub trim_space_right : Text → Text
unfolding is_space
trim_space_right [] = []
trim_space_right (c ∷ s) =
    let rest = trim_space_right s in if is_empty rest && is_space c then [] else c ∷ rest

unfoldable pub trim_space_left : Text → Text
unfolding is_space
trim_space_left [] = []
trim_space_left (c ∷ s) = let rest = trim_space_left s in if is_space c then rest else c ∷ s

unfoldable pub trim_space : Text → Text
unfolding trim_space_left trim_space_right
trim_space s = trim_space_right (trim_space_left s)

-- `strings.HasSuffix`
unfoldable pub has_suffix : Text → Text → Bool
has_suffix [] p = is_empty p
has_suffix (c ∷ s) p = text_eq (c ∷ s) p || has_suffix s p
