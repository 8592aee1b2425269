-- ===== src/Prelude/Int.antt =====
-- Go's `int`: signed integers over the native numbers, under the library's names. `int` is 64 bits
-- wide; `max_int` and `min_int` are its bounds. Only comparison is needed.
use Prim.Native.Nat.{ℕ, suc, ◌+◌, ◌-◌, ◌^◌, compare, Ordering}
use mathlib.Core.Bool.{Bool, true, false}

-- `negsuc n` is -(n + 1).
pub data ℤ : Type 0 where
  pos : ℕ → ℤ
  negsuc : ℕ → ℤ

abbrev pub pos_part : ℤ → ℕ
pos_part (pos n) = n
pos_part (negsuc n) = 0

abbrev neg_part : ℤ → ℕ
neg_part (pos n) = 0
neg_part (negsuc n) = suc n

-- `math.MaxInt64` and `math.MinInt64`.
abbrev pub max_int : ℤ
max_int = pos (2 ^ 63 - 1)

abbrev pub min_int : ℤ
min_int = negsuc (2 ^ 63 - 1)

-- `n` and `-n`.
abbrev pub negate : ℕ → ℤ
negate n = elim n [ ℕ.zero ↦ pos 0 | suc k ↦ negsuc k ]

-- `cmp.Compare` on `int`.
abbrev pub compare_ℤ : ℤ → ℤ → Ordering
compare_ℤ a b = compare (pos_part a + neg_part b) (pos_part b + neg_part a)

-- `n > 0`.
abbrev pub is_positive : ℤ → Bool
is_positive n = elim (compare 0 (pos_part n)) [ Ordering.lt ↦ true | _ ↦ false ]
