-- ===== src/Prelude/Int.antt =====
-- Integers over the native numbers, and Go's `int` and `int64` on a 64-bit machine: addition that
-- wraps modulo 2 ^ 64.
use Prim.Native.Nat.{ℕ, suc, ◌+◌, ◌-◌, ◌%◌, ◌^◌, ◌≤◌, ◌<◌}
use mathlib.Core.Path.{◌≡◌}
use mathlib.Core.Bool.{Bool}
use native.Mathlib.Bridge.{le_prop}
use native.Mathlib.Omega.{arith}
use auto_store_api.Prelude.Tests.{ltb, leb, if◌then◌else◌}

-- `negsuc n` is -(n + 1).
pub data ℤ : Type 0 where
  pos : ℕ → ℤ
  negsuc : ℕ → ℤ

abbrev pub pos_part : ℤ → ℕ
pos_part (pos n) = n
pos_part (negsuc n) = 0

abbrev pub neg_part : ℤ → ℕ
neg_part (pos n) = 0
neg_part (negsuc n) = suc n

-- a - b, as an integer.
abbrev pub sub_ℕ : ℕ → ℕ → ℤ
sub_ℕ a b = if leb b a then pos (a - b) else negsuc (b - a - 1)

infixl 65 ◌+ℤ◌
infix 50 ◌≤ℤ◌ ◌<ℤ◌
unfoldable pub ◌+ℤ◌ : ℤ → ℤ → ℤ
a +ℤ b = sub_ℕ (pos_part a + pos_part b) (neg_part a + neg_part b)

abbrev pub -ℤ◌ : ℤ → ℤ
-ℤ◌ a = sub_ℕ (neg_part a) (pos_part a)

abbrev pub ◌≤ℤ◌ : ℤ → ℤ → Type 0
a ≤ℤ b = pos_part a + neg_part b ≤ pos_part b + neg_part a

abbrev pub ◌<ℤ◌ : ℤ → ℤ → Type 0
a <ℤ b = pos_part a + neg_part b < pos_part b + neg_part a

abbrev pub ltb_ℤ : ℤ → ℤ → Bool
ltb_ℤ a b = ltb (pos_part a + neg_part b) (pos_part b + neg_part a)

abbrev pub leb_ℤ : ℤ → ℤ → Bool
leb_ℤ a b = leb (pos_part a + neg_part b) (pos_part b + neg_part a)

pub +ℤ_parts :
    (a b : ℤ)
    → pos_part (a +ℤ b) + neg_part a + neg_part b ≡ neg_part (a +ℤ b) + pos_part a + pos_part b
unfolding ◌+ℤ◌
+ℤ_parts a b = ground arith

pub eq_of_parts : (a b : ℤ) → pos_part a + neg_part b ≡ pos_part b + neg_part a → a ≡ b
eq_of_parts a b h = ground arith

pub ruleset int_laws = (arith, +ℤ_parts, eq_of_parts)

abbrev half_range : ℕ
half_range = 2 ^ 63

abbrev word_range : ℕ
word_range = 2 ^ 64

-- The values of an `int`.
abbrev pub InInt64 : ℤ → Type 0
InInt64 a = (pos_part a < half_range) × (neg_part a ≤ half_range)

pub InInt64-prop : (a : ℤ) → IsProp (InInt64 a)
InInt64-prop a = hlevel le_prop

-- The two's complement word of a value, and the value of a word.
abbrev to_word : ℤ → ℕ
to_word (pos n) = n % word_range
to_word (negsuc n) = word_range - 1 - n % word_range

abbrev of_word : ℕ → ℤ
of_word n = if ltb n half_range then pos n else negsuc (word_range - 1 - n)

-- `a + b` and `-a` on `int`.
unfoldable pub add_int64 : ℤ → ℤ → ℤ
add_int64 a b = of_word ((to_word a + to_word b) % word_range)

unfoldable pub neg_int64 : ℤ → ℤ
neg_int64 a = of_word ((word_range - to_word a) % word_range)

-- Addition is exact wherever the sum is a value of the type.
pub add_int64-exact : (a b : ℤ) → InInt64 a → InInt64 b → InInt64 (a +ℤ b) → add_int64 a b ≡ a +ℤ b
unfolding ◌+ℤ◌ add_int64
add_int64-exact (pos a) (pos b) ha hb h = ground arith
add_int64-exact (pos a) (negsuc b) ha hb h = ground arith
add_int64-exact (negsuc a) (pos b) ha hb h = ground arith
add_int64-exact (negsuc a) (negsuc b) ha hb h = ground arith

-- A sum with a term that is not negative, and that does not come out negative, did not wrap.
pub add_int64-exact_nonneg :
    (a b : ℤ) → InInt64 a → InInt64 b → pos 0 ≤ℤ a → pos 0 ≤ℤ add_int64 a b → add_int64 a b ≡ a +ℤ b
unfolding ◌+ℤ◌ add_int64
add_int64-exact_nonneg (pos a) (pos b) ha hb p h = ground arith
add_int64-exact_nonneg (pos a) (negsuc b) ha hb p h = ground arith
add_int64-exact_nonneg (negsuc a) b ha hb p h = absurd (omega arith)

pub add_int64-InInt64 : (a b : ℤ) → InInt64 (add_int64 a b)
unfolding add_int64
add_int64-InInt64 a b = ground arith

-- Negation is exact but at the least value.
pub neg_int64-exact : (a : ℤ) → InInt64 a → pos 0 ≤ℤ a → neg_int64 a ≡ -ℤ◌ a
unfolding neg_int64
neg_int64-exact (pos a) ha p = ground arith
neg_int64-exact (negsuc a) ha p = absurd (omega arith)

pub neg_int64-InInt64 : (a : ℤ) → InInt64 (neg_int64 a)
unfolding neg_int64
neg_int64-InInt64 a = ground arith

-- What is taken off a stock by adding the negation of `q`, and does not come out negative.
pub add_int64-neg_int64 :
    (b q : ℤ)
    → InInt64 b
    → InInt64 q
    → pos 0 ≤ℤ b
    → pos 0 ≤ℤ add_int64 b (neg_int64 q)
    → b ≡ add_int64 b (neg_int64 q) +ℤ q
unfolding ◌+ℤ◌ add_int64 neg_int64
add_int64-neg_int64 (pos b) (pos q) hb hq p h = ground arith
add_int64-neg_int64 (pos b) (negsuc q) hb hq p h = ground arith
add_int64-neg_int64 (negsuc b) q hb hq p h = absurd (omega arith)

pub +ℤ_assoc : (a b c : ℤ) → (a +ℤ b) +ℤ c ≡ a +ℤ (b +ℤ c)
+ℤ_assoc a b c = omega int_laws

pub +ℤ_comm : (a b : ℤ) → a +ℤ b ≡ b +ℤ a
+ℤ_comm a b = omega int_laws

pub +ℤ-zero : (a : ℤ) → a +ℤ pos 0 ≡ a
+ℤ-zero a = omega int_laws
