-- ===== src/Prelude/Int.antt =====
-- Signed integers over the native numbers, under the library's names (its ℤ stands on the unary ℕ).
-- The source's `i64` and `i32` values are such integers, with the wrap-around written out.
use Prim.Native.Nat.{ℕ, ◌%◌, ◌*◌, suc, ◌+◌, ◌-◌, ◌/◌, ◌≤◌}
use mathlib.Core.Path.{◌≡◌}
use mathlib.Core.Logic.{◌↔◌}
use mathlib.Core.Bool.{Bool, true}
use native.Mathlib.Omega.{arith}
use old_mongo_rust_driver.Prelude.Tests.{ltb, leb, ◌==◌, if◌then◌else◌}

-- `negsuc n` is -(n + 1).
pub data ℤ : Type 0 where
  pos : ℕ → ℤ
  negsuc : ℕ → ℤ

abbrev pub pos_part : ℤ → ℕ
pos_part (pos n) = n
pos_part (negsuc n) = 0

abbrev pub neg_part : ℤ → ℕ
neg_part (pos n) = 0
neg_part (negsuc n) = suc n

-- a - b, as an integer.
abbrev pub sub_ℕ : ℕ → ℕ → ℤ
sub_ℕ a b = if leb b a then pos (a - b) else negsuc (b - a - 1)

infixl 65 ◌+ℤ◌ ◌-ℤ◌
infixl 70 ◌*ℤ◌
infix 50 ◌≤ℤ◌ ◌<ℤ◌
unfoldable pub ◌+ℤ◌ : ℤ → ℤ → ℤ
a +ℤ b = sub_ℕ (pos_part a + pos_part b) (neg_part a + neg_part b)

unfoldable pub ◌-ℤ◌ : ℤ → ℤ → ℤ
a -ℤ b = sub_ℕ (pos_part a + neg_part b) (neg_part a + pos_part b)

unfoldable pub ◌*ℤ◌ : ℤ → ℤ → ℤ
a *ℤ b =
    sub_ℕ (pos_part a * pos_part b + neg_part a * neg_part b)
      (pos_part a * neg_part b + neg_part a * pos_part b)

abbrev pub ◌≤ℤ◌ : ℤ → ℤ → Type 0
a ≤ℤ b = pos_part a + neg_part b ≤ pos_part b + neg_part a

abbrev pub ◌<ℤ◌ : ℤ → ℤ → Type 0
a <ℤ b = suc (pos_part a + neg_part b) ≤ pos_part b + neg_part a

abbrev pub ltb_ℤ : ℤ → ℤ → Bool
ltb_ℤ a b = ltb (pos_part a + neg_part b) (pos_part b + neg_part a)

abbrev pub leb_ℤ : ℤ → ℤ → Bool
leb_ℤ a b = leb (pos_part a + neg_part b) (pos_part b + neg_part a)

abbrev pub eqb_ℤ : ℤ → ℤ → Bool
eqb_ℤ a b = pos_part a + neg_part b == pos_part b + neg_part a

-- One lemma for each operation lets `omega` work with the operations shut, at any depth.
pub +ℤ_parts :
    (a b : ℤ)
    → pos_part (a +ℤ b) + neg_part a + neg_part b ≡ neg_part (a +ℤ b) + pos_part a + pos_part b
unfolding ◌+ℤ◌
+ℤ_parts a b = ground arith

pub -ℤ_parts :
    (a b : ℤ)
    → pos_part (a -ℤ b) + neg_part a + pos_part b ≡ neg_part (a -ℤ b) + pos_part a + neg_part b
unfolding ◌-ℤ◌
-ℤ_parts a b = ground arith

pub eq_of_parts : (a b : ℤ) → pos_part a + neg_part b ≡ pos_part b + neg_part a → a ≡ b
eq_of_parts a b h = ground arith

pub *ℤ-pos : (a b : ℕ) → pos a *ℤ pos b ≡ pos (a * b)
unfolding ◌*ℤ◌
*ℤ-pos a b = grind arith

pub ruleset int_laws = (arith, +ℤ_parts, -ℤ_parts, eq_of_parts)

pub eqb_ℤ_iff : (a b : ℤ) → (eqb_ℤ a b ≡ true) ↔ (a ≡ b)
eqb_ℤ_iff a b = ground (arith, eq_of_parts a b)

-- `i64::MAX`
abbrev pub i64_max : ℤ
i64_max = pos 9223372036854775807

-- A sum or difference of two `i64` values, wrapped into their range.
abbrev pub wrap_i64 : ℤ → ℤ
wrap_i64 z =
    if ltb_ℤ i64_max z
    then z -ℤ pos 18446744073709551616
    else if ltb_ℤ z (negsuc 9223372036854775807)
    then z +ℤ pos 18446744073709551616
    else z

unfoldable pub add_i64 : ℤ → ℤ → ℤ
add_i64 a b = wrap_i64 (a +ℤ b)

unfoldable pub sub_i64 : ℤ → ℤ → ℤ
sub_i64 a b = wrap_i64 (a -ℤ b)

-- Signed division of Rust, towards zero, by a positive number.
unfoldable pub div_trunc : ℤ → ℕ → ℤ
div_trunc (pos n) d = pos (n / d)
div_trunc (negsuc n) d = sub_ℕ 0 (suc n / d)

-- In range, the wrapped sum is the sum.
pub add_i64_lem :
    (a b : ℤ) → negsuc 9223372036854775807 ≤ℤ a +ℤ b → a +ℤ b ≤ℤ i64_max → add_i64 a b ≡ a +ℤ b
unfolding add_i64
add_i64_lem a b lo hi = ground arith

-- `k * z`
unfoldable pub scale : ℕ → ℤ → ℤ
scale k (pos n) = pos (k * n)
scale k (negsuc n) = sub_ℕ 0 (k * suc n)

-- A sum or difference of two `i32` values, wrapped into their range.
abbrev pub wrap_i32 : ℤ → ℤ
wrap_i32 z =
    if ltb_ℤ (pos 2147483647) z
    then z -ℤ pos 4294967296
    else if ltb_ℤ z (negsuc 2147483647)
    then z +ℤ pos 4294967296
    else z

unfoldable pub add_i32 : ℤ → ℤ → ℤ
add_i32 a b = wrap_i32 (a +ℤ b)

unfoldable pub sub_i32 : ℤ → ℤ → ℤ
sub_i32 a b = wrap_i32 (a -ℤ b)

-- `as i32` on an unsigned number
unfoldable pub to_i32 : ℕ → ℤ
to_i32 n = wrap_i32 (pos (n % 4294967296))

-- The number of 32 bits that stands for an integer.
abbrev pub low_word : ℤ → ℕ
low_word (pos n) = n % 4294967296
low_word (negsuc n) = 4294967295 - n % 4294967296

-- A product of two `i32` values, wrapped into their range.
unfoldable pub mul_i32 : ℤ → ℤ → ℤ
unfolding to_i32
mul_i32 a b = to_i32 (low_word a * low_word b)

-- `as usize` on an `i32`
unfoldable pub as_usize : ℤ → ℕ
as_usize (pos n) = n
as_usize (negsuc n) = 18446744073709551616 - suc n

-- A difference of two `usize` values.
unfoldable pub sub_usize : ℕ → ℕ → ℕ
sub_usize a b = (a + 18446744073709551616 - b) % 18446744073709551616

pub add_i32-one : (k : ℕ) → suc k ≤ 2147483647 → add_i32 (pos k) (pos 1) ≡ pos (suc k)
unfolding add_i32
add_i32-one k h =
    ground (arith, +ℤ_parts (pos k) (pos 1), eq_of_parts (pos k +ℤ pos 1) (pos (suc k)))

pub add_i64-pos : (a b : ℕ) → a + b ≤ 9223372036854775807 → add_i64 (pos a) (pos b) ≡ pos (a + b)
unfolding add_i64
add_i64-pos a b h =
    ground (arith, +ℤ_parts (pos a) (pos b), eq_of_parts (pos a +ℤ pos b) (pos (a + b)))

pub sub_usize_lem : (a b : ℕ) → b ≤ a → a ≤ 2147483647 → sub_usize a b ≡ a - b
unfolding sub_usize
sub_usize_lem a b h k = omega arith

pub sub_i64-pos :
    (a b : ℕ) → b ≤ a → a ≤ 9223372036854775807 → sub_i64 (pos a) (pos b) ≡ pos (a - b)
unfolding sub_i64 ◌-ℤ◌
sub_i64-pos a b h k = ground arith
