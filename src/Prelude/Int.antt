-- ===== src/Prelude/Int.antt =====
-- Go's `int`: 64-bit two's complement. `negsuc n` is -(n + 1).
use Prim.Native.Nat.{ℕ, suc, ◌+◌, ◌*◌, ◌-◌, ◌%◌, ◌^◌, ◌≤◌, ◌<◌}
use mathlib.Core.Path.{◌≡◌}
use mathlib.Core.Bool.{Bool, true, false}
use native.Mathlib.Omega.{arith}
use package.magic_jigsaw.Prelude.Tests.{ltb, leb, ◌==◌, if◌then◌else◌}

pub data ℤ : Type 0 where
  pos : ℕ → ℤ
  negsuc : ℕ → ℤ

abbrev pub pos_part : ℤ → ℕ
pos_part (pos n) = n
pos_part (negsuc n) = 0

abbrev pub neg_part : ℤ → ℕ
neg_part (pos n) = 0
neg_part (negsuc n) = suc n

-- a - b, as an integer.
abbrev pub sub_ℕ : ℕ → ℕ → ℤ
sub_ℕ a b = if leb b a then pos (a - b) else negsuc (b - a - 1)

infixl 65 ◌+ℤ◌ ◌-ℤ◌
infix 50 ◌≤ℤ◌ ◌<ℤ◌
abbrev pub ◌+ℤ◌ : ℤ → ℤ → ℤ
a +ℤ b = sub_ℕ (pos_part a + pos_part b) (neg_part a + neg_part b)

abbrev pub ◌-ℤ◌ : ℤ → ℤ → ℤ
a -ℤ b = sub_ℕ (pos_part a + neg_part b) (neg_part a + pos_part b)

abbrev pub ◌≤ℤ◌ : ℤ → ℤ → Type 0
a ≤ℤ b = pos_part a + neg_part b ≤ pos_part b + neg_part a

abbrev pub ◌<ℤ◌ : ℤ → ℤ → Type 0
a <ℤ b = pos_part a + neg_part b < pos_part b + neg_part a

-- The tests `a <= b`, `a < b` and `a == b`.
abbrev pub int_le : ℤ → ℤ → Bool
int_le a b = leb (pos_part a + neg_part b) (pos_part b + neg_part a)

abbrev pub int_lt : ℤ → ℤ → Bool
int_lt a b = ltb (pos_part a + neg_part b) (pos_part b + neg_part a)

abbrev pub int_eq : ℤ → ℤ → Bool
int_eq (pos a) (pos b) = a == b
int_eq (pos a) (negsuc b) = false
int_eq (negsuc a) (pos b) = false
int_eq (negsuc a) (negsuc b) = a == b

pub int_eq-eq : (a b : ℤ) → int_eq a b ≡ true → a ≡ b
int_eq-eq (pos a) (pos b) h = ground arith
int_eq-eq (pos a) (negsuc b) h = ground arith
int_eq-eq (negsuc a) (pos b) h = ground arith
int_eq-eq (negsuc a) (negsuc b) h = ground arith

pub int_eq_self : (a : ℤ) → int_eq a a ≡ true
int_eq_self (pos a) = ground arith
int_eq_self (negsuc a) = ground arith

infixl 70 ◌*ℤ◌
abbrev pub ◌*ℤ◌ : ℤ → ℤ → ℤ
(pos a) *ℤ (pos b) = pos (a * b)
(pos a) *ℤ (negsuc b) = sub_ℕ 0 (a * suc b)
(negsuc a) *ℤ (pos b) = sub_ℕ 0 (suc a * b)
(negsuc a) *ℤ (negsuc b) = pos (suc a * suc b)

pub int_ext : (a b : ℤ) → pos_part a + neg_part b ≡ pos_part b + neg_part a → a ≡ b
int_ext (pos a) (pos b) h = ground arith
int_ext (pos a) (negsuc b) h = absurd (omega (arith, h))
int_ext (negsuc a) (pos b) h = absurd (omega (arith, h))
int_ext (negsuc a) (negsuc b) h = ground arith

-- The parts of a sum.
add_parts :
    (a b : ℤ)
    → pos_part (a +ℤ b) + (neg_part a + neg_part b) ≡ pos_part a + pos_part b + neg_part (a +ℤ b)
add_parts a b = ground arith

-- x + (y + z) and (x + y) + z
pub add_assoc : (x y z : ℤ) → x +ℤ (y +ℤ z) ≡ x +ℤ y +ℤ z
add_assoc x y z =
    int_ext (x +ℤ (y +ℤ z)) (x +ℤ y +ℤ z)
      (omega (arith, add_parts x (y +ℤ z), add_parts y z, add_parts (x +ℤ y) z, add_parts x y))

pub add_zero : (x : ℤ) → x +ℤ pos 0 ≡ x
add_zero x = int_ext (x +ℤ pos 0) x (omega (arith, add_parts x (pos 0)))

pub zero_add : (x : ℤ) → pos 0 +ℤ x ≡ x
zero_add x = int_ext (pos 0 +ℤ x) x (omega (arith, add_parts (pos 0) x))

-- The residue of an integer modulo 2^64, and the integer that a 64-bit pattern stands for.
abbrev pub to_word : ℤ → ℕ
to_word (pos n) = n % 2 ^ 64
to_word (negsuc n) = 2 ^ 64 - 1 - n % 2 ^ 64

abbrev pub of_word : ℕ → ℤ
of_word u = if ltb u (2 ^ 63) then pos u else negsuc (2 ^ 64 - 1 - u)

abbrev pub wrap : ℤ → ℤ
wrap z = of_word (to_word z)

-- Go's `a + b`, `a - b`, `a * b` and `-a` on `int`.
abbrev pub int_add : ℤ → ℤ → ℤ
int_add a b = wrap (a +ℤ b)

abbrev pub int_sub : ℤ → ℤ → ℤ
int_sub a b = wrap (a -ℤ b)

abbrev pub int_mul : ℤ → ℤ → ℤ
int_mul a b = wrap (a *ℤ b)

abbrev pub int_neg : ℤ → ℤ
int_neg a = wrap (pos 0 -ℤ a)
