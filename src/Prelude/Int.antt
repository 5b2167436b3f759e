-- ===== src/Prelude/Int.antt =====
-- Signed C integers: ℤ over the native numbers, its order and its Boolean tests, and the conversion
-- to `short`.
use perprocess_syscall_tbl.Prelude.Tests.{ltb, leb, ◌==◌, if◌then◌else◌, Bool-cases}
use Prim.Native.Nat.{ℕ, suc, ◌+◌, ◌-◌, ◌%◌, ◌≤◌, ◌<◌}
use mathlib.Core.Path.{◌≡◌, refl, ap}
use mathlib.Core.Logic.{◌↔◌, ◌≢◌, ◌⊎◌, inl, inr}
use mathlib.Core.Bool.{Bool, true, false}
use native.Mathlib.Omega.{arith}

-- `negsuc n` is -(n + 1).
pub data ℤ : Type 0 where
  pos : ℕ → ℤ
  negsuc : ℕ → ℤ

abbrev pub pos_part : ℤ → ℕ
pos_part (pos n) = n
pos_part (negsuc n) = 0

abbrev pub neg_part : ℤ → ℕ
neg_part (pos n) = 0
neg_part (negsuc n) = suc n

-- a - b, as an integer.
abbrev pub sub_ℕ : ℕ → ℕ → ℤ
sub_ℕ a b = if leb b a then pos (a - b) else negsuc (b - a - 1)

infixl 65 ◌+ℤ◌ ◌-ℤ◌
infix 50 ◌≤ℤ◌ ◌<ℤ◌ ◌==ℤ◌
unfoldable pub ◌+ℤ◌ : ℤ → ℤ → ℤ
a +ℤ b = sub_ℕ (pos_part a + pos_part b) (neg_part a + neg_part b)

unfoldable pub ◌-ℤ◌ : ℤ → ℤ → ℤ
a -ℤ b = sub_ℕ (pos_part a + neg_part b) (neg_part a + pos_part b)

abbrev pub ◌≤ℤ◌ : ℤ → ℤ → Type 0
a ≤ℤ b = pos_part a + neg_part b ≤ pos_part b + neg_part a

abbrev pub ◌<ℤ◌ : ℤ → ℤ → Type 0
a <ℤ b = pos_part a + neg_part b < pos_part b + neg_part a

abbrev pub leb_ℤ : ℤ → ℤ → Bool
leb_ℤ a b = leb (pos_part a + neg_part b) (pos_part b + neg_part a)

abbrev pub ltb_ℤ : ℤ → ℤ → Bool
ltb_ℤ a b = ltb (pos_part a + neg_part b) (pos_part b + neg_part a)

abbrev pub ◌==ℤ◌ : ℤ → ℤ → Bool
pos a ==ℤ pos b = a == b
pos a ==ℤ negsuc b = false
negsuc a ==ℤ pos b = false
negsuc a ==ℤ negsuc b = a == b

pub ==ℤ_iff : (a b : ℤ) → ((a ==ℤ b) ≡ true) ↔ (a ≡ b)
==ℤ_iff (pos a) (pos b) = ground arith
==ℤ_iff (pos a) (negsuc b) = ground arith
==ℤ_iff (negsuc a) (pos b) = ground arith
==ℤ_iff (negsuc a) (negsuc b) = ground arith

pub ==ℤ_refl : (a : ℤ) → (a ==ℤ a) ≡ true
==ℤ_refl a = (==ℤ_iff a a).1 refl

pub ℤ-eq-cases : (a b : ℤ) → (a ≡ b) ⊎ (a ≢ b)
ℤ-eq-cases a b = elim (Bool-cases (a ==ℤ b)) [
  | inl e ↦ inl ((==ℤ_iff a b).0 e)
  | inr e ↦ inr (λ h. cc ((==ℤ_iff a b).1 h))
]

pub ne→==ℤ : (a b : ℤ) → a ≢ b → (a ==ℤ b) ≡ false
ne→==ℤ a b h = elim (Bool-cases (a ==ℤ b)) [ inl e ↦ absurd (h ((==ℤ_iff a b).0 e)) | inr e ↦ e ]

pub lt→==ℤ : (a b : ℤ) → a <ℤ b → (a ==ℤ b) ≡ false
lt→==ℤ (pos a) (pos b) h = ground arith
lt→==ℤ (pos a) (negsuc b) h = refl
lt→==ℤ (negsuc a) (pos b) h = refl
lt→==ℤ (negsuc a) (negsuc b) h = ground arith

pub lt→ne : (a b : ℤ) → a <ℤ b → a ≢ b
lt→ne a b h e = absurd (omega (arith, ap pos_part e, ap neg_part e))

-- The tests that the list walks make of a comparator's difference.
pub -ℤ_eq_zero : (a b : ℤ) → (a -ℤ b ==ℤ pos 0) ≡ (b ==ℤ a)
unfolding ◌-ℤ◌
-ℤ_eq_zero (pos a) (pos b) = ground arith
-ℤ_eq_zero (pos a) (negsuc b) = ground arith
-ℤ_eq_zero (negsuc a) (pos b) = ground arith
-ℤ_eq_zero (negsuc a) (negsuc b) = ground arith

pub one_le-sub : (a b : ℤ) → leb_ℤ (pos 1) (a -ℤ b) ≡ ltb_ℤ b a
unfolding ◌-ℤ◌
one_le-sub (pos a) (pos b) = ground arith
one_le-sub (pos a) (negsuc b) = ground arith
one_le-sub (negsuc a) (pos b) = ground arith
one_le-sub (negsuc a) (negsuc b) = ground arith

pub gt_of_not_lt : (a b : ℤ) → ltb_ℤ a b ≡ false → (b ==ℤ a) ≡ false → b <ℤ a
gt_of_not_lt (pos a) (pos b) h k = ground arith
gt_of_not_lt (pos a) (negsuc b) h k = ground arith
gt_of_not_lt (negsuc a) (pos b) h k = ground arith
gt_of_not_lt (negsuc a) (negsuc b) h k = ground arith

-- Conversion to a 16-bit `short`: two's complement, as gcc defines it.
abbrev low_16 : ℤ → ℕ
low_16 (pos n) = n % 65536
low_16 (negsuc n) = 65535 - n % 65536

unfoldable pub to_short : ℤ → ℤ
to_short z = if ltb (low_16 z) 32768 then pos (low_16 z) else negsuc (65535 - low_16 z)

-- In range the conversion changes nothing.
pub to_short_lem : (z : ℤ) → negsuc 32767 ≤ℤ z → z ≤ℤ pos 32767 → to_short z ≡ z
unfolding to_short
to_short_lem (pos n) h k = ground arith
to_short_lem (negsuc n) h k = ground arith

-- One lemma for each operation lets `omega` work with the operations shut.
pub +ℤ_parts :
    (a b : ℤ)
    → pos_part (a +ℤ b) + neg_part a + neg_part b ≡ neg_part (a +ℤ b) + pos_part a + pos_part b
unfolding ◌+ℤ◌
+ℤ_parts a b = ground arith

pub -ℤ_parts :
    (a b : ℤ)
    → pos_part (a -ℤ b) + neg_part a + pos_part b ≡ neg_part (a -ℤ b) + pos_part a + neg_part b
unfolding ◌-ℤ◌
-ℤ_parts a b = ground arith

pub eq_of_parts : (a b : ℤ) → pos_part a + neg_part b ≡ pos_part b + neg_part a → a ≡ b
eq_of_parts a b h = ground arith

pub ruleset int_laws = (arith, +ℤ_parts, -ℤ_parts, eq_of_parts)
