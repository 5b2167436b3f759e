-- ===== src/Blocking/Bits.antt =====
-- The operations on one byte of the bitmap, checked at every byte and every pair of positions.
use perprocess_syscall_tbl.Prelude.{
  ℕ-eq-cases, inl, inr, ℕ, zero, suc, ◌<◌, ◌≡◌, refl, Bool, true, false, ◌&&◌, arith, ltb, ◌==◌,
  if◌then◌else◌,
}
use perprocess_syscall_tbl.Blocking.{test_bit, set_bit, clear_bit}

abbrev same : Bool → Bool → Bool
same true b = b
same false true = false
same false false = true

same_eq : (a b : Bool) → same a b ≡ true → a ≡ b
same_eq true b h = ground arith
same_eq false true h = ground arith
same_eq false false h = refl

-- Whether a test passes at every number under a bound.
unfoldable every : (ℕ → Bool) → ℕ → Bool
every ok zero = true
every ok (suc k) = every ok k && ok k

every-lt : (ok : ℕ → Bool) (k : ℕ) → every ok k ≡ true → (x : ℕ) → x < k → ok x ≡ true
unfolding every
every-lt ok zero all x inside = elim inside [ ]
every-lt ok (suc k) all x inside = elim (ℕ-eq-cases x k) [
  | inl here ↦ rw here (ground arith)
  | inr below ↦ every-lt ok k (ground arith) x (omega arith)
]

-- Whether `g` writes `b` at the position `k` and leaves the others, and the result is a byte.
abbrev writes : (ℕ → ℕ → ℕ) → Bool → ℕ → ℕ → ℕ → Bool
writes g b c k j = ltb (g c k) 256 && same (test_bit (g c k) j) (if j == k then b else test_bit c j)

unfoldable all_writes : (ℕ → ℕ → ℕ) → Bool → Bool
unfolding every
all_writes g b = every (λ c. every (λ k. every (λ j. writes g b c k j) 8) 8) 256

all_writes_sound :
    (g : ℕ → ℕ → ℕ) (b : Bool) (c k j : ℕ)
    → all_writes g b ≡ true
    → c < 256
    → k < 8
    → j < 8
    → writes g b c k j ≡ true
unfolding all_writes
all_writes_sound g b c k j h hc hk hj =
    let at_byte = every-lt (λ x. every (λ y. every (λ z. writes g b x y z) 8) 8) 256 h c hc in
    let at_bit = every-lt (λ y. every (λ z. writes g b c y z) 8) 8 at_byte k hk in
    every-lt (λ z. writes g b c k z) 8 at_bit j hj

set_bit-writes : all_writes set_bit true ≡ true
unfolding all_writes set_bit test_bit
set_bit-writes = refl

clear_bit-writes : all_writes clear_bit false ≡ true
unfolding all_writes clear_bit test_bit
clear_bit-writes = refl

-- What the bitmap needs of an operation on a byte that writes the bit `b`.
pub record IsBitWrite (g : ℕ → ℕ → ℕ) (b : Bool) : Type 0 where
  pub byte : (c k : ℕ) → c < 256 → k < 8 → g c k < 256
  pub bit :
      (c k j : ℕ)
      → c < 256
      → k < 8
      → j < 8
      → test_bit (g c k) j ≡ (if j == k then b else test_bit c j)

all_writes-IsBitWrite : (g : ℕ → ℕ → ℕ) (b : Bool) → all_writes g b ≡ true → IsBitWrite g b
all_writes-IsBitWrite g b h = record {
  byte = λ c k hc hk. ground (arith, all_writes_sound g b c k 0 h hc hk);
  bit = λ c k j hc hk hj. same_eq _ _ (ground (arith, all_writes_sound g b c k j h hc hk hj));
}

pub set_bit-IsBitWrite : IsBitWrite set_bit true
set_bit-IsBitWrite = all_writes-IsBitWrite set_bit true set_bit-writes

pub clear_bit-IsBitWrite : IsBitWrite clear_bit false
clear_bit-IsBitWrite = all_writes-IsBitWrite clear_bit false clear_bit-writes
