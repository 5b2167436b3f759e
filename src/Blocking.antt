-- ===== src/Blocking.antt =====
-- The bitmap of blocked numbers of a vector (syscall_module/syscall_tbl.c): is_syscall_blocked,
-- block_syscall_num and unblock_syscall_num.
-- A `char` of the bitmap is a byte 0 .. 255. A number below 0 or past the bitmap leaves the array, or
-- shifts by a negative count, which is a fault.
pub mod Bits
pub mod Bitmap
use perprocess_syscall_tbl.Prelude.{
  ℕ, ℤ, pos, negsuc, ◌-◌, ◌/◌, ◌%◌, ◌^◌, bit_and, bit_or, Bool, Option, none, some, List, ◌==◌,
  get_elem?, modify,
}
use perprocess_syscall_tbl.Kernel.{
  SyscallVector, State, M, pure, fault, done, ◌>>=◌, ◌>>◌, spin_lock, spin_unlock, load_vector,
  set_vector, enoent,
}
use perprocess_syscall_tbl.Vectors.{get_syscall_vector}

-- (c >> k) & 1
unfoldable pub test_bit : ℕ → ℕ → Bool
test_bit c k = (c / 2 ^ k) % 2 == 1

-- c | (1 << k)
unfoldable pub set_bit : ℕ → ℕ → ℕ
set_bit c k = bit_or c (2 ^ k)

-- c & ~(1 << k), of which the byte keeps the low 8 bits.
unfoldable pub clear_bit : ℕ → ℕ → ℕ
clear_bit c k = bit_and c (255 - 2 ^ k)

unfoldable pub is_syscall_blocked : ℤ → List ℕ → Option Bool
is_syscall_blocked (negsuc n) blocked = none
is_syscall_blocked (pos n) blocked = elim (get_elem? blocked (n / 8)) [
  | none ↦ none
  | some c ↦ some (test_bit c (n % 8))
]

-- blocked[n / 8] = g(blocked[n / 8], n % 8)
unfoldable pub update_bit : (ℕ → ℕ → ℕ) → ℤ → List ℕ → Option (List ℕ)
unfolding modify
update_bit g (negsuc n) blocked = none
update_bit g (pos n) blocked = elim (get_elem? blocked (n / 8)) [
  | none ↦ none
  | some c ↦ some (modify blocked (n / 8) (λ b. g b (n % 8)))
]

-- The body that the two functions share, but for the operation on the byte. It returns with the lock
-- held where the vector is not found: that exit has no spin_unlock.
unfoldable pub update_blocked : (ℕ → ℕ → ℕ) → ℤ → ℤ → M ℤ
unfolding get_syscall_vector spin_lock spin_unlock load_vector set_vector update_bit
update_blocked g vector_id syscall_num = do
  spin_lock
  found ← get_syscall_vector vector_id
  elim found [
    | none ↦ pure enoent
    | some i ↦ (do
      v ← load_vector i
      elim (update_bit g syscall_num v.blocked) [
        | none ↦ (λ s. fault)
        | some bits ↦ (do
          set_vector i (λ u. record u { blocked = bits })
          spin_unlock
          pure (pos 0))
      ])
  ]

unfoldable pub block_syscall_num : ℤ → ℤ → M ℤ
unfolding update_blocked set_bit
block_syscall_num vector_id syscall_num = update_blocked set_bit vector_id syscall_num

unfoldable pub unblock_syscall_num : ℤ → ℤ → M ℤ
unfolding update_blocked clear_bit
unblock_syscall_num vector_id syscall_num = update_blocked clear_bit vector_id syscall_num
