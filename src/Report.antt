-- ===== src/Report.antt =====
-- The copy of the table for the user (syscall_module/syscall_tbl.c): get_syscall_tbl_info, which fills
-- the fixed arrays of struct syscall_tbl_info. A write outside an array is a fault, and the arrays up
-- to their `size` are lists. It takes no lock.
pub mod Entries
pub mod Show
use perprocess_syscall_tbl.Prelude.{
  ℕ, zero, suc, ◌+◌, ℤ, pos, Bool, Option, none, some, List, [], ◌∷◌, length, leb, ltb,
  if◌then◌else◌,
}
use perprocess_syscall_tbl.Strings.{c_str, strlen}
use perprocess_syscall_tbl.Kernel.{Ptr, Syscall, SyscallVector, State, M, done, lift, read}

-- struct syscall_vector_info: `syscalls[20][64]`, of which `size` names are filled in.
pub record SyscallVectorInfo : Type 0 where
  pub vector_id : ℤ
  pub size : ℕ
  pub syscalls : List (List ℕ)

-- struct syscall_tbl_info: `syscall_vector_info[10]`, of which `size` entries are filled in.
pub record SyscallTblInfo : Type 0 where
  pub size : ℕ
  pub syscall_vector_info : List SyscallVectorInfo

infixl 5 ◌>>=◌
abbrev ◌>>=◌ : {A B : Type 0} → Option A → (A → Option B) → Option B
none >>= f = none
some a >>= f = f a

-- The inner loop from its index `j` on: strcpy of each name into `syscalls[j]`.
unfoldable pub info_names : (Ptr → Option Syscall) → List Ptr → ℕ → Option (List (List ℕ))
unfolding strlen
info_names heap [] j = some []
info_names heap (p ∷ ps) j = do
  c ← heap p
  rest ← info_names heap ps (suc j)
  if leb 20 j then none else if ltb 63 (strlen c.name) then none else some (c_str c.name ∷ rest)

-- The outer loop from its index `i` on.
unfoldable pub info_vectors :
    (Ptr → Option Syscall) → List SyscallVector → ℕ → Option (List SyscallVectorInfo)
unfolding info_names
info_vectors heap [] i = some []
info_vectors heap (v ∷ vs) i = do
  names ← info_names heap v.syscall_num_list 0
  rest ← info_vectors heap vs (suc i)
  if leb 10 i
      then none
      else some (record { vector_id = v.id; size = length names; syscalls = names } ∷ rest)

unfoldable pub get_syscall_tbl_info : M (ℤ × SyscallTblInfo)
unfolding info_vectors
get_syscall_tbl_info = read λ s. do
  infos ← info_vectors s.heap s.vector_list 0
  some (pos 0, record { size = length infos; syscall_vector_info = infos })
