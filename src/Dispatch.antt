-- ===== src/Dispatch.antt =====
-- The lookup of the function that serves a system call (syscall_module/syscall_tbl.c):
-- get_syscall_of_syscall_vector, its comparator and get_syscall_fn.
pub mod Lookup
pub mod Order
pub mod Freed
pub mod Blocked
use perprocess_syscall_tbl.Prelude.{
  ℕ, ℤ, pos, ◌-◌, ◌^◌, Bool, true, false, Option, none, some, List, [], ◌-ℤ◌, if◌then◌else◌,
}
use perprocess_syscall_tbl.Ring.{get_node}
use perprocess_syscall_tbl.Kernel.{
  Ptr, Syscall, State, M, pure, fault, done, ◌>>=◌, ◌>>◌, lift, read, spin_lock, spin_unlock,
  load_vector, load_syscall, get_at,
}
use perprocess_syscall_tbl.Vectors.{get_syscall_vector}
use perprocess_syscall_tbl.Blocking.{is_syscall_blocked}

unfoldable pub cmp_syscall_by_syscall_num : Syscall → Syscall → ℤ
cmp_syscall_by_syscall_num first second = second.syscall_num -ℤ first.syscall_num

-- A syscall_t of which only the number is filled in.
abbrev pub numbered : ℤ → Syscall
numbered n = record { name = []; fptr = 0; syscall_num = n; module_ptr = 0 }

unfoldable pub get_syscall_of_syscall_vector : List Ptr → ℤ → M (Option ℕ)
get_syscall_of_syscall_vector nums n =
    read λ s. get_node s.heap cmp_syscall_by_syscall_num (numbered n) nums

-- -ENOENT and -ENOSYS as an unsigned long.
abbrev pub enoent_fn : ℕ
enoent_fn = 2 ^ 64 - 2

abbrev pub enosys_fn : ℕ
enosys_fn = 2 ^ 64 - 38

unfoldable pub get_syscall_fn : ℤ → ℤ → M ℕ
unfolding spin_lock spin_unlock load_vector load_syscall get_at
get_syscall_fn vector_id syscall_num = do
  spin_lock
  found ← get_syscall_vector vector_id
  elim found [
    | none ↦ (do spin_unlock; pure enoent_fn)
    | some i ↦ (do
      v ← load_vector i
      blocked ← lift (is_syscall_blocked syscall_num v.blocked)
      if blocked then (do spin_unlock; pure enosys_fn) else (do
        entry ← get_syscall_of_syscall_vector v.syscall_num_list syscall_num
        elim entry [
          | none ↦ (do spin_unlock; pure 0)
          | some k ↦ (do
            p ← get_at v.syscall_num_list k
            c ← load_syscall p
            spin_unlock
            pure c.fptr)
        ]))
  ]
