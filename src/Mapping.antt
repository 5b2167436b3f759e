-- ===== src/Mapping.antt =====
-- The system calls of a vector (syscall_module/syscall_tbl.c): add_syscall_to_vector and
-- remove_syscall_from_vector. A node of `syscall_num_list` is the pointer that it holds.
pub mod Operations
pub mod Effects
pub mod Modules
use perprocess_syscall_tbl.Prelude.{
  ℕ, ℤ, pos, negsuc, Bool, none, some, List, is_some, if◌then◌else◌,
}
use perprocess_syscall_tbl.Ring.{add_node, remove_node}
use perprocess_syscall_tbl.Kernel.{
  Ptr, SyscallVector, M, pure, ◌>>=◌, ◌>>◌, read, spin_lock, spin_unlock, try_module_get,
  put_module, load_syscall, syscall_node, load_vector, set_vector, enoent, enomem,
}
use perprocess_syscall_tbl.Registry.{get_syscall}
use perprocess_syscall_tbl.Vectors.{get_syscall_vector}
use perprocess_syscall_tbl.Dispatch.{cmp_syscall_by_syscall_num, get_syscall_of_syscall_vector}

-- add_node on the list of the vector at a position.
unfoldable pub link_num : ℕ → SyscallVector → Ptr → M (Unit {0})
unfolding set_vector
link_num i v p = do
  nums ← read (λ s. add_node s.heap cmp_syscall_by_syscall_num p v.syscall_num_list)
  set_vector i (λ u. record u { syscall_num_list = nums })

unfoldable pub add_syscall_to_vector : List ℕ → Bool → ℤ → List ℕ → M ℤ
unfolding spin_lock spin_unlock try_module_get load_syscall syscall_node load_vector link_num
add_syscall_to_vector temp allocated vector_id name =
    if allocated
    then (do
      spin_lock
      found ← get_syscall temp name
      elim found [
        | none ↦ (do spin_unlock; pure enoent)
        | some k ↦ (do
          p ← syscall_node k
          vector ← get_syscall_vector vector_id
          elim vector [
            | none ↦ (do spin_unlock; pure enoent)
            | some i ↦ (do
              v ← load_vector i
              c ← load_syscall p
              present ← get_syscall_of_syscall_vector v.syscall_num_list c.syscall_num
              if is_some present
                  then (do spin_unlock; pure (negsuc 0))
                  else (do try_module_get c.module_ptr; link_num i v p; spin_unlock; pure (pos 0)))
          ])
      ])
    else pure enomem

unfoldable pub remove_syscall_from_vector : List ℕ → ℤ → List ℕ → M ℤ
unfolding spin_lock spin_unlock put_module load_syscall syscall_node load_vector set_vector
    remove_node
remove_syscall_from_vector temp vector_id name = do
  spin_lock
  found ← get_syscall temp name
  elim found [
    | none ↦ (do spin_unlock; pure enoent)
    | some k ↦ (do
      p ← syscall_node k
      vector ← get_syscall_vector vector_id
      elim vector [
        | none ↦ (do spin_unlock; pure enoent)
        | some i ↦ (do
          v ← load_vector i
          c ← load_syscall p
          entry ← get_syscall_of_syscall_vector v.syscall_num_list c.syscall_num
          elim entry [
            | none ↦ (do spin_unlock; pure enoent)
            | some j ↦ (do
              put_module c.module_ptr
              set_vector i (λ u. record u { syscall_num_list = remove_node u.syscall_num_list j })
              spin_unlock
              pure (pos 0))
          ])
      ])
  ]
