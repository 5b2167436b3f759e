-- ===== src/Registry.antt =====
-- The system calls that modules register (syscall_module/syscall_tbl.c): get_syscall,
-- register_syscall, unregister_syscall and their comparator.
-- What kmalloc returns is an argument: the address and the bytes that stand there, or none. So are
-- the bytes of the uninitialised `temp_syscall.name`, and the kernel's module_refcount.
pub mod Search
pub mod Operations
pub mod Unregister
use perprocess_syscall_tbl.Prelude.{
  ℕ, ℤ, pos, Bool, Option, none, some, List, ltb, if◌then◌else◌, is_some,
}
use perprocess_syscall_tbl.Strings.{strlen, strncpy, strncmp}
use perprocess_syscall_tbl.Ring.{add_node, get_node, remove_node}
use perprocess_syscall_tbl.Kernel.{
  Ptr, Syscall, ModuleCall, State, M, pure, fault, done, ◌>>=◌, ◌>>◌, read, gets, update, spin_lock,
  spin_unlock, try_module_get, put_module, store, load_syscall, syscall_node, einval, enoent,
  enomem, ebusy,
}

abbrev pub max_name_length : ℕ
max_name_length = 64

unfoldable pub cmp_syscall_by_name : Syscall → Syscall → ℤ
cmp_syscall_by_name first second = strncmp second.name first.name max_name_length

-- A syscall_t of which only the name is filled in.
abbrev pub named : List ℕ → Syscall
named name = record { name = name; fptr = 0; syscall_num = pos 0; module_ptr = 0 }

unfoldable pub get_syscall : List ℕ → List ℕ → M (Option ℕ)
unfolding strlen
get_syscall temp name =
    if ltb 63 (strlen name)
    then pure none
    else read λ s. get_node s.heap cmp_syscall_by_name (named (strncpy temp name 63)) s.syscall_list

-- add_node on `syscall_list`.
unfoldable pub link_syscall : Ptr → M (Unit {0})
link_syscall p = do
  nodes ← read (λ s. add_node s.heap cmp_syscall_by_name p s.syscall_list)
  update (λ s. record s { syscall_list = nodes })

-- What kmalloc returned: an address, and what the name's bytes hold there.
pub record Block : Type 0 where
  pub addr : Ptr
  pub bytes : List ℕ

-- register_syscall behind the allocation of the node.
unfoldable pub register_node : List ℕ → List ℕ → Ptr → M ℤ
unfolding spin_lock spin_unlock try_module_get store
register_node temp name p = do
  spin_lock
  found ← get_syscall temp name
  if is_some found then (do spin_unlock; store p none; pure einval) else (do
    link_syscall p
    self ← gets (λ s. s.syscall_module)
    try_module_get self
    spin_unlock
    pure (pos 0))

unfoldable pub register_syscall : List ℕ → Option Block → List ℕ → ℕ → ℤ → Ptr → M ℤ
unfolding register_node store strlen
register_syscall temp block name fptr syscall_num module_ptr =
    if ltb 63 (strlen name) then pure einval else elim block [
      | none ↦ pure enomem
      | some b ↦ (do
        store b.addr (
            some (record {
              name = strncpy b.bytes name 63;
              fptr = fptr;
              syscall_num = syscall_num;
              module_ptr = module_ptr;
            }))
        register_node temp name b.addr)
    ]

-- remove_node and kfree of the node at a position of `syscall_list`.
unfoldable pub drop_syscall : ℕ → M (Unit {0})
unfolding syscall_node store
drop_syscall i = do
  p ← syscall_node i
  update (λ s. record s { syscall_list = remove_node s.syscall_list i })
  store p none

-- `module_refcount m log` is the kernel's count for the module `m` after those calls.
module _ (module_refcount : Ptr → List ModuleCall → ℕ) where
  unfoldable pub unregister_syscall : List ℕ → List ℕ → M ℤ
  unfolding spin_lock spin_unlock syscall_node load_syscall drop_syscall put_module
  unregister_syscall temp name = do
    spin_lock
    found ← get_syscall temp name
    elim found [
      | none ↦ (do spin_unlock; pure enoent)
      | some i ↦ (do
        p ← syscall_node i
        c ← load_syscall p
        used ← gets (λ s. module_refcount c.module_ptr s.module_log)
        if ltb 1 used then (do spin_unlock; pure ebusy) else (do
          drop_syscall i
          self ← gets (λ s. s.syscall_module)
          put_module self
          spin_unlock
          pure (pos 0)))
    ]
