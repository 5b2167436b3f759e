-- ===== src/Ioctl.antt =====
-- The device of syscall_module/hw3_ioctl.c: manipulate_syscalls, which copies the user's request and
-- passes it to the table. What kmalloc, copy_from_user and copy_to_user return is an argument: whether
-- a block was allocated, and how many bytes were not copied.
pub mod Numbers
pub mod Copies
pub mod Invariant
pub mod Operations
pub mod Reads
use perprocess_syscall_tbl.Prelude.{
  ℕ, ◌+◌, ℤ, pos, negsuc, ◌==◌, ◌==ℤ◌, ltb_ℤ, ◌-ℤ◌, Bool, true, false, not, ◌&&◌, Option, none,
  some, List, is_some, to_short, if◌then◌else◌,
}
use perprocess_syscall_tbl.Kernel.{State, M, pure, fault, done, ◌>>=◌, ◌>>◌, spin_lock, enomem}
use perprocess_syscall_tbl.Vectors.{add_syscall_vector, remove_syscall_vector}
use perprocess_syscall_tbl.Mapping.{add_syscall_to_vector, remove_syscall_from_vector}
use perprocess_syscall_tbl.Assignment.{reassign_syscall_vector, get_vector_by_pid}
use perprocess_syscall_tbl.Blocking.{block_syscall_num, unblock_syscall_num}
use perprocess_syscall_tbl.Report.{SyscallTblInfo, get_syscall_tbl_info}

-- The IOCTL_SYSCALL_TBL_… numbers; `other` is any number that the switch does not name.
pub data Command : Type 0 where
  add_vector remove_vector add_syscall_to_vector_cmd remove_syscall_from_vector_cmd : Command
  assign_vector_to_process get_vector_id_of_process get_info block unblock other : Command

-- struct myargs, as the user filled it in; `name` is none where the pointer is NULL.
pub record MyArgs : Type 0 where
  pub vector_id : ℤ
  pub syscall_num : ℤ
  pub name : Option (List ℕ)
  pub pid : ℤ

-- The answers of the kernel: the three allocations of the handler and the one of the table, the bytes
-- that each copy left, and what the stack holds under `temp_syscall`.
pub record Answers : Type 0 where
  pub arglist_allocated : Bool
  pub name_allocated : Bool
  pub sys_allocated : Bool
  pub node_allocated : Bool
  pub name_left : ℕ
  pub vector_id_left : ℕ
  pub syscall_num_left : ℕ
  pub pid_left : ℕ
  pub result_left : ℕ
  pub temp : List ℕ

-- The value of the handler, what it wrote to the user whole, and the blocks of kmalloc that it holds
-- when it returns.
pub record Reply : Type 0 where
  pub rc : ℤ
  pub vector_id : Option ℤ
  pub info : Option SyscallTblInfo
  pub blocks : ℕ

-- A return that frees all, and one that jumps to `out_name` past the kfree of `arglist->sys`.
abbrev pub reply : ℤ → Reply
reply rc = record { rc = rc; vector_id = none; info = none; blocks = 0 }

abbrev pub reply_out_name : ℤ → Reply
reply_out_name rc = record { rc = rc; vector_id = none; info = none; blocks = 1 }

-- `if (rc < 0) goto out_name;`
unfoldable pub finish : ℤ → Reply
finish rc = if ltb_ℤ rc (pos 0) then reply_out_name rc else reply rc

-- -1 * rc for the bytes that a copy left.
abbrev pub minus : ℕ → ℤ
minus n = pos 0 -ℤ pos n

-- A call with `arglist->name`: strlen of a NULL pointer under the lock is a fault.
unfoldable pub with_name : Bool → Option (List ℕ) → (List ℕ → M ℤ) → M ℤ
with_name allocated none f = if allocated then spin_lock >> (λ s. fault) else pure enomem
with_name allocated (some name) f = f name

-- init_ioctl_module and exit_ioctl_module over the kernel's register_chrdev and unregister_chrdev on its
-- table of character devices. What init_ioctl_module prints of an error is left out.
unfoldable pub init_ioctl_module : {D : Type 0} → (ℕ → D → ℤ × D) → D → ℤ × D
init_ioctl_module register_chrdev devices = register_chrdev 229 devices

unfoldable pub exit_ioctl_module : {D : Type 0} → (ℕ → D → D) → D → D
exit_ioctl_module unregister_chrdev devices = unregister_chrdev 229 devices

-- The switch. `a` holds the copied fields.
unfoldable pub dispatch : Answers → Command → MyArgs → M Reply
unfolding finish with_name
dispatch k add_vector a = do rc ← add_syscall_vector k.node_allocated; pure (finish rc)
dispatch k remove_vector a = do rc ← remove_syscall_vector a.vector_id; pure (finish rc)
dispatch k add_syscall_to_vector_cmd a = do
  rc ← with_name k.node_allocated a.name (add_syscall_to_vector k.temp k.node_allocated a.vector_id)
  pure (finish rc)
dispatch k remove_syscall_from_vector_cmd a = do
  rc ← with_name true a.name (remove_syscall_from_vector k.temp a.vector_id)
  pure (finish rc)
dispatch k assign_vector_to_process a = do
  rc ← reassign_syscall_vector a.vector_id a.pid
  pure (finish rc)
dispatch k get_vector_id_of_process a = do
  rc ← get_vector_by_pid a.pid
  if ltb_ℤ rc (pos 0)
      then pure (reply_out_name rc)
      else pure (record (reply (pos k.result_left)) {
        vector_id = if k.result_left == 0 then some (to_short rc) else none;
      })
dispatch k get_info a = do
  (rc, info) ← get_syscall_tbl_info
  pure
      (record (reply (pos k.result_left)) { info = if k.result_left == 0 then some info else none })
dispatch k block a = do rc ← block_syscall_num a.vector_id a.syscall_num; pure (reply rc)
dispatch k unblock a = do rc ← unblock_syscall_num a.vector_id a.syscall_num; pure (reply rc)
dispatch k other a = pure (reply (pos 0))

-- Whether a copy that is made only for a field that is set left bytes behind.
abbrev pub copy_failed : Bool → ℕ → Bool
copy_failed is_set left = is_set && not (left == 0)

unfoldable pub manipulate_syscalls : Answers → Command → MyArgs → M Reply
unfolding dispatch
manipulate_syscalls k cmd src =
    if not k.arglist_allocated
    then pure (reply enomem)
    else if is_some src.name && not k.name_allocated
    then pure (reply enomem)
    else if copy_failed (is_some src.name) k.name_left
    then pure (reply (minus k.name_left))
    else if copy_failed (not (src.vector_id ==ℤ pos 0)) k.vector_id_left
    then pure (reply (minus k.vector_id_left))
    else if copy_failed (not (src.syscall_num ==ℤ pos 0)) k.syscall_num_left
    then pure (reply (minus k.syscall_num_left))
    else if copy_failed (not (src.pid ==ℤ pos 0)) k.pid_left
    then pure (reply (minus k.pid_left))
    else if not k.sys_allocated
    then pure (reply (pos 0))
    else dispatch k cmd src
