-- ===== src/Clone.antt =====
-- The system call clone2 (clone2/sys_clone2.c) and its wrapper in user space
-- (clone2/sys_clone2_lib.c). _do_fork of the kernel and syscall of the C library are arguments, and so
-- is the hook _assign_syscall_vector, which is none while syscall_tbl.c is not loaded.
pub mod Child
pub mod Wrapper
use perprocess_syscall_tbl.Prelude.{
  ℕ, ◌+◌, ◌-◌, ◌/◌, ◌%◌, ℤ, pos, negsuc, ◌==ℤ◌, ltb_ℤ, Bool, true, false, not, ◌&&◌, Option, none,
  some, is_some, ◌==◌, ltb, if◌then◌else◌,
}
use perprocess_syscall_tbl.Kernel.{Ptr, M, pure, fault, ◌>>=◌, ◌>>◌, einval}

-- The arguments that clone2 passes to _do_fork.
pub record CloneArgs : Type 0 where
  pub clone_flags : ℕ
  pub newsp : ℕ
  pub parent_tidptr : Ptr
  pub child_tidptr : Ptr
  pub tls_val : ℕ

-- clone_flags & CLONE_SYSCALLS, bit 12.
unfoldable pub shares_syscalls : ℕ → Bool
shares_syscalls clone_flags = (clone_flags / 4096) % 2 == 1

-- The conversion of a long to pid_t.
unfoldable pub to_pid : ℤ → ℤ
to_pid (pos n) =
    if ltb (n % 4294967296) 2147483648
    then pos (n % 4294967296)
    else negsuc (4294967295 - n % 4294967296)
to_pid (negsuc n) =
    if ltb (n % 4294967296) 2147483648
    then negsuc (n % 4294967296)
    else pos (4294967295 - n % 4294967296)

-- The call through the hook; its value is not read.
unfoldable pub assign_child : Option (ℤ → ℤ → M ℤ) → ℤ → ℤ → M ℤ
unfolding to_pid
assign_child none vector_id pid = pure pid
assign_child (some assign) vector_id pid = do assign vector_id (to_pid pid); pure pid

unfoldable pub clone2 : (CloneArgs → M ℤ) → Option (ℤ → ℤ → M ℤ) → CloneArgs → ℤ → M ℤ
unfolding shares_syscalls assign_child
clone2 do_fork hook args vector_id = do
  pid ← do_fork args
  if not (shares_syscalls args.clone_flags) && not (vector_id ==ℤ pos 0)
      then assign_child hook vector_id pid
      else pure pid

-- init_sys_clone2 and exit_sys_clone2 on `sysptr`, which is none for NULL.
unfoldable pub init_sys_clone2 : {A : Type 0} → A → Option A → ℤ × Option A
init_sys_clone2 clone none = (pos 0, some clone)
init_sys_clone2 clone (some sysptr) = (pos 0, some sysptr)

unfoldable pub exit_sys_clone2 : {A : Type 0} → Option A → Option A
exit_sys_clone2 none = none
exit_sys_clone2 (some sysptr) = none

-- The wrapper's value and what it stored in errno.
pub record WrapperResult : Type 0 where
  pub rc : ℤ
  pub errno : Option ℤ

-- What the wrapper makes of the value of syscall.
unfoldable pub wrapper_result : ℤ → WrapperResult
unfolding to_pid
wrapper_result pid =
    if ltb_ℤ pid (pos 0)
    then record { rc = negsuc 0; errno = some (to_pid pid) }
    else record { rc = to_pid pid; errno = none }

-- A pointer 0 is NULL. `writable` says where eight bytes can be stored, and the store of the function
-- elsewhere is a fault. The system call gets the flags, the stack's top, at which the function stands, and
-- the vector.
unfoldable pub sys_clone2_wrapper :
    (Ptr → Bool) → (ℤ → Ptr → ℤ → M ℤ) → Ptr → Ptr → ℤ → ℤ → M WrapperResult
unfolding wrapper_result
sys_clone2_wrapper writable syscall fn stack_top flags vector_id =
    if fn == 0
    then pure (record { rc = einval; errno = none })
    else if stack_top == 0
    then pure (record { rc = einval; errno = none })
    else if not (writable stack_top)
    then (λ s. fault)
    else (do pid ← syscall flags stack_top vector_id; pure (wrapper_result pid))
