-- ===== src/Module.antt =====
-- The start and the end of the table's module (syscall_module/syscall_tbl.c): init_syscall_tbl and
-- exit_syscall_tbl, which set the hooks that the kernel calls.
use perprocess_syscall_tbl.Prelude.{
  ◌≡◌, ℤ, pos, Bool, false, Option, none, some, List, [], ◌∷◌, All, if◌then◌else◌, inl, ℕ,
}
use perprocess_syscall_tbl.Kernel.{Ptr, Syscall, Task, State, M, enomem}
use perprocess_syscall_tbl.Assignment.{assign_syscall_vector, unassign_syscall_vector}
use perprocess_syscall_tbl.Assignment.Invariant.{Placed}
use perprocess_syscall_tbl.Dispatch.{get_syscall_fn}

-- The kernel's hooks, the pointers syscall_tbl and SYSCALL_MODULE; none stands for NULL.
pub record Globals : Type 0 where
  pub _assign_syscall_vector : Option (ℤ → ℤ → M ℤ)
  pub _unassign_syscall_vector : Option (ℤ → M ℤ)
  pub _get_syscall_fn : Option (ℤ → ℤ → M ℕ)
  pub syscall_module : Option Ptr
  pub syscall_tbl : Option State

-- The table with its lock free and its two rings empty.
unfoldable pub empty_table : Ptr → (Ptr → Option Syscall) → List Task → State
empty_table this_module heap tasks = record {
  lock = false;
  vector_list = [];
  syscall_list = [];
  heap = heap;
  syscall_module = this_module;
  module_log = [];
  tasks = tasks;
}

-- `allocated` says whether kmalloc returned memory. What else is in memory, and the kernel's tasks,
-- are arguments.
unfoldable pub init_syscall_tbl :
    Bool → Ptr → (Ptr → Option Syscall) → List Task → Globals → ℤ × Globals
unfolding empty_table
init_syscall_tbl allocated this_module heap tasks g =
    if allocated
    then (
      pos 0,
      record {
        _assign_syscall_vector = some assign_syscall_vector;
        _unassign_syscall_vector = some unassign_syscall_vector;
        _get_syscall_fn = some get_syscall_fn;
        syscall_module = some this_module;
        syscall_tbl = some (empty_table this_module heap tasks);
      },
    )
    else (enomem, record g { syscall_tbl = none })

unfoldable pub exit_syscall_tbl : Globals → Globals
exit_syscall_tbl g = record {
  _assign_syscall_vector = none;
  _unassign_syscall_vector = none;
  _get_syscall_fn = none;
  syscall_module = none;
  syscall_tbl = none;
}

pub default_Placed : (ts : List Task) → All (λ t. t.vector_id ≡ pos 0) ts → All (Placed []) ts
default_Placed [] h = tt
default_Placed (t ∷ ts) h = (inl h.0, default_Placed ts h.1)
