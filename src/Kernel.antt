-- ===== src/Kernel.antt =====
-- The state that syscall_module/syscall_tbl.c works on, and the commands that read and write it.
-- A command ends with a result and a new state, with a fault (dead memory was read, or an array was
-- left), or with a deadlock (the spin lock was taken while it was held).
-- Module references are kept by the kernel: the model keeps the log of the calls, the newest first.
use perprocess_syscall_tbl.Prelude.{
  ℕ, ◌≡◌, ℤ, negsuc, Bool, true, false, Option, none, some, List, ◌∷◌, get_elem?, modify, ◌==◌,
  if◌then◌else◌,
}

abbrev pub Ptr : Type 0
Ptr = ℕ

-- struct syscall. `module` is the pointer of the module that registered it.
pub record Syscall : Type 0 where
  pub name : List ℕ
  pub fptr : ℕ
  pub syscall_num : ℤ
  pub module_ptr : ℕ

-- struct syscall_vector. The nodes of `syscall_num_list` point into registered system calls.
pub record SyscallVector : Type 0 where
  pub id : ℤ
  pub refcnt : ℤ
  pub blocked : List ℕ
  pub syscall_num_list : List Ptr

-- The fields of `struct task_struct` that the module reads and writes.
pub record Task : Type 0 where
  pub pid : ℤ
  pub vector_id : ℤ

-- The calls try_module_get(m) and module_put(m).
pub data ModuleCall : Type 0 where
  module_get module_put : Ptr → ModuleCall

-- struct syscall_tbl (the first three fields), the memory of the registered nodes, the module's own
-- pointer SYSCALL_MODULE, the log of module references and the kernel's task list.
pub record State : Type 0 where
  pub lock : Bool
  pub vector_list : List SyscallVector
  pub syscall_list : List Ptr
  pub heap : Ptr → Option Syscall
  pub syscall_module : Ptr
  pub module_log : List ModuleCall
  pub tasks : List Task

pub data Outcome (A : Type 0) : Type 0 where
  done : A → State → Outcome A
  fault : Outcome A
  deadlock : Outcome A

pub done-inj : {A : Type 0} {a b : A} {s t : State} → done a s ≡ done b t → a ≡ b
done-inj e = cc

abbrev pub M : Type 0 → Type 0
M A = State → Outcome A

abbrev pub pure : {A : Type 0} → A → M A
pure = done

module _ {A B : Type 0} where
  abbrev pub and_then : Outcome A → (A → M B) → Outcome B
  and_then (done a s) k = k a s
  and_then fault k = fault
  and_then deadlock k = deadlock

  infixl 5 ◌>>=◌ ◌>>◌
  abbrev pub ◌>>=◌ : M A → (A → M B) → M B
  m >>= k = λ s. and_then (m s) k

  abbrev pub ◌>>◌ : M A → M B → M B
  m >> n = m >>= λ _. n

abbrev pub lift : {A : Type 0} → Option A → M A
lift none s = fault
lift (some a) s = done a s

-- A read that may meet dead memory.
abbrev pub read : {A : Type 0} → (State → Option A) → M A
read f s = lift (f s) s

abbrev pub gets : {A : Type 0} → (State → A) → M A
gets f s = done (f s) s

abbrev pub update : (State → State) → M (Unit {0})
update f s = done tt (f s)

-- linux/errno.h, negated as the functions return them.
abbrev pub enoent : ℤ
enoent = negsuc 1

abbrev pub enomem : ℤ
enomem = negsuc 11

abbrev pub ebusy : ℤ
ebusy = negsuc 15

abbrev pub einval : ℤ
einval = negsuc 21

-- spin_lock(&syscall_tbl->lock) and spin_unlock on one processor.
unfoldable pub spin_lock : M (Unit {0})
spin_lock s = if s.lock then deadlock else done tt (record s { lock = true })

unfoldable pub spin_unlock : M (Unit {0})
spin_unlock = update λ s. record s { lock = false }

unfoldable pub try_module_get : Ptr → M (Unit {0})
try_module_get m = update λ s. record s { module_log = module_get m ∷ s.module_log }

unfoldable pub put_module : Ptr → M (Unit {0})
put_module m = update λ s. record s { module_log = module_put m ∷ s.module_log }

abbrev pub write : (Ptr → Option Syscall) → Ptr → Option Syscall → Ptr → Option Syscall
write h p c q = if p == q then c else h q

-- A write to a node that kmalloc returned, and kfree.
unfoldable pub store : Ptr → Option Syscall → M (Unit {0})
store p c = update λ s. record s { heap = write s.heap p c }

-- XNODE_DATA(node, syscall_t *) for a node of memory, for one of `syscall_list` and for a vector.
unfoldable pub load_syscall : Ptr → M Syscall
load_syscall p = read λ s. s.heap p

unfoldable pub syscall_node : ℕ → M Ptr
syscall_node i = read λ s. get_elem? s.syscall_list i

unfoldable pub load_vector : ℕ → M SyscallVector
load_vector i = read λ s. get_elem? s.vector_list i

unfoldable pub set_vector : ℕ → (SyscallVector → SyscallVector) → M (Unit {0})
unfolding modify
set_vector i f = update λ s. record s { vector_list = modify s.vector_list i f }

-- The data pointer of the node at a position of a vector's list.
unfoldable pub get_at : List Ptr → ℕ → M Ptr
get_at nums k = lift (get_elem? nums k)
