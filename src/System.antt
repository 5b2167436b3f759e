-- ===== src/System.antt =====
-- The table as a whole: the operations that syscall_module/syscall_tbl.c exports, as one type, what a
-- caller has to observe, and the states that sequences of calls lead to.
pub mod Invariant
pub mod Spares
pub mod Keeps
pub mod Frame
pub mod Registering
pub mod Listing
pub mod Mapped
pub mod Blocks
pub mod Reach
pub mod Isolation
pub mod Retire
pub mod Bits
pub mod Mappings
use perprocess_syscall_tbl.Prelude.{
  ℕ, ◌*◌, ◌<◌, ◌≡◌, ◌≢◌, ◌⊎◌, ℤ, pos, ◌<ℤ◌, Bool, Option, none, some, List, All, length, get_elem?,
  is_some, true,
}
use perprocess_syscall_tbl.Strings.{c_str}
use perprocess_syscall_tbl.Kernel.{Ptr, Syscall, ModuleCall, Task, State, M}
use perprocess_syscall_tbl.Registry.{Block, register_syscall, unregister_syscall}
use perprocess_syscall_tbl.Registry.Search.{IsShort}
use perprocess_syscall_tbl.Vectors.{num_syscalls, add_syscall_vector, remove_syscall_vector}
use perprocess_syscall_tbl.Vectors.Search.{position}
use perprocess_syscall_tbl.Mapping.{add_syscall_to_vector, remove_syscall_from_vector}
use perprocess_syscall_tbl.Assignment.{
  assign_syscall_vector, unassign_syscall_vector, reassign_syscall_vector,
}
use perprocess_syscall_tbl.Assignment.Branches.{process}
use perprocess_syscall_tbl.Blocking.{block_syscall_num, unblock_syscall_num}

-- A call of an exported operation, with what it finds in uninitialised memory and gets from kmalloc.
pub data Call : Type 0 where
  register :
      (temp : List ℕ) (memory : Option Block) (name : List ℕ) (fptr : ℕ) (num : ℤ) (m : Ptr) → Call
  unregister : (temp name : List ℕ) → Call
  add_vector : (allocated : Bool) → Call
  remove_vector : (id : ℤ) → Call
  add_mapping : (temp : List ℕ) (allocated : Bool) (id : ℤ) (name : List ℕ) → Call
  remove_mapping : (temp : List ℕ) (id : ℤ) (name : List ℕ) → Call
  assign : (id pid : ℤ) → Call
  unassign : (pid : ℤ) → Call
  reassign : (id pid : ℤ) → Call
  block : (id num : ℤ) → Call
  unblock : (id num : ℤ) → Call

-- No vector of the table holds a record with the name.
abbrev pub Unheld : List ℕ → State → Type 0
Unheld name s =
    All
      (λ v.
        All (λ p. (c : Syscall) → s.heap p ≡ some c → c_str c.name ≢ c_str name) v.syscall_num_list)
      s.vector_list

-- A fresh block of memory with room for the name.
abbrev pub Fresh : Option Block → State → Type 0
Fresh none s = Unit
Fresh (some b) s = (length b.bytes ≡ 64) × (s.heap b.addr ≡ none)

-- A number within the bitmap of a vector that there is.
abbrev pub InRange : ℤ → ℤ → State → Type 0
InRange id num s =
    (is_some (position id s.vector_list) ≡ true) × (n : ℕ) × (num ≡ pos n) × (n < 8 * num_syscalls)

-- What a caller observes: names shorter than 63 bytes, no unregistration of a system call in use, a
-- free id for a new vector, processes that there are and a first vector only for those without one,
-- and blocked numbers only of a vector that there is, within its bitmap.
abbrev pub Allowed : Call → State → Type 0
Allowed (register temp memory name fptr num m) s =
    (length temp ≡ 64) × IsShort name × Fresh memory s
Allowed (unregister temp name) s = (length temp ≡ 64) × IsShort name × Unheld name s
Allowed (add_vector allocated) s = All (λ v. v.id <ℤ pos 32767) s.vector_list
Allowed (remove_vector id) s = Unit
Allowed (add_mapping temp allocated id name) s = (length temp ≡ 64) × IsShort name
Allowed (remove_mapping temp id name) s = (length temp ≡ 64) × IsShort name
Allowed (assign id pid) s =
    (i : ℕ) × (t : Task) × (process pid s.tasks ≡ some i)
    × (get_elem? s.tasks i ≡ some t)
    × ((t.vector_id ≡ pos 0) ⊎ (t.vector_id ≡ id))
Allowed (unassign pid) s = (i : ℕ) × (process pid s.tasks ≡ some i)
Allowed (reassign id pid) s = Unit
Allowed (block id num) s = InRange id num s
Allowed (unblock id num) s = InRange id num s

-- The vector that a call changes, from its value: the new one, or the one that it names.
abbrev pub named : Call → ℤ → Option ℤ
named (register temp memory name fptr num m) rc = none
named (unregister temp name) rc = none
named (add_vector allocated) rc = some rc
named (remove_vector id) rc = some id
named (add_mapping temp allocated id name) rc = some id
named (remove_mapping temp id name) rc = some id
named (assign id pid) rc = none
named (unassign pid) rc = none
named (reassign id pid) rc = none
named (block id num) rc = some id
named (unblock id num) rc = some id

module _ (module_refcount : Ptr → List ModuleCall → ℕ) where
  abbrev pub perform : Call → M ℤ
  perform (register temp memory name fptr num m) = register_syscall temp memory name fptr num m
  perform (unregister temp name) = unregister_syscall module_refcount temp name
  perform (add_vector allocated) = add_syscall_vector allocated
  perform (remove_vector id) = remove_syscall_vector id
  perform (add_mapping temp allocated id name) = add_syscall_to_vector temp allocated id name
  perform (remove_mapping temp id name) = remove_syscall_from_vector temp id name
  perform (assign id pid) = assign_syscall_vector id pid
  perform (unassign pid) = unassign_syscall_vector pid
  perform (reassign id pid) = reassign_syscall_vector id pid
  perform (block id num) = block_syscall_num id num
  perform (unblock id num) = unblock_syscall_num id num
