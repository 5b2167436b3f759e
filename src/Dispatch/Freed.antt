-- ===== src/Dispatch/Freed.antt =====
-- A system call that is unregistered while a vector still holds it.
use perprocess_syscall_tbl.Prelude.{
  ℕ, ◌≤◌, ◌≡◌, ℤ, pos, true, false, none, some, List, ◌∷◌, arith, length, get_elem?,
}
use perprocess_syscall_tbl.Strings.{c_str}
use perprocess_syscall_tbl.Ring.{get_node}
use perprocess_syscall_tbl.Kernel.{Ptr, Syscall, SyscallVector, State, ModuleCall, done, fault}
use perprocess_syscall_tbl.Registry.{unregister_syscall}
use perprocess_syscall_tbl.Registry.Search.{IsShort, name_position}
use perprocess_syscall_tbl.Registry.Operations.{IsRegistry}
use perprocess_syscall_tbl.Registry.Unregister.{unregister_syscall-drop, dropped}
use perprocess_syscall_tbl.Vectors.Search.{position, get_syscall_vector-position}
use perprocess_syscall_tbl.Blocking.{is_syscall_blocked}
use perprocess_syscall_tbl.Dispatch.{get_syscall_of_syscall_vector, get_syscall_fn}

freed_first :
    (p : Ptr) (rest : List Ptr) (n : ℤ) (s : State)
    → s.heap p ≡ none
    → get_syscall_of_syscall_vector (p ∷ rest) n s ≡ fault
unfolding get_syscall_of_syscall_vector get_node
freed_first p rest n s e = ground arith

-- A count of 1 lets unregister_syscall free a record that a vector still points at: it returns 0, and
-- then get_syscall_fn of any number of that vector that is not blocked reads the freed memory, where
-- the record is the first of the vector.
pub unregister_syscall_dangling :
    (module_refcount : Ptr → List ModuleCall → ℕ) (temp name : List ℕ) (s : State)
    (cs : List Syscall) (i : ℕ) (c : Syscall) (p : Ptr) (w n : ℤ) (j : ℕ) (v : SyscallVector)
    (rest : List Ptr)
    → length temp ≡ 64
    → IsShort name
    → IsRegistry s cs
    → name_position (c_str name) cs ≡ some i
    → get_elem? s.syscall_list i ≡ some p
    → s.heap p ≡ some c
    → module_refcount c.module_ptr s.module_log ≤ 1
    → position w s.vector_list ≡ some j
    → get_elem? s.vector_list j ≡ some v
    → v.syscall_num_list ≡ p ∷ rest
    → is_syscall_blocked n v.blocked ≡ some false
    → (t : State) × (unregister_syscall module_refcount temp name s ≡ done (pos 0) t)
      × (get_syscall_fn w n t ≡ fault)
unfolding get_syscall_fn
unregister_syscall_dangling count temp name s cs i c p w n j v rest full fits reg named node here
      idle found at held open_ =
    let t : State = dropped i p s in
    (
      t,
      unregister_syscall-drop count temp name s cs full fits reg i c p named node here idle,
      ground (
        arith,
        get_syscall_vector-position w (record t { lock = true }),
        freed_first p rest n (record t { lock = true }),
      ),
    )
