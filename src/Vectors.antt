-- ===== src/Vectors.antt =====
-- The system call vectors (syscall_module/syscall_tbl.c): get_syscall_vector, add_syscall_vector
-- with its search for a free id, remove_syscall_vector and their comparator.
-- A vector is held by value in the list, since nothing else points to it. Whether kmalloc succeeds
-- is an argument.
pub mod Ids
pub mod Search
pub mod Operations
use perprocess_syscall_tbl.Prelude.{
  ℕ, suc, ℤ, pos, Bool, Option, none, some, List, [], ◌∷◌, ◌+ℤ◌, ◌-ℤ◌, ltb_ℤ, to_short,
  if◌then◌else◌, replicate,
}
use perprocess_syscall_tbl.Ring.{get_node, add_node_end, remove_node}
use perprocess_syscall_tbl.Kernel.{
  Ptr, SyscallVector, State, M, pure, fault, done, ◌>>=◌, ◌>>◌, read, gets, update, spin_lock,
  spin_unlock, try_module_get, put_module, load_vector, enoent, enomem, ebusy,
}

-- NUM_SYSCALLS: (600 / 8) + 1.
abbrev pub num_syscalls : ℕ
num_syscalls = 76

unfoldable pub cmp_syscall_vector : SyscallVector → SyscallVector → ℤ
cmp_syscall_vector first second = second.id -ℤ first.id

-- A syscall_vector_t of which only the id is filled in.
abbrev pub with_id : ℤ → SyscallVector
with_id id = record { id = id; refcnt = pos 0; blocked = []; syscall_num_list = [] }

unfoldable pub get_syscall_vector : ℤ → M (Option ℕ)
get_syscall_vector id = read λ s. get_node some cmp_syscall_vector (with_id id) s.vector_list

-- The walk of __add_syscall_vector from the node `v`: the id of `node` and the position of
-- `tmp_node`, counted from `v`, when it ends. It stops before a gap, unless the node behind the gap
-- is the last one.
unfoldable pub find_gap : SyscallVector → List SyscallVector → ℤ × ℕ
find_gap v [] = (v.id, 1)
find_gap v (w ∷ []) = (w.id, 2)
find_gap v (w ∷ x ∷ rest) =
    let later = (let (id, i) = find_gap w (x ∷ rest) in let r : ℤ × ℕ = (id, suc i) in r) in
    if ltb_ℤ (pos 1) (w.id -ℤ v.id) then (v.id, 1) else later

-- __add_syscall_vector on the ring: the `index` that it returns, the id that it stores and the new
-- ring.
unfoldable pub place_vector : SyscallVector → List SyscallVector → ℤ × ℤ × List SyscallVector
unfolding find_gap
place_vector node [] = (pos 0, pos 1, record node { id = pos 1 } ∷ [])
place_vector node (v ∷ vs) =
    let (last, at) = find_gap v vs in
    let index = last +ℤ pos 1 in
    (index, to_short index, add_node_end (record node { id = to_short index }) (v ∷ vs) at)

unfoldable pub add_vector_node : SyscallVector → M (ℤ × ℤ)
unfolding place_vector
add_vector_node node s =
    let (index, id, ring) = place_vector node s.vector_list in
    done (index, id) (record s { vector_list = ring })

unfoldable pub empty_vector : SyscallVector
unfolding replicate
empty_vector = record {
  id = pos 0;
  refcnt = pos 0;
  blocked = replicate num_syscalls 0;
  syscall_num_list = [];
}

unfoldable pub add_syscall_vector : Bool → M ℤ
unfolding add_vector_node empty_vector spin_lock spin_unlock try_module_get
add_syscall_vector allocated =
    if allocated
    then (do
      spin_lock
      (index, id) ← add_vector_node empty_vector
      self ← gets (λ s. s.syscall_module)
      try_module_get self
      spin_unlock
      pure id)
    else pure enomem

unfoldable pub remove_syscall_vector : ℤ → M ℤ
unfolding get_syscall_vector load_vector spin_lock spin_unlock put_module
remove_syscall_vector vector_id = do
  spin_lock
  found ← get_syscall_vector vector_id
  elim found [
    | none ↦ (do spin_unlock; pure enoent)
    | some i ↦ (do
      v ← load_vector i
      if ltb_ℤ (pos 0) v.refcnt then (do spin_unlock; pure ebusy) else (do
        update (λ s. record s { vector_list = remove_node s.vector_list i })
        self ← gets (λ s. s.syscall_module)
        put_module self
        spin_unlock
        pure (pos 0)))
  ]
