-- ===== src/Assignment.antt =====
-- Which vector a process uses (syscall_module/syscall_tbl.c): get_process_by_pid, get_vector_by_pid
-- and the three functions that change the `vector_id` of a task and the counts of the vectors.
-- for_each_process walks the list of tasks, and a pointer to a task is its position there.
pub mod Users
pub mod Counts
pub mod Invariant
pub mod Branches
pub mod Evacuation
pub mod Reassign
pub mod Assign
pub mod Lifecycle
use perprocess_syscall_tbl.Prelude.{
  ℕ, ℤ, pos, negsuc, Bool, true, false, not, ◌&&◌, Option, none, some, List, get_elem?, modify,
  find_idx, ◌+ℤ◌, ◌-ℤ◌, ◌==ℤ◌, to_short, if◌then◌else◌,
}
use perprocess_syscall_tbl.Kernel.{
  SyscallVector, Task, State, M, pure, fault, done, ◌>>=◌, ◌>>◌, lift, read, gets, update,
  spin_lock, spin_unlock, load_vector, set_vector, einval, enoent,
}
use perprocess_syscall_tbl.Vectors.{get_syscall_vector}

unfoldable pub get_process_by_pid : ℤ → M (Option ℕ)
unfolding find_idx
get_process_by_pid pid = gets λ s. find_idx (λ t. pid ==ℤ t.pid) s.tasks

unfoldable pub load_task : ℕ → M Task
load_task i = read λ s. get_elem? s.tasks i

unfoldable pub set_task : ℕ → ℤ → M (Unit {0})
unfolding modify
set_task i vector_id =
    update λ s. record s { tasks = modify s.tasks i (λ t. record t { vector_id = vector_id }) }

-- `refcnt += 1` and `refcnt -= 1` on a `short`.
unfoldable pub take_ref : SyscallVector → SyscallVector
take_ref v = record v { refcnt = to_short (v.refcnt +ℤ pos 1) }

unfoldable pub drop_ref : SyscallVector → SyscallVector
drop_ref v = record v { refcnt = to_short (v.refcnt -ℤ pos 1) }

unfoldable pub get_vector_by_pid : ℤ → M ℤ
unfolding get_process_by_pid load_task
get_vector_by_pid pid = do
  task ← get_process_by_pid pid
  elim task [ none ↦ pure einval | some i ↦ (do t ← load_task i; pure t.vector_id) ]

-- assign_syscall_vector from the point where the lock is taken.
unfoldable pub assign_task : ℤ → ℕ → M ℤ
unfolding get_syscall_vector spin_lock spin_unlock set_task set_vector take_ref
assign_task vector_id i = do
  spin_lock
  found ← get_syscall_vector vector_id
  elim found [
    | none ↦ (do spin_unlock; pure enoent)
    | some j ↦ (do set_task i vector_id; set_vector j take_ref; spin_unlock; pure (pos 0))
  ]

unfoldable pub assign_syscall_vector : ℤ → ℤ → M ℤ
unfolding get_process_by_pid load_task assign_task
assign_syscall_vector vector_id pid = do
  task ← get_process_by_pid pid
  elim task [
    | none ↦ pure einval
    | some i ↦ (do
      t ← load_task i
      if vector_id ==ℤ t.vector_id then pure (pos 0) else assign_task vector_id i)
  ]

-- unassign_syscall_vector from the point where the lock is taken.
unfoldable pub unassign_task : ℤ → ℕ → M ℤ
unfolding get_syscall_vector spin_lock spin_unlock load_vector set_task set_vector drop_ref
unassign_task vector_id i = do
  spin_lock
  found ← get_syscall_vector vector_id
  elim found [
    | none ↦ (do spin_unlock; pure enoent)
    | some j ↦ (do
      v ← load_vector j
      if v.refcnt ==ℤ pos 0
          then (do spin_unlock; pure (negsuc 0))
          else (do set_task i (pos 0); set_vector j drop_ref; spin_unlock; pure (pos 0)))
  ]

unfoldable pub unassign_syscall_vector : ℤ → M ℤ
unfolding get_process_by_pid load_task unassign_task
unassign_syscall_vector pid = do
  task ← get_process_by_pid pid
  elim task [
    | none ↦ pure einval
    | some i ↦ (do
      t ← load_task i
      if t.vector_id ==ℤ pos 0 then pure (pos 0) else unassign_task t.vector_id i)
  ]

-- reassign_syscall_vector between two vectors, from the point where the lock is taken.
unfoldable pub move_task : ℤ → ℤ → ℕ → M ℤ
unfolding get_syscall_vector spin_lock spin_unlock load_vector set_task set_vector take_ref drop_ref
move_task vector_id old_vector_id i = do
  spin_lock
  found ← get_syscall_vector vector_id
  elim found [
    | none ↦ (do spin_unlock; pure enoent)
    | some j ↦ (do
      old ← get_syscall_vector old_vector_id
      elim old [
        | none ↦ (do spin_unlock; pure enoent)
        | some k ↦ (do
          v ← load_vector k
          if v.refcnt ==ℤ pos 0 then (do spin_unlock; pure (negsuc 0)) else (do
            set_vector k drop_ref
            set_vector j take_ref
            set_task i vector_id
            spin_unlock
            pure (pos 0)))
      ])
  ]

unfoldable pub reassign_syscall_vector : ℤ → ℤ → M ℤ
unfolding get_process_by_pid load_task assign_syscall_vector unassign_syscall_vector move_task
reassign_syscall_vector vector_id pid = do
  task ← get_process_by_pid pid
  elim task [
    | none ↦ pure einval
    | some i ↦ (do
      t ← load_task i
      if vector_id ==ℤ t.vector_id
          then pure (pos 0)
          else if not (t.vector_id ==ℤ pos 0) && (vector_id ==ℤ pos 0)
          then unassign_syscall_vector pid
          else if (t.vector_id ==ℤ pos 0) && not (vector_id ==ℤ pos 0)
          then assign_syscall_vector vector_id pid
          else (do
            again ← get_process_by_pid pid
            elim again [ none ↦ pure einval | some i' ↦ move_task vector_id t.vector_id i' ]))
  ]
