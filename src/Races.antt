-- ===== src/Races.antt =====
-- reassign_syscall_vector on two processors at once (syscall_module/syscall_tbl.c). The function and the
-- two that it calls read `vector_id` of the task before they take the lock; a thread stops between these
-- reads and the part under the lock, and a schedule interleaves two threads.
pub mod Alone
pub mod Counts
use perprocess_syscall_tbl.Prelude.{
  ℕ, ℤ, pos, ◌==ℤ◌, Bool, true, false, not, ◌&&◌, none, some, List, [], ◌∷◌, if◌then◌else◌,
}
use perprocess_syscall_tbl.Kernel.{State, M, pure, ◌>>=◌, ◌>>◌, einval}
use perprocess_syscall_tbl.Assignment.{
  get_process_by_pid, load_task, assign_task, unassign_task, move_task,
}

-- Where a thread stands.
pub data Pc : Type 0 where
  begun : (vector_id pid : ℤ) → Pc  -- reassign_syscall_vector was called
  in_assign : (vector_id pid : ℤ) → Pc  -- it called assign_syscall_vector
  in_unassign : (pid : ℤ) → Pc  -- it called unassign_syscall_vector
  assigning : (vector_id : ℤ) (i : ℕ) → Pc  -- in front of the spin_lock of each of the three
  unassigning : (old : ℤ) (i : ℕ) → Pc
  moving : (vector_id old : ℤ) (i : ℕ) → Pc
  ended : (rc : ℤ) → Pc

-- The checks of the three functions, without the lock.
unfoldable pub check_reassign : ℤ → ℤ → M Pc
unfolding get_process_by_pid load_task
check_reassign vector_id pid = do
  task ← get_process_by_pid pid
  elim task [
    | none ↦ pure (ended einval)
    | some i ↦ (do
      t ← load_task i
      if vector_id ==ℤ t.vector_id
          then pure (ended (pos 0))
          else if not (t.vector_id ==ℤ pos 0) && (vector_id ==ℤ pos 0)
          then pure (in_unassign pid)
          else if (t.vector_id ==ℤ pos 0) && not (vector_id ==ℤ pos 0)
          then pure (in_assign vector_id pid)
          else (do
            again ← get_process_by_pid pid
            elim again [
              | none ↦ pure (ended einval)
              | some i' ↦ pure (moving vector_id t.vector_id i')
            ]))
  ]

unfoldable pub check_assign : ℤ → ℤ → M Pc
unfolding get_process_by_pid load_task
check_assign vector_id pid = do
  task ← get_process_by_pid pid
  elim task [
    | none ↦ pure (ended einval)
    | some i ↦ (do
      t ← load_task i
      if vector_id ==ℤ t.vector_id then pure (ended (pos 0)) else pure (assigning vector_id i))
  ]

unfoldable pub check_unassign : ℤ → M Pc
unfolding get_process_by_pid load_task
check_unassign pid = do
  task ← get_process_by_pid pid
  elim task [
    | none ↦ pure (ended einval)
    | some i ↦ (do
      t ← load_task i
      if t.vector_id ==ℤ pos 0 then pure (ended (pos 0)) else pure (unassigning t.vector_id i))
  ]

-- One step of a thread.
unfoldable pub advance : Pc → M Pc
unfolding check_reassign check_assign check_unassign assign_task unassign_task move_task
advance (begun vector_id pid) = check_reassign vector_id pid
advance (in_assign vector_id pid) = check_assign vector_id pid
advance (in_unassign pid) = check_unassign pid
advance (assigning vector_id i) = do rc ← assign_task vector_id i; pure (ended rc)
advance (unassigning old i) = do rc ← unassign_task old i; pure (ended rc)
advance (moving vector_id old i) = do rc ← move_task vector_id old i; pure (ended rc)
advance (ended rc) = pure (ended rc)

-- A thread with no other one: three steps are enough.
unfoldable pub alone : Pc → M Pc
unfolding advance
alone p = do q ← advance p; r ← advance q; advance r

-- Two threads; `true` lets the first one make a step.
unfoldable pub schedule : List Bool → Pc → Pc → M (Pc × Pc)
unfolding advance
schedule [] p q = pure (p, q)
schedule (true ∷ turns) p q = do p' ← advance p; schedule turns p' q
schedule (false ∷ turns) p q = do q' ← advance q; schedule turns p q'
