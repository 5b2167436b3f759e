-- ===== src/Races/Alone.antt =====
-- A thread that runs alone is reassign_syscall_vector.
use perprocess_syscall_tbl.Prelude.{
  ℕ, ◌≡◌, refl, ℤ, pos, ◌==ℤ◌, some, get_elem?, Option-cases, Bool-cases, inl, inr,
  find_idx-eq_some,
}
use perprocess_syscall_tbl.Kernel.{Task, State, Outcome, pure, done, fault, deadlock, and_then}
use perprocess_syscall_tbl.Assignment.{
  get_process_by_pid, load_task, assign_syscall_vector, unassign_syscall_vector, move_task,
  reassign_syscall_vector,
}
use perprocess_syscall_tbl.Assignment.Branches.{process}
use perprocess_syscall_tbl.Races.{
  Pc, begun, in_assign, in_unassign, ended, check_reassign, check_assign, check_unassign, advance,
  alone,
}

-- A result as the end of a thread.
abbrev pub as_end : Outcome ℤ → Outcome Pc
as_end o = and_then o (λ rc. pure (ended rc))

end_twice : (o : Outcome ℤ) → and_then (as_end o) advance ≡ as_end o
unfolding advance
end_twice (done rc s) = refl
end_twice fault = refl
end_twice deadlock = refl

module _ (s : State) (pid : ℤ) (i : ℕ) (t : Task) (who : process pid s.tasks ≡ some i)
    (at : get_elem? s.tasks i ≡ some t) where
  from_assign :
      (w : ℤ)
      → and_then (advance (in_assign w pid) s) advance ≡ as_end (assign_syscall_vector w pid s)
  unfolding advance check_assign assign_syscall_vector get_process_by_pid load_task
  from_assign w = elim (Bool-cases (w ==ℤ t.vector_id)) [
    | inl same ↦ rw (who, at, same) refl
    | inr other ↦ rw (who, at, other) refl
  ]

  from_unassign :
      and_then (advance (in_unassign pid) s) advance ≡ as_end (unassign_syscall_vector pid s)
  unfolding advance check_unassign unassign_syscall_vector get_process_by_pid load_task
  from_unassign = elim (Bool-cases (t.vector_id ==ℤ pos 0)) [
    | inl same ↦ rw (who, at, same) refl
    | inr other ↦ rw (who, at, other) refl
  ]

  alone_some : (w : ℤ) → alone (begun w pid) s ≡ as_end (reassign_syscall_vector w pid s)
  unfolding alone advance check_reassign reassign_syscall_vector get_process_by_pid load_task
  alone_some w = elim (Bool-cases (w ==ℤ t.vector_id)) [
    | inl same ↦ rw (who, at, same) refl
    | inr other ↦ elim (Bool-cases (t.vector_id ==ℤ pos 0)) [
      | inl default ↦ elim (Bool-cases (w ==ℤ pos 0)) [
        | inl zero_ ↦
            rw (who, at, other, default, zero_)
              (rw (get_process_by_pid, who) (end_twice (move_task w t.vector_id i s)))
        | inr given ↦ rw (who, at, other, default, given) (from_assign w)
      ]
      | inr used ↦ elim (Bool-cases (w ==ℤ pos 0)) [
        | inl zero_ ↦ rw (who, at, other, used, zero_) from_unassign
        | inr given ↦
            rw (who, at, other, used, given)
              (rw (get_process_by_pid, who) (end_twice (move_task w t.vector_id i s)))
      ]
    ]
  ]

-- A thread that no other one interrupts does what reassign_syscall_vector does, in every state.
pub alone-reassign_syscall_vector :
    (s : State) (w pid : ℤ) → alone (begun w pid) s ≡ as_end (reassign_syscall_vector w pid s)
unfolding alone advance check_reassign reassign_syscall_vector get_process_by_pid
alone-reassign_syscall_vector s w pid = elim (Option-cases (process pid s.tasks)) [
  | inl nobody ↦ rw nobody refl
  | inr (i, who) ↦
      let (t, at, _) = find_idx-eq_some _ s.tasks i who in alone_some s pid i t who at w
]
