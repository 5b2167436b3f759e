-- ===== src/Assignment/Reassign.antt =====
-- reassign_syscall_vector keeps the invariant on every branch.
use perprocess_syscall_tbl.Prelude.{
  ℕ, ◌≡◌, refl, sym, ◌∙◌, ◌≢◌, inl, inr, ℤ, pos, none, some, arith, get_elem?, find_idx-eq_some,
  Option-cases, ℤ-eq-cases,
}
use perprocess_syscall_tbl.Kernel.{Task, State, done, einval}
use perprocess_syscall_tbl.Assignment.{reassign_syscall_vector}
use perprocess_syscall_tbl.Assignment.Invariant.{Tallied}
use perprocess_syscall_tbl.Assignment.Branches.{
  process, Switches, reassign-same, reassign-unassign, reassign-assign, reassign-move,
  stay-Switches, unassign_task-Switches, assign_task-Switches, move_task-Switches,
}

-- The branches of reassign_syscall_vector for a process that there is.
reassign-Switches :
    (s : State) (v : Tallied s) (w : ℤ) (i : ℕ) (t : Task)
    → get_elem? s.tasks i ≡ some t
    → (pid : ℤ) → process pid s.tasks ≡ some i
    → Switches s w (some i) (reassign_syscall_vector w pid s)
reassign-Switches s v w i t at pid who = elim (ℤ-eq-cases w t.vector_id) [
  | inl same ↦ rw (reassign-same s pid w i t who at same) (stay-Switches s v w i t at same)
  | inr d ↦ elim (ℤ-eq-cases t.vector_id (pos 0)) [
    | inl z ↦
        let n : w ≢ pos 0 = λ e. d (e ∙ sym z) in
        rw (reassign-assign s pid w i t who at n z) (assign_task-Switches s v w i t at n z)
    | inr m ↦ elim (ℤ-eq-cases w (pos 0)) [
      | inl z ↦
          rw (reassign-unassign s pid w i t who at z m) (unassign_task-Switches s v w i t at z m)
      | inr n ↦ rw (reassign-move s pid w i t who at n m d) (move_task-Switches s v w i t at n m)
    ]
  ]
]

reassign-nobody :
    (s : State) (w pid : ℤ)
    → process pid s.tasks ≡ none
    → reassign_syscall_vector w pid s ≡ done einval s
unfolding reassign_syscall_vector
reassign-nobody s w pid e = ground arith

-- reassign_syscall_vector from any state of the invariant ends without a fault or a deadlock and
-- keeps the invariant: each vector still counts exactly the tasks that use it, and no task uses a
-- vector that is gone. It returns EINVAL for an unknown pid and ENOENT for an unknown vector, both
-- with nothing changed; otherwise it returns 0 and that task, and no other, has the asked vector.
pub reassign_syscall_vector-Tallied :
    (s : State) (w pid : ℤ)
    → Tallied s
    → Switches s w (process pid s.tasks) (reassign_syscall_vector w pid s)
reassign_syscall_vector-Tallied s w pid v = elim (Option-cases (process pid s.tasks)) [
  | inl nobody ↦ rw nobody (einval, s, reassign-nobody s w pid nobody, v, (refl, refl))
  | inr (i, who) ↦
      let (t, at, _) = find_idx-eq_some _ s.tasks i who in
      rw who (reassign-Switches s v w i t at pid who)
]
