-- ===== src/Assignment/Assign.antt =====
-- assign_syscall_vector and unassign_syscall_vector keep the invariant, but for one use.
use perprocess_syscall_tbl.Prelude.{
  get_elem?-modify_ne, ℕ, ◌+◌, ◌≡◌, refl, sym, ap, ◌∙◌, ◌≢◌, ◌⊎◌, inl, inr, ℤ, pos, ==ℤ_refl,
  ne→==ℤ, some, All-get_elem?, arith, get_elem?, find_idx-eq_some, some-inj, ℤ-eq-cases,
}
use perprocess_syscall_tbl.Kernel.{SyscallVector, Task, State, done}
use perprocess_syscall_tbl.Vectors.Search.{position, position-eq_some}
use perprocess_syscall_tbl.Assignment.{take_ref, assign_syscall_vector, unassign_syscall_vector}
use perprocess_syscall_tbl.Assignment.Users.{users, users-modify, one_if}
use perprocess_syscall_tbl.Assignment.Counts.{Counted}
use perprocess_syscall_tbl.Assignment.Invariant.{Tallied, assign_task-some}
use perprocess_syscall_tbl.Assignment.Branches.{
  process, Switches, assign-same, assign-task, unassign-default, unassign-task, stay-Switches,
  unassign_task-Switches, assign_task-Switches, own_vector,
}

-- assign_syscall_vector keeps the invariant where the process is on the default vector or already has
-- the asked one, with the results of reassign_syscall_vector.
pub assign_syscall_vector-Tallied :
    (s : State) (w pid : ℤ) (i : ℕ) (t : Task)
    → Tallied s
    → process pid s.tasks ≡ some i
    → get_elem? s.tasks i ≡ some t
    → (t.vector_id ≡ pos 0) ⊎ (t.vector_id ≡ w)
    → Switches s w (some i) (assign_syscall_vector w pid s)
assign_syscall_vector-Tallied s w pid i t v who at before = elim (ℤ-eq-cases w t.vector_id) [
  | inl same ↦ rw (assign-same s pid w i t who at same) (stay-Switches s v w i t at same)
  | inr d ↦ rw (assign-task s pid w i t who at d) (elim before [
    | inl z ↦ assign_task-Switches s v w i t at (λ e. d (e ∙ sym z)) z
    | inr e ↦ absurd (d (sym e))
  ])
]

-- unassign_syscall_vector of a process that there is puts it back on the default vector, returns 0 and
-- keeps the invariant.
pub unassign_syscall_vector-Tallied :
    (s : State) (pid : ℤ) (i : ℕ)
    → Tallied s
    → process pid s.tasks ≡ some i
    → Switches s (pos 0) (some i) (unassign_syscall_vector pid s)
unassign_syscall_vector-Tallied s pid i v who =
    let (t, at, _) = find_idx-eq_some _ s.tasks i who in
    elim (ℤ-eq-cases t.vector_id (pos 0)) [
      | inl z ↦
          rw (unassign-default s pid (pos 0) i t who at z)
            (stay-Switches s v (pos 0) i t at (sym z))
      | inr m ↦
          rw (unassign-task s pid (pos 0) i t who at m)
            (unassign_task-Switches s v (pos 0) i t at refl m)
    ]

-- A process that goes from a vector `k` straight to another one by assign_syscall_vector leaves the
-- count of `k` one above the number of its users.
pub assign_syscall_vector_leak :
    (s : State) (w pid : ℤ) (i j : ℕ) (t : Task)
    → Tallied s
    → process pid s.tasks ≡ some i
    → get_elem? s.tasks i ≡ some t
    → t.vector_id ≢ pos 0
    → w ≢ t.vector_id
    → position w s.vector_list ≡ some j
    → (r : State) × (k : ℕ) × (u : SyscallVector) × (assign_syscall_vector w pid s ≡ done (pos 0) r)
      × (get_elem? r.vector_list k ≡ some u)
      × (u.id ≡ t.vector_id)
      × (u.refcnt ≡ pos (users t.vector_id r.tasks + 1))
assign_syscall_vector_leak s w pid i j t v who at m d e =
    let (k, u, f, here, mine, _) = own_vector s v w i t at m in
    let (y, at_j, named) = position-eq_some w s.vector_list j e in
    let apart : k ≢ j = λ q. d (
      sym named
      ∙ ap (λ r. r.id) (some-inj y u (sym at_j ∙ ap (get_elem? s.vector_list) (sym q) ∙ here))
      ∙ mine) in
    let (_, count) = All-get_elem? (Counted s.tasks) s.vector_list k u v.counts here in
    (
      _,
      k,
      u,
      assign-task s pid w i t who at d ∙ assign_task-some s v.free i w j e,
      get_elem?-modify_ne s.vector_list k j take_ref apart ∙ here,
      mine,
      count
          ∙ ap pos (
              omega (
                arith,
                users-modify t.vector_id w s.tasks i t at,
                ap one_if (==ℤ_refl t.vector_id),
                ap one_if (ne→==ℤ w t.vector_id d),
                ap (λ k. users k s.tasks) mine,
              )),
    )
