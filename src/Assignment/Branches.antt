-- ===== src/Assignment/Branches.antt =====
-- The branches of the functions that change a task's vector: which one is taken, and what it leaves.
use perprocess_syscall_tbl.Prelude.{
  ℕ, suc, zero, ◌≡◌, refl, sym, ap, ◌∙◌, ◌≢◌, ◌⊎◌, inl, inr, ℤ, pos, ◌==ℤ◌, ==ℤ_iff, ne→==ℤ, Bool,
  true, false, ◌||◌, Option, none, some, is_some, List, [], ◌∷◌, All-get_elem?, arith, get_elem?,
  modify, find_idx, Option-cases, some-inj,
}
use perprocess_syscall_tbl.Kernel.{SyscallVector, Task, State, Outcome, done, einval, enoent}
use perprocess_syscall_tbl.Vectors.Search.{position, position-eq_some}
use perprocess_syscall_tbl.Assignment.{
  assign_task, unassign_task, move_task, assign_syscall_vector, unassign_syscall_vector,
  reassign_syscall_vector,
}
use perprocess_syscall_tbl.Assignment.Counts.{set_vector_id}
use perprocess_syscall_tbl.Assignment.Invariant.{
  Tallied, Placed, assign_task-none, assign_task-some, unassign_task-some, move_task-none,
  move_task-some, dropped-Tallied, taken-Tallied, moved-Tallied, used_ne_zero,
}

-- The position of the task with a pid.
abbrev pub process : ℤ → List Task → Option ℕ
process pid ts = find_idx (λ t. pid ==ℤ t.pid) ts

-- The default vector, or an id of the ring.
abbrev pub is_known : ℤ → List SyscallVector → Bool
is_known w vs = (w ==ℤ pos 0) || is_some (position w vs)

-- What a call that asks for the vector `w` returns, and the state `t` that it leaves, where the
-- search for the process gave the option: EINVAL, or success with just that task changed, or ENOENT.
abbrev pub Switched : State → ℤ → Option ℕ → ℤ → State → Type 0
Switched s w none rc t = (rc ≡ einval) × (t ≡ s)
Switched s w (some i) rc t =
    ((is_known w s.vector_list ≡ true) × (rc ≡ pos 0) × (t.tasks ≡ set_vector_id s.tasks i w))
    ⊎ ((is_known w s.vector_list ≡ false) × (rc ≡ enoent) × (t ≡ s))

module _ (s : State) (pid w : ℤ) (i : ℕ) (t : Task) (who : process pid s.tasks ≡ some i)
    (at : get_elem? s.tasks i ≡ some t) where
  pub assign-same : w ≡ t.vector_id → assign_syscall_vector w pid s ≡ done (pos 0) s
  unfolding assign_syscall_vector
  assign-same e = ground (arith, ==ℤ_iff w t.vector_id)

  pub assign-task : w ≢ t.vector_id → assign_syscall_vector w pid s ≡ assign_task w i s
  unfolding assign_syscall_vector
  assign-task n = rw (who, at) (ground (arith, ne→==ℤ w t.vector_id))

  pub unassign-default : t.vector_id ≡ pos 0 → unassign_syscall_vector pid s ≡ done (pos 0) s
  unfolding unassign_syscall_vector
  unassign-default e = ground (arith, ==ℤ_iff t.vector_id (pos 0))

  pub unassign-task :
      t.vector_id ≢ pos 0 → unassign_syscall_vector pid s ≡ unassign_task t.vector_id i s
  unfolding unassign_syscall_vector
  unassign-task n = ground (arith, ne→==ℤ t.vector_id (pos 0))

  pub reassign-same : w ≡ t.vector_id → reassign_syscall_vector w pid s ≡ done (pos 0) s
  unfolding reassign_syscall_vector
  reassign-same e = ground (arith, ==ℤ_iff w t.vector_id)

  pub reassign-unassign :
      w ≡ pos 0
      → t.vector_id ≢ pos 0
      → reassign_syscall_vector w pid s ≡ unassign_task t.vector_id i s
  unfolding reassign_syscall_vector
  reassign-unassign z n = ground (
    arith,
    ne→==ℤ t.vector_id (pos 0),
    ==ℤ_iff w (pos 0),
    ne→==ℤ w t.vector_id (λ e. n (sym e ∙ z)),
  )

  pub reassign-assign :
      w ≢ pos 0 → t.vector_id ≡ pos 0 → reassign_syscall_vector w pid s ≡ assign_task w i s
  unfolding reassign_syscall_vector
  reassign-assign n z = ground (
    arith,
    ==ℤ_iff t.vector_id (pos 0),
    ne→==ℤ w (pos 0) n,
    ne→==ℤ w t.vector_id (λ e. n (e ∙ z)),
  )

  pub reassign-move :
      w ≢ pos 0
      → t.vector_id ≢ pos 0
      → w ≢ t.vector_id
      → reassign_syscall_vector w pid s ≡ move_task w t.vector_id i s
  unfolding reassign_syscall_vector
  reassign-move n m d =
      ground (arith, ne→==ℤ t.vector_id (pos 0), ne→==ℤ w (pos 0) n, ne→==ℤ w t.vector_id d)

set_same :
    (ts : List Task) (i : ℕ) (t : Task)
    → get_elem? ts i ≡ some t
    → set_vector_id ts i t.vector_id ≡ ts
unfolding modify
set_same [] i t e = refl
set_same (u ∷ ts) zero t e =
    ap (λ (r : Task). record u { vector_id = r.vector_id } ∷ ts) (sym (some-inj u t e))
set_same (u ∷ ts) (suc i) t e = ap (λ r. u ∷ r) (set_same ts i t e)

-- The call ends, and with the invariant and the result that `Switched` says.
abbrev pub Switches : State → ℤ → Option ℕ → Outcome ℤ → Type 0
Switches s w found r =
    (rc : ℤ) × (t : State) × (r ≡ done rc t) × Tallied t × Switched s w found rc t

module _ (s : State) (v : Tallied s) (w : ℤ) (i : ℕ) (t : Task)
    (at : get_elem? s.tasks i ≡ some t) where
  pub stay-Switches : w ≡ t.vector_id → Switches s w (some i) (done (pos 0) s)
  stay-Switches e = (
    pos 0,
    s,
    refl,
    v,
    inl (known, refl, sym (set_same s.tasks i t at) ∙ ap (set_vector_id s.tasks i) (sym e)),
  )
    where
      known : is_known w s.vector_list ≡ true
      known = elim (All-get_elem? (Placed s.vector_list) s.tasks i t v.placed at) [
        | inl z ↦ rw ((==ℤ_iff w (pos 0)).1 (e ∙ z))
        | inr there ↦ rw (e, there) (ground arith)
      ]

  -- A task off the default vector uses one of the ring.
  pub own_vector :
      t.vector_id ≢ pos 0
      → (k : ℕ) × (u : SyscallVector) × (position t.vector_id s.vector_list ≡ some k)
        × (get_elem? s.vector_list k ≡ some u)
        × (u.id ≡ t.vector_id)
        × ((u.refcnt ==ℤ pos 0) ≡ false)
  own_vector n = elim (Option-cases (position t.vector_id s.vector_list)) [
    | inl gone ↦ elim (All-get_elem? (Placed s.vector_list) s.tasks i t v.placed at) [
      | inl e ↦ absurd (n e)
      | inr there ↦ cc (ap is_some gone)
    ]
    | inr (k, e) ↦
        let (u, here, same) = position-eq_some t.vector_id s.vector_list k e in
        (k, u, e, here, same, used_ne_zero s v i t at u k here same)
  ]

  pub unassign_task-Switches :
      w ≡ pos 0 → t.vector_id ≢ pos 0 → Switches s w (some i) (unassign_task t.vector_id i s)
  unassign_task-Switches z n =
      let (k, u, e, here, _, used) = own_vector n in
      (
        pos 0,
        _,
        unassign_task-some s v.free i t.vector_id k u e here used,
        dropped-Tallied s v i t at k e,
        inl (rw z, refl, rw z),
      )

  pub assign_task-Switches :
      w ≢ pos 0 → t.vector_id ≡ pos 0 → Switches s w (some i) (assign_task w i s)
  assign_task-Switches n z = elim (Option-cases (position w s.vector_list)) [
    | inl gone ↦ (
      enoent,
      s,
      assign_task-none s v.free i w gone,
      v,
      inr (rw (ne→==ℤ w (pos 0) n, gone), refl, refl),
    )
    | inr (j, e) ↦ (
      pos 0,
      _,
      assign_task-some s v.free i w j e,
      taken-Tallied s v i t at w j z e,
      inl (rw (ne→==ℤ w (pos 0) n, e), refl, refl),
    )
  ]

  pub move_task-Switches :
      w ≢ pos 0 → t.vector_id ≢ pos 0 → Switches s w (some i) (move_task w t.vector_id i s)
  move_task-Switches n m = elim (Option-cases (position w s.vector_list)) [
    | inl gone ↦ (
      enoent,
      s,
      move_task-none s v.free i w t.vector_id gone,
      v,
      inr (rw (ne→==ℤ w (pos 0) n, gone), refl, refl),
    )
    | inr (j, e) ↦
        let (k, u, f, here, _, used) = own_vector m in
        (
          pos 0,
          _,
          move_task-some s v.free i w t.vector_id j k u e f here used,
          moved-Tallied s v i t at w j k f e,
          inl (rw (ne→==ℤ w (pos 0) n, e), refl, refl),
        )
  ]
