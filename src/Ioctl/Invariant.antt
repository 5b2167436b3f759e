-- ===== src/Ioctl/Invariant.antt =====
-- The commands of the device that concern the vectors and the processes keep the invariant.
use perprocess_syscall_tbl.Prelude.{
  ap, not, Bool-cases, ◌==◌, to_short, ltb_ℤ, ◌∙◌, ◌≡◌, refl, ℤ, pos, ◌<ℤ◌, Bool, true, false, none,
  some, All, if◌then◌else◌, Option-cases, find_idx-eq_some, inl, inr,
}
use perprocess_syscall_tbl.Kernel.{State, done, pure, einval, enomem}
use perprocess_syscall_tbl.Vectors.{add_syscall_vector}
use perprocess_syscall_tbl.Assignment.{get_process_by_pid, get_vector_by_pid, load_task}
use perprocess_syscall_tbl.Assignment.Invariant.{Tallied}
use perprocess_syscall_tbl.Assignment.Branches.{process}
use perprocess_syscall_tbl.Assignment.Reassign.{reassign_syscall_vector-Tallied}
use perprocess_syscall_tbl.Assignment.Lifecycle.{
  remove_syscall_vector-Tallied, add_syscall_vector-Tallied,
}
use perprocess_syscall_tbl.Ioctl.{
  Command, add_vector, remove_vector, assign_vector_to_process, get_vector_id_of_process, other,
  add_syscall_to_vector_cmd, remove_syscall_from_vector_cmd, get_info, block, unblock, MyArgs,
  Answers, Reply, reply, reply_out_name, finish, dispatch, manipulate_syscalls,
}
use perprocess_syscall_tbl.Ioctl.Copies.{manipulate_syscalls-copied}

-- The commands on vectors and processes.
abbrev pub on_vectors : Command → Bool
on_vectors add_vector = true
on_vectors remove_vector = true
on_vectors assign_vector_to_process = true
on_vectors get_vector_id_of_process = true
on_vectors other = true
on_vectors add_syscall_to_vector_cmd = false
on_vectors remove_syscall_from_vector_cmd = false
on_vectors get_info = false
on_vectors block = false
on_vectors unblock = false

get_vector_by_pid_reads : (s : State) (pid : ℤ) → (rc : ℤ) × (get_vector_by_pid pid s ≡ done rc s)
unfolding get_vector_by_pid get_process_by_pid load_task
get_vector_by_pid_reads s pid = elim (Option-cases (process pid s.tasks)) [
  | inl nobody ↦ (einval, rw nobody refl)
  | inr (i, who) ↦
      let (t, at, _) = find_idx-eq_some _ s.tasks i who in (t.vector_id, rw (who, at) refl)
]

module _ (k : Answers) (a : MyArgs) (s : State) (inv : Tallied s)
    (room : All (λ v. v.id <ℤ pos 32767) s.vector_list) where
  add_allocated :
      (allocated : Bool)
      → (rc : ℤ) × (t : State) × (add_syscall_vector allocated s ≡ done rc t) × Tallied t
  unfolding add_syscall_vector
  add_allocated false = (enomem, s, refl, inv)
  add_allocated true =
      let (id, t, e, inv', _, _) = add_syscall_vector-Tallied s inv room in (id, t, e, inv')

  id_answered : (r : Reply) × (dispatch k get_vector_id_of_process a s ≡ done r s)
  unfolding dispatch
  id_answered =
      let (rc, e) = get_vector_by_pid_reads s a.pid in
      elim (Bool-cases (ltb_ℤ rc (pos 0))) [
        | inl bad ↦ (reply_out_name rc, rw (e, bad) refl)
        | inr good ↦ (
          record (reply (pos k.result_left)) {
            vector_id = if k.result_left == 0 then some (to_short rc) else none;
          },
          rw (e, good) refl,
        )
      ]

  dispatch-Tallied :
      (cmd : Command)
      → on_vectors cmd ≡ true
      → (r : Reply) × (t : State) × (dispatch k cmd a s ≡ done r t) × Tallied t
  unfolding dispatch
  dispatch-Tallied add_vector h =
      let (rc, t, e, inv') = add_allocated k.node_allocated in (finish rc, t, rw e refl, inv')
  dispatch-Tallied remove_vector h =
      let (rc, t, e, inv', _, _) = remove_syscall_vector-Tallied s a.vector_id inv in
      (finish rc, t, rw e refl, inv')
  dispatch-Tallied assign_vector_to_process h =
      let (rc, t, e, inv', _) = reassign_syscall_vector-Tallied s a.vector_id a.pid inv in
      (finish rc, t, rw e refl, inv')
  dispatch-Tallied get_vector_id_of_process h = let (r, e) = id_answered in (r, s, e, inv)
  dispatch-Tallied other h = (reply (pos 0), s, refl, inv)
  dispatch-Tallied add_syscall_to_vector_cmd h = cc h
  dispatch-Tallied remove_syscall_from_vector_cmd h = cc h
  dispatch-Tallied get_info h = cc h
  dispatch-Tallied block h = cc h
  dispatch-Tallied unblock h = cc h

  -- With room for one more id, every request on vectors and processes ends, whatever the allocations
  -- and copies return, with each count exact.
  pub manipulate_syscalls-Tallied :
      (cmd : Command)
      → on_vectors cmd ≡ true
      → (r : Reply) × (t : State) × (manipulate_syscalls k cmd a s ≡ done r t) × Tallied t
  manipulate_syscalls-Tallied cmd h = elim (manipulate_syscalls-copied k cmd a s) [
    | inl (_, (rc, _, e)) ↦ (reply rc, s, e, inv)
    | inr (_, e) ↦ elim (Bool-cases k.sys_allocated) [
      | inl there ↦
          let (r, t, d, inv') = dispatch-Tallied cmd h in
          (
            r,
            t,
            e ∙ (ap (λ b. (if not b then pure (reply (pos 0)) else dispatch k cmd a) s) there ∙ d),
            inv',
          )
      | inr gone ↦ (reply (pos 0), s, e ∙ (rw gone refl), inv)
    ]
  ]
