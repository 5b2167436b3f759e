-- ===== src/Contract/Refinement.antt =====
-- The operations of syscall_module/syscall_tbl.c implement the specification.
use perprocess_syscall_tbl.Prelude.{ℕ, ◌<ℤ◌, ◌≡◌, ℤ, pos, none, List}
use perprocess_syscall_tbl.Kernel.{Ptr, ModuleCall, State, done}
use perprocess_syscall_tbl.Contract.{Table, specified}
use perprocess_syscall_tbl.Contract.View.{view}
use perprocess_syscall_tbl.Contract.Promise.{Follows, call_end}
use perprocess_syscall_tbl.Contract.Vectors.{
  next_id, next_id-fresh, add_vector-Follows, remove_vector-Follows,
}
use perprocess_syscall_tbl.Contract.Registering.{register-Follows, unregister-Follows}
use perprocess_syscall_tbl.Contract.Mapped.{add_mapping-Follows, remove_mapping-Follows}
use perprocess_syscall_tbl.Contract.Blocks.{block-Follows, unblock-Follows}
use perprocess_syscall_tbl.Contract.Processes.{assign-Follows, unassign-Follows, reassign-Follows}
use perprocess_syscall_tbl.System.{
  Call, register, unregister, add_vector, remove_vector, add_mapping, remove_mapping, assign,
  unassign, reassign, block, unblock, Allowed, perform,
}
use perprocess_syscall_tbl.System.Invariant.{Sound}

-- The id of a new vector is positive and not in use. The other calls choose none.
abbrev pub Chosen : Call → ℤ → Table → Type 0
Chosen (add_vector allocated) id a = (pos 0 <ℤ id) × (a.vectors id ≡ none)
Chosen call id a = Unit

module _ (count : Ptr → List ModuleCall → ℕ) where
  follows :
      (call : Call) (s : State)
      → Sound s
      → Allowed call s
      → (id : ℤ) × Chosen call id (view s) × Follows count id call s
  follows (register temp memory name fptr num m) s sound (full, fits, fresh) = (
    pos 1,
    tt,
    register-Follows count s sound temp name full fits fptr num m (pos 1) memory fresh,
  )
  follows (unregister temp name) s sound (full, fits, unheld) =
      (pos 1, tt, unregister-Follows count s sound temp name full fits (pos 1) unheld)
  follows (add_vector allocated) s sound room =
      (next_id s, next_id-fresh count s sound room, add_vector-Follows count s sound room allocated)
  follows (remove_vector id) s sound ok_ =
      (pos 1, tt, remove_vector-Follows count s sound (pos 1) id)
  follows (add_mapping temp allocated id name) s sound (full, fits) =
      (pos 1, tt, add_mapping-Follows count s sound temp name full fits id (pos 1) allocated)
  follows (remove_mapping temp id name) s sound (full, fits) =
      (pos 1, tt, remove_mapping-Follows count s sound temp name full fits id (pos 1))
  follows (assign id pid) s sound (i, t, who, at, before) =
      (pos 1, tt, assign-Follows count s sound (pos 1) id pid i t who at before)
  follows (unassign pid) s sound (i, who) =
      (pos 1, tt, unassign-Follows count s sound (pos 1) pid i who)
  follows (reassign id pid) s sound ok_ = (pos 1, tt, reassign-Follows count s sound (pos 1) id pid)
  follows (block id num) s sound range =
      (pos 1, tt, block-Follows count s sound (pos 1) id num range)
  follows (unblock id num) s sound range =
      (pos 1, tt, unblock-Follows count s sound (pos 1) id num range)

  -- Every allowed call of a sound table ends, in a sound table, with the value and the effect that the
  -- specification computes from the abstract table alone, for an id of a new vector that is positive and
  -- not in use.
  pub perform-specified :
      (call : Call) (s : State)
      → Sound s
      → Allowed call s
      → (id : ℤ) × (rc : ℤ) × (t : State) × Chosen call id (view s)
        × (perform count call s ≡ done rc t)
        × Sound t
        × ((rc, view t) ≡ specified count id call (view s))
  perform-specified call s sound allowed =
      let (id, chosen, (rc, t, e, spec)) = follows call s sound allowed in
      (id, rc, t, chosen, e, (call_end count call s t rc sound allowed e).0, spec)
