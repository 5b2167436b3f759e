-- ===== src/System/Reach.antt =====
-- The states that allowed calls lead to from the table of init_syscall_tbl.
use perprocess_syscall_tbl.Prelude.{
  ℕ, ◌≤◌, ◌≡◌, ◌∙◌, refl, sym, subst, ℤ, pos, Option, List, [], All, length,
}
use perprocess_syscall_tbl.Kernel.{Ptr, Syscall, ModuleCall, Task, State, done}
use perprocess_syscall_tbl.Module.{empty_table}
use perprocess_syscall_tbl.Module.{default_Placed}
use perprocess_syscall_tbl.System.{
  Call, register, unregister, add_vector, remove_vector, add_mapping, remove_mapping, assign,
  unassign, reassign, block, unblock, Allowed, named, perform,
}
use perprocess_syscall_tbl.System.Invariant.{Sound, Ends}
use perprocess_syscall_tbl.System.Registering.{register-Ends, unregister-Ends}
use perprocess_syscall_tbl.System.Listing.{
  assign-Ends, unassign-Ends, reassign-Ends, add_vector-Ends, remove_vector-Ends,
}
use perprocess_syscall_tbl.System.Mapped.{add_mapping-Ends, remove_mapping-Ends}
use perprocess_syscall_tbl.System.Blocks.{block-Ends, unblock-Ends}

module _ (module_refcount : Ptr → List ModuleCall → ℕ) where
  -- Every allowed call ends, without a fault and without a deadlock, keeps the invariant of the whole
  -- table, and leaves every vector but the one it is about as it is.
  pub perform-Sound :
      (call : Call) (s : State)
      → Sound s
      → Allowed call s
      → Ends (named call) s (perform module_refcount call s)
  perform-Sound (register temp memory name fptr num m) s sound (full, fits, fresh) =
      register-Ends temp name fptr num m s sound full fits memory fresh
  perform-Sound (unregister temp name) s sound (full, fits, unheld) =
      unregister-Ends module_refcount temp name s sound full fits unheld
  perform-Sound (add_vector allocated) s sound room = add_vector-Ends s sound allocated room
  perform-Sound (remove_vector id) s sound ok_ = remove_vector-Ends s sound id
  perform-Sound (add_mapping temp allocated id name) s sound (full, fits) =
      add_mapping-Ends s sound temp name full fits id allocated
  perform-Sound (remove_mapping temp id name) s sound (full, fits) =
      remove_mapping-Ends s sound temp name full fits id
  perform-Sound (assign id pid) s sound (i, t, who, at, before) =
      assign-Ends s sound id pid i t who at before
  perform-Sound (unassign pid) s sound (i, who) = unassign-Ends s sound pid i who
  perform-Sound (reassign id pid) s sound ok_ = reassign-Ends s sound id pid
  perform-Sound (block id num) s sound range = block-Ends s sound id num range
  perform-Sound (unblock id num) s sound range = unblock-Ends s sound id num range

  -- One call after another.
  pub data Reach (s : State) : State → Type 0 where
    here : Reach s s
    next :
        {t u : State} (call : Call) (rc : ℤ)
        → Reach s t
        → Allowed call t
        → perform module_refcount call t ≡ done rc u
        → Reach s u

  pub Reach-Sound : {s t : State} → Sound s → Reach s t → Sound t
  Reach-Sound sound here = sound
  Reach-Sound {s} sound (next {t} {u} call rc r allowed e) =
      let (rc', u', e', sound', _) = perform-Sound call t (Reach-Sound sound r) allowed in
      subst Sound (same_end (sym e' ∙ e)) sound'
    where
      same_end : {a b : ℤ} {x y : State} → done a x ≡ done b y → x ≡ y
      same_end q = cc

pub empty_table-Sound :
    (this_module : Ptr) (heap : Ptr → Option Syscall) (tasks : List Task)
    → All (λ u. u.vector_id ≡ pos 0) tasks
    → length tasks ≤ 32767
    → Sound (empty_table this_module heap tasks)
unfolding empty_table
empty_table-Sound this_module heap tasks default few = record {
  tallied = record {
    free = refl;
    ids = tt;
    counts = tt;
    placed = default_Placed tasks default;
    few = few;
  };
  calls = [];
  registry = record { free = refl; live = tt; short = tt; sorted = tt };
  vectors = tt;
}

-- From the table that init_syscall_tbl makes, with every process on the default vector, every sequence
-- of allowed calls leads to states in which the invariant holds.
Reach-init :
    (module_refcount : Ptr → List ModuleCall → ℕ) (this_module : Ptr) (heap : Ptr → Option Syscall)
    (tasks : List Task) {t : State}
    → All (λ u. u.vector_id ≡ pos 0) tasks
    → length tasks ≤ 32767
    → Reach module_refcount (empty_table this_module heap tasks) t
    → Sound t
Reach-init count this_module heap tasks default few r =
    Reach-Sound count (empty_table-Sound this_module heap tasks default few) r
