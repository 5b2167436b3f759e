-- ===== src/Contract/Runs.antt =====
-- Sequences of calls against the specification, from the table that init_syscall_tbl makes.
use perprocess_syscall_tbl.Prelude.{
  ℕ, ◌*◌, ◌<◌, ◌≡◌, refl, sym, ◌∙◌, subst, ℤ, pos, Option, none, List, [], ◌∷◌, All, length, ◌≤◌,
}
use perprocess_syscall_tbl.Kernel.{Ptr, Syscall, ModuleCall, Task, State, done}
use perprocess_syscall_tbl.Vectors.{num_syscalls}
use perprocess_syscall_tbl.Dispatch.{get_syscall_fn}
use perprocess_syscall_tbl.Module.{empty_table}
use perprocess_syscall_tbl.Contract.{Table, specified, dispatched}
use perprocess_syscall_tbl.Contract.Entries.{records, find_entry}
use perprocess_syscall_tbl.Contract.View.{view}
use perprocess_syscall_tbl.System.{Call}
use perprocess_syscall_tbl.System.Invariant.{Sound}
use perprocess_syscall_tbl.System.Reach.{Reach, here, next, Reach-Sound}
use perprocess_syscall_tbl.System.Spares.{lookup}
use perprocess_syscall_tbl.Contract.Refinement.{Chosen, perform-specified}
use perprocess_syscall_tbl.Contract.Lookups.{get_syscall_fn-dispatched}
use perprocess_syscall_tbl.System.Reach.{empty_table-Sound}

-- The calls and their values, the last one first.
abbrev pub Trace : Type 0
Trace = List (Call × ℤ)

abbrev pub trace : {count : Ptr → List ModuleCall → ℕ} {s t : State} → Reach count s t → Trace
trace here = []
trace (next call rc r allowed e) = (call, rc) ∷ trace r

module _ (count : Ptr → List ModuleCall → ℕ) where
  -- A sequence of calls, with their values, that the specification allows.
  pub data Runs (a : Table) : Trace → Table → Type 0 where
    start : Runs a [] a
    run :
        {b c : Table} {calls : Trace} (call : Call) (rc id : ℤ)
        → Runs a calls b
        → Chosen call id b
        → (rc, c) ≡ specified count id call b
        → Runs a ((call, rc) ∷ calls) c

  same_rc : {a b : ℤ} {x y : State} → done a x ≡ done b y → a ≡ b
  same_rc e = cc

  same_state : {a b : ℤ} {x y : State} → done a x ≡ done b y → x ≡ y
  same_state e = cc

  -- The calls that lead from a sound state to another one lead from its table to that one's table.
  pub Reach-specified :
      {s t : State} → Sound s → (r : Reach count s t) → Runs (view s) (trace r) (view t)
  Reach-specified sound here = start
  Reach-specified {s} sound (next {t} {u} call rc r allowed e) =
      let (id, rc', u', chosen, e', _, spec) =
        perform-specified count call t (Reach-Sound count sound r) allowed in
      let same = sym e' ∙ e in
      run call rc id (Reach-specified sound r) chosen
        ((λ i. (sym (same_rc same) i, view (sym (same_state same) i))) ∙ spec)

-- The abstract table of a module that was just loaded.
abbrev pub fresh_table : Ptr → List Task → Table
fresh_table this_module tasks = record {
  registered = λ name. none;
  vectors = λ id. none;
  tasks = tasks;
  log = [];
  self = this_module;
}

view-empty_table :
    (this_module : Ptr) (heap : Ptr → Option Syscall) (tasks : List Task)
    → view (empty_table this_module heap tasks) ≡ fresh_table this_module tasks
unfolding empty_table find_entry records lookup
view-empty_table this_module heap tasks = refl

-- From the table that init_syscall_tbl makes, with every process on the default vector, each sequence of
-- allowed calls ends in a sound table, gives the values and the table that the specification gives from a
-- table with no names and no vectors, and then the kernel's lookup of a number within the bitmap, in any
-- vector, is the one in that abstract table.
pub init-specified :
    (count : Ptr → List ModuleCall → ℕ) (this_module : Ptr) (heap : Ptr → Option Syscall)
    (tasks : List Task) {t : State}
    → All (λ u. u.vector_id ≡ pos 0) tasks
    → length tasks ≤ 32767
    → (r : Reach count (empty_table this_module heap tasks) t)
    → Sound t
      × Runs count (fresh_table this_module tasks) (trace r) (view t)
      × ((w : ℤ) (n : ℕ)
          → n < 8 * num_syscalls
          → get_syscall_fn w (pos n) t ≡ done (dispatched n ((view t).vectors w)) t)
init-specified count this_module heap tasks {t} default few r =
    let sound = empty_table-Sound this_module heap tasks default few in
    (
      Reach-Sound count sound r,
      subst (λ b. Runs count b (trace r) (view t)) (view-empty_table this_module heap tasks)
          (Reach-specified count sound r),
      λ w n small. get_syscall_fn-dispatched t w n (Reach-Sound count sound r) small,
    )
