-- ===== src/System/Retire.antt =====
-- How a vector is taken out of use: its processes are put back on the default vector, one call of
-- unassign_syscall_vector after another, and then remove_syscall_vector does not refuse it.
use perprocess_syscall_tbl.Prelude.{
  ℕ, zero, suc, ◌≡◌, ◌≢◌, refl, sym, ap, ◌∙◌, ℤ, pos, ◌==ℤ◌, ne→==ℤ, lt→ne, find_idx, false, none,
  some, List, [], ◌∷◌, All, All-map, All-get_elem?, arith, erase_idx, ==ℤ_iff,
}
use perprocess_syscall_tbl.Kernel.{Ptr, SyscallVector, ModuleCall, State, done}
use perprocess_syscall_tbl.Vectors.{remove_syscall_vector}
use perprocess_syscall_tbl.Vectors.Ids.{Ascending, Ascending-above}
use perprocess_syscall_tbl.Vectors.Search.{position, position-eq_some}
use perprocess_syscall_tbl.Vectors.Operations.{removed, remove_syscall_vector-some}
use perprocess_syscall_tbl.Assignment.{drop_ref, unassign_syscall_vector}
use perprocess_syscall_tbl.Assignment.Users.{one_if, users, users-modify}
use perprocess_syscall_tbl.Assignment.Counts.{Counted, position-modify, drop_ref-id}
use perprocess_syscall_tbl.Assignment.Invariant.{unassign_task-some}
use perprocess_syscall_tbl.Assignment.Branches.{own_vector, unassign-task}
use perprocess_syscall_tbl.Assignment.Evacuation.{
  Findable, evacuated, evacuated-none, evacuated-set, user_at, Findable-set,
}
use perprocess_syscall_tbl.System.{unassign}
use perprocess_syscall_tbl.System.Invariant.{Sound}
use perprocess_syscall_tbl.System.Reach.{Reach, here, next, Reach-Sound}

-- Without a vector its id is not found: the ids ascend.
pub position-above :
    (id : ℤ) (vs : List SyscallVector) → All (λ v. v.id ≢ id) vs → position id vs ≡ none
unfolding find_idx
position-above id [] h = refl
position-above id (v ∷ vs) h = rw (ne→==ℤ v.id id h.0, position-above id vs h.1) refl

pub position-erase_idx :
    (id lo : ℤ) (vs : List SyscallVector) (i : ℕ)
    → Ascending lo vs
    → position id vs ≡ some i
    → position id (erase_idx vs i) ≡ none
unfolding find_idx erase_idx
position-erase_idx id lo [] i a e = refl
position-erase_idx id lo (v ∷ vs) zero a e =
    let same : v.id ≡ id = (==ℤ_iff v.id id).0 (ground arith) in
    position-above id vs
      (All-map vs (λ w lt eq. lt→ne v.id w.id lt (same ∙ sym eq)) (Ascending-above v.id vs a.2))
position-erase_idx id lo (v ∷ vs) (suc i) a e =
    let away : (v.id ==ℤ id) ≡ false = ground arith in
    rw (away, position-erase_idx id v.id vs i a.2 (ground arith)) refl

-- Calls of unassign_syscall_vector that return 0, one after another.
pub data Unassigned (s : State) : State → Type 0 where
  begin : Unassigned s s
  more :
      {t u : State} (pid : ℤ)
      → Unassigned s t
      → unassign_syscall_vector pid t ≡ done (pos 0) u
      → Unassigned s u

module _ (count : Ptr → List ModuleCall → ℕ) (id : ℤ) (i : ℕ) (nonzero : id ≢ pos 0) where
  -- One call for each process of the vector.
  evacuate :
      (s : State) (n : ℕ) (s' : State)
      → Sound s
      → Reach count s s'
      → Unassigned s s'
      → Findable s'.tasks
      → position id s'.vector_list ≡ some i
      → users id s'.tasks ≡ n
      → (t : State) × Reach count s t
        × Unassigned s t
        × (t.tasks ≡ evacuated id s'.tasks)
        × (position id t.vector_list ≡ some i)
        × (users id t.tasks ≡ 0)
  evacuate s zero s' sound r puts found at e =
      (s', r, puts, sym (evacuated-none id s'.tasks e), at, e)
  evacuate s (suc n) s' sound r puts found at e =
      let (j, t, in_use, same) = user_at id s'.tasks n e in
      let inv = (Reach-Sound count sound r).tallied in
      let off : t.vector_id ≢ pos 0 = λ z. nonzero (sym same ∙ z) in
      let (k, u, held, mine, _, used) = own_vector s' inv (pos 0) j t in_use off in
      let who = found j t in_use in
      let put =
        unassign-task s' t.pid (pos 0) j t who in_use off
        ∙ unassign_task-some s' inv.free j t.vector_id k u held mine used in
      let (t', r', puts', tasks, at', empty) =
        evacuate s n _ sound (next (unassign t.pid) (pos 0) r (j, who) put) (more t.pid puts put)
          (Findable-set (pos 0) s'.tasks j found)
          (position-modify drop_ref drop_ref-id id s'.vector_list k ∙ at)
          (omega (
            arith,
            e,
            users-modify id (pos 0) s'.tasks j t in_use,
            ap one_if ((==ℤ_iff t.vector_id id).1 same),
            ap one_if (ne→==ℤ (pos 0) id (λ z. nonzero (sym z))),
          )) in
      (t', r', puts', tasks ∙ evacuated-set id s'.tasks j t nonzero in_use same, at', empty)

-- From every sound state in which each process is the first one with its pid, calls of
-- unassign_syscall_vector that all return 0 lead to a sound state in which only the processes of a given
-- vector of the ring have changed, to the default vector, and in which remove_syscall_vector of that
-- vector returns 0, changes no process and leaves no vector with its id.
pub vector_can_be_removed :
    (s : State) (id : ℤ) (i : ℕ)
    → Sound s
    → Findable s.tasks
    → position id s.vector_list ≡ some i
    → (t u : State) × Unassigned s t
      × Sound t
      × (t.tasks ≡ evacuated id s.tasks)
      × (remove_syscall_vector id t ≡ done (pos 0) u)
      × (u.tasks ≡ t.tasks)
      × (position id u.vector_list ≡ none)
vector_can_be_removed s id i sound found at =
    let (v, here_v, same) = position-eq_some id s.vector_list i at in
    let (above, _) =
      All-get_elem? (Counted s.tasks) s.vector_list i v sound.tallied.counts here_v in
    let nonzero : id ≢ pos 0 = λ z. lt→ne (pos 0) v.id above (sym (same ∙ z)) in
    let (t, r, puts, tasks, at', empty) =
      evacuate (λ p log. 0) id i nonzero s (users id s.tasks) s sound here begin found at refl in
    let sound' = Reach-Sound (λ p log. 0) sound r in
    let inv = sound'.tallied in
    let (u, here_u, same') = position-eq_some id t.vector_list i at' in
    let (_, counts) = All-get_elem? (Counted t.tasks) t.vector_list i u inv.counts here_u in
    let idle : u.refcnt ≡ pos 0 = counts ∙ ap pos (ap (λ w. users w t.tasks) same' ∙ empty) in
    (
      t,
      removed i t,
      puts,
      sound',
      tasks,
      remove_syscall_vector-some id t inv.free i u at' here_u ∙ rw idle refl,
      refl,
      position-erase_idx id (pos 0) t.vector_list i inv.ids at',
    )
