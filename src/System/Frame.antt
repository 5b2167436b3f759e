-- ===== src/System/Frame.antt =====
-- What the operations on processes leave alone: the memory, the registered system calls, and each
-- vector but for its count.
use perprocess_syscall_tbl.Prelude.{ℕ, ◌≡◌, refl, sym, subst, ℤ, pos, List, [], ◌∷◌, All, map}
use perprocess_syscall_tbl.Kernel.{
  Ptr, SyscallVector, State, pure, ◌>>◌, spin_unlock, load_vector, set_vector,
}
use perprocess_syscall_tbl.Vectors.{get_syscall_vector}
use perprocess_syscall_tbl.Assignment.{
  take_ref, drop_ref, get_process_by_pid, load_task, assign_task, assign_syscall_vector,
  unassign_task, unassign_syscall_vector, move_task, reassign_syscall_vector,
}
use perprocess_syscall_tbl.Assignment.Invariant.{Tallied}
use perprocess_syscall_tbl.System.Invariant.{IsVector, Sound}
use perprocess_syscall_tbl.System.Spares.{Untouched, lookup}
use perprocess_syscall_tbl.System.Keeps.{
  shape, SameCalls, same, Keeps, Keeps-bind, Keeps-pure, Keeps-read, Keeps-if, Keeps-option,
  Keeps-spin_lock, Keeps-spin_unlock, Keeps-set_task, Keeps-set_vector,
}

Keeps-get_process_by_pid : (pid : ℤ) → Keeps (get_process_by_pid pid)
unfolding get_process_by_pid
Keeps-get_process_by_pid pid = record { keeps = λ s a t e. subst (SameCalls s) {x = s} (cc e) same }

Keeps-load_task : (i : ℕ) → Keeps (load_task i)
unfolding load_task
Keeps-load_task i = Keeps-read _

Keeps-load_vector : (i : ℕ) → Keeps (load_vector i)
unfolding load_vector
Keeps-load_vector i = Keeps-read _

Keeps-get_syscall_vector : (id : ℤ) → Keeps (get_syscall_vector id)
unfolding get_syscall_vector
Keeps-get_syscall_vector id = Keeps-read _

-- An exit that frees the lock.
Keeps-unlocked : (rc : ℤ) → Keeps (spin_unlock >> pure rc)
Keeps-unlocked rc = Keeps-bind _ _ Keeps-spin_unlock (λ _. Keeps-pure rc)

Keeps-take_ref : (j : ℕ) → Keeps (set_vector j take_ref)
unfolding take_ref
Keeps-take_ref j = Keeps-set_vector j _ (λ v. refl)

Keeps-drop_ref : (j : ℕ) → Keeps (set_vector j drop_ref)
unfolding drop_ref
Keeps-drop_ref j = Keeps-set_vector j _ (λ v. refl)

assign_task-Keeps : (w : ℤ) (i : ℕ) → Keeps (assign_task w i)
unfolding assign_task
assign_task-Keeps w i = Keeps-bind _ _ Keeps-spin_lock λ _.
    Keeps-bind _ _ (Keeps-get_syscall_vector w) (
      Keeps-option _ _ (Keeps-unlocked _) λ j.
        Keeps-bind _ _ (Keeps-set_task i w)
          λ _. Keeps-bind _ _ (Keeps-take_ref j) λ _. Keeps-unlocked (pos 0))

pub assign_syscall_vector-Keeps : (w pid : ℤ) → Keeps (assign_syscall_vector w pid)
unfolding assign_syscall_vector
assign_syscall_vector-Keeps w pid = Keeps-bind _ _ (Keeps-get_process_by_pid pid) (
    Keeps-option _ _ (Keeps-pure _) λ i.
      Keeps-bind _ _ (Keeps-load_task i) λ t. Keeps-if _ _ _ (Keeps-pure _) (assign_task-Keeps w i))

unassign_task-Keeps : (w : ℤ) (i : ℕ) → Keeps (unassign_task w i)
unfolding unassign_task
unassign_task-Keeps w i = Keeps-bind _ _ Keeps-spin_lock λ _.
    Keeps-bind _ _ (Keeps-get_syscall_vector w) (
      Keeps-option _ _ (Keeps-unlocked _) λ j. Keeps-bind _ _ (Keeps-load_vector j) λ v.
        Keeps-if _ _ _ (Keeps-unlocked _) (
          Keeps-bind _ _ (Keeps-set_task i (pos 0))
            λ _. Keeps-bind _ _ (Keeps-drop_ref j) λ _. Keeps-unlocked (pos 0)))

pub unassign_syscall_vector-Keeps : (pid : ℤ) → Keeps (unassign_syscall_vector pid)
unfolding unassign_syscall_vector
unassign_syscall_vector-Keeps pid = Keeps-bind _ _ (Keeps-get_process_by_pid pid) (
    Keeps-option _ _ (Keeps-pure _) λ i.
      Keeps-bind _ _ (Keeps-load_task i)
        λ t. Keeps-if _ _ _ (Keeps-pure _) (unassign_task-Keeps t.vector_id i))

move_task-Keeps : (w old : ℤ) (i : ℕ) → Keeps (move_task w old i)
unfolding move_task
move_task-Keeps w old i = Keeps-bind _ _ Keeps-spin_lock λ _.
    Keeps-bind _ _ (Keeps-get_syscall_vector w) (
      Keeps-option _ _ (Keeps-unlocked _) λ j. Keeps-bind _ _ (Keeps-get_syscall_vector old) (
        Keeps-option _ _ (Keeps-unlocked _) λ k. Keeps-bind _ _ (Keeps-load_vector k) λ v.
          Keeps-if _ _ _ (Keeps-unlocked _) (
            Keeps-bind _ _ (Keeps-drop_ref k) λ _.
              Keeps-bind _ _ (Keeps-take_ref j)
                λ _. Keeps-bind _ _ (Keeps-set_task i w) λ _. Keeps-unlocked (pos 0))))

pub reassign_syscall_vector-Keeps : (w pid : ℤ) → Keeps (reassign_syscall_vector w pid)
unfolding reassign_syscall_vector
reassign_syscall_vector-Keeps w pid = Keeps-bind _ _ (Keeps-get_process_by_pid pid) (
    Keeps-option _ _ (Keeps-pure _) λ i. Keeps-bind _ _ (Keeps-load_task i) λ t.
      Keeps-if _ _ _ (Keeps-pure _) (
        Keeps-if _ _ _ (unassign_syscall_vector-Keeps pid) (
          Keeps-if _ _ _ (assign_syscall_vector-Keeps w pid) (
            Keeps-bind _ _ (Keeps-get_process_by_pid pid)
              (Keeps-option _ _ (Keeps-pure _) λ k. move_task-Keeps w t.vector_id k)))))

-- What a vector's shape says of all vectors.
All-shape :
    (P : ℤ × List ℕ × List Ptr → Type 0) (us vs : List SyscallVector)
    → map shape us ≡ map shape vs
    → All (λ v. P (shape v)) vs
    → All (λ v. P (shape v)) us
All-shape P [] [] e h = tt
All-shape P [] (v ∷ vs) e h = cc
All-shape P (u ∷ us) [] e h = cc
All-shape P (u ∷ us) (v ∷ vs) e h = (subst P (sym (heads e)) h.0, All-shape P us vs (tails e) h.1)
  where
    heads : map shape (u ∷ us) ≡ map shape (v ∷ vs) → shape u ≡ shape v
    heads q = cc

    tails : map shape (u ∷ us) ≡ map shape (v ∷ vs) → map shape us ≡ map shape vs
    tails q = cc

pub SameCalls-Sound : (s t : State) → SameCalls s t → Tallied t → Sound s → Sound t
SameCalls-Sound s t k inv sound = record {
  tallied = inv;
  calls = sound.calls;
  registry = record {
    free = inv.free;
    live = rw (k.heap, k.syscall_list) sound.registry.live;
    short = sound.registry.short;
    sorted = sound.registry.sorted;
  };
  vectors =
      rw k.heap (
        All-shape (λ x. IsVector s.heap x.2 x.1) t.vector_list s.vector_list k.shapes
          sound.vectors);
}

lookup-shape :
    (w : ℤ) (us vs : List SyscallVector) → map shape us ≡ map shape vs → lookup w us ≡ lookup w vs
unfolding lookup
lookup-shape w [] [] e = refl
lookup-shape w [] (v ∷ vs) e = cc
lookup-shape w (u ∷ us) [] e = cc
lookup-shape w (u ∷ us) (v ∷ vs) e =
    let ids : u.id ≡ v.id = cc in
    let bits : u.blocked ≡ v.blocked = cc in
    let nums : u.syscall_num_list ≡ v.syscall_num_list = cc in
    rw (ids, bits, nums, lookup-shape w us vs (cc)) refl

pub SameCalls-Untouched : (s t : State) → SameCalls s t → (w : ℤ) → Untouched w s t
SameCalls-Untouched s t k w = record {
  looked = lookup-shape w t.vector_list s.vector_list k.shapes;
  loads = λ bits ps cs at live. rw k.heap live;
}
