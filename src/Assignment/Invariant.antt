-- ===== src/Assignment/Invariant.antt =====
-- The invariant that ties the tasks to the vectors, and the states that the functions reach.
use perprocess_syscall_tbl.Prelude.{
  get_elem?-modify, ℕ, suc, zero, ◌≤◌, ◌≡◌, refl, ap, ◌∙◌, ◌⊎◌, inl, inr, subst, ℤ, pos, ◌==ℤ◌,
  true, false, none, some, is_some, List, [], ◌∷◌, All, All-map, All-get_elem?, arith, length,
  length-modify, modify-modify, get_elem?, modify,
}
use perprocess_syscall_tbl.Kernel.{SyscallVector, Task, State, done, enoent}
use perprocess_syscall_tbl.Vectors.Ids.{Ascending}
use perprocess_syscall_tbl.Vectors.Search.{position, get_syscall_vector-position}
use perprocess_syscall_tbl.Assignment.{take_ref, drop_ref, assign_task, unassign_task, move_task}
use perprocess_syscall_tbl.Assignment.Users.{one-le-users}
use perprocess_syscall_tbl.Assignment.Counts.{
  Counted, set_vector_id, Ascending-modify, position-modify, drop_ref-id, take_ref-id,
  drop_ref-Counted, take_ref-Counted,
}

-- A task uses the default vector or one of the ring.
abbrev pub Placed : List SyscallVector → Task → Type 0
Placed vs t = (t.vector_id ≡ pos 0) ⊎ (is_some (position t.vector_id vs) ≡ true)

-- Between calls: the lock is free, the ids ascend from 1, each vector counts the tasks that use it,
-- each task uses a vector that there is, and the counts fit a `short`.
pub record Tallied (s : State) : Type 0 where
  pub free : s.lock ≡ false
  pub ids : Ascending (pos 0) s.vector_list
  pub counts : All (Counted s.tasks) s.vector_list
  pub placed : All (Placed s.vector_list) s.tasks
  pub few : length s.tasks ≤ 32767

-- A change of vectors that keeps their ids.
abbrev pub revised : State → List SyscallVector → List Task → State
revised s vs ts = record s { lock = false; vector_list = vs; tasks = ts }

module _ (s : State) (free : s.lock ≡ false) (i : ℕ) where
  pub assign_task-none :
      (w : ℤ) → position w s.vector_list ≡ none → assign_task w i s ≡ done enoent s
  unfolding assign_task
  assign_task-none w e = ground (arith, get_syscall_vector-position w (record s { lock = true }))

  pub assign_task-some :
      (w : ℤ) (j : ℕ)
      → position w s.vector_list ≡ some j
      → assign_task w i s
        ≡ done (pos 0) (revised s (modify s.vector_list j take_ref) (set_vector_id s.tasks i w))
  unfolding assign_task
  assign_task-some w j e = ground (arith, get_syscall_vector-position w (record s { lock = true }))

  pub unassign_task-some :
      (w : ℤ) (j : ℕ) (v : SyscallVector)
      → position w s.vector_list ≡ some j
      → get_elem? s.vector_list j ≡ some v
      → (v.refcnt ==ℤ pos 0) ≡ false
      → unassign_task w i s
        ≡ done
            (pos 0)
            (revised s (modify s.vector_list j drop_ref) (set_vector_id s.tasks i (pos 0)))
  unfolding unassign_task
  unassign_task-some w j v e at used =
      ground (arith, get_syscall_vector-position w (record s { lock = true }))

  pub move_task-none :
      (w old : ℤ) → position w s.vector_list ≡ none → move_task w old i s ≡ done enoent s
  unfolding move_task
  move_task-none w old e = ground (arith, get_syscall_vector-position w (record s { lock = true }))

  pub move_task-some :
      (w old : ℤ) (j k : ℕ) (v : SyscallVector)
      → position w s.vector_list ≡ some j
      → position old s.vector_list ≡ some k
      → get_elem? s.vector_list k ≡ some v
      → (v.refcnt ==ℤ pos 0) ≡ false
      → move_task w old i s
        ≡ done (pos 0) (
            revised s
              (modify (modify s.vector_list k drop_ref) j take_ref)
              (set_vector_id s.tasks i w))
  unfolding move_task
  move_task-some w old j k v e f at used = ground (
    arith,
    get_syscall_vector-position w (record s { lock = true }),
    get_syscall_vector-position old (record s { lock = true }),
  )

Placed-set :
    (vs ws : List SyscallVector) (ts : List Task) (i : ℕ) (w : ℤ)
    → ((id : ℤ) → position id ws ≡ position id vs)
    → (w ≡ pos 0) ⊎ (is_some (position w vs) ≡ true)
    → All (Placed vs) ts
    → All (Placed ws) (set_vector_id ts i w)
unfolding modify
Placed-set vs ws [] i w same new h = tt
Placed-set vs ws (t ∷ ts) zero w same new h =
    (rw (same w) new, All-map ts (λ u p. rw (same u.vector_id) p) h.1)
Placed-set vs ws (t ∷ ts) (suc i) w same new h =
    (rw (same t.vector_id) h.0, Placed-set vs ws ts i w same new h.1)

module _ (s : State) (v : Tallied s) (i : ℕ) (t : Task) (at : get_elem? s.tasks i ≡ some t) where
  pub dropped-Tallied :
      (j : ℕ)
      → position t.vector_id s.vector_list ≡ some j
      → Tallied (revised s (modify s.vector_list j drop_ref) (set_vector_id s.tasks i (pos 0)))
  dropped-Tallied j e = record {
    free = refl;
    ids = Ascending-modify drop_ref drop_ref-id (pos 0) s.vector_list j v.ids;
    counts = drop_ref-Counted s.tasks s.vector_list i j t v.few v.ids v.counts at e;
    placed =
        Placed-set s.vector_list _ s.tasks i (pos 0)
          (λ id. position-modify drop_ref drop_ref-id id s.vector_list j) (inl refl) v.placed;
    few = rw (length-modify s.tasks i) v.few;
  }

  pub taken-Tallied :
      (w : ℤ) (j : ℕ)
      → t.vector_id ≡ pos 0
      → position w s.vector_list ≡ some j
      → Tallied (revised s (modify s.vector_list j take_ref) (set_vector_id s.tasks i w))
  taken-Tallied w j default e = record {
    free = refl;
    ids = Ascending-modify take_ref take_ref-id (pos 0) s.vector_list j v.ids;
    counts = take_ref-Counted s.tasks s.vector_list i j t v.few v.ids v.counts at w default e;
    placed =
        Placed-set s.vector_list _ s.tasks i w
          (λ id. position-modify take_ref take_ref-id id s.vector_list j) (inr (ap is_some e))
          v.placed;
    few = rw (length-modify s.tasks i) v.few;
  }

  -- A vector in use does not count 0.
  pub used_ne_zero :
      (u : SyscallVector) (j : ℕ)
      → get_elem? s.vector_list j ≡ some u
      → u.id ≡ t.vector_id
      → (u.refcnt ==ℤ pos 0) ≡ false
  used_ne_zero u j here same =
      let (above, count) = All-get_elem? (Counted s.tasks) s.vector_list j u v.counts here in
      rw (count, same) (ground (arith, one-le-users s.tasks i t at))

module _ (s : State) (v : Tallied s) (i : ℕ) (t : Task) (at : get_elem? s.tasks i ≡ some t) where
  pub moved-Tallied :
      (w : ℤ) (j k : ℕ)
      → position t.vector_id s.vector_list ≡ some k
      → position w s.vector_list ≡ some j
      → Tallied (
          revised s
            (modify (modify s.vector_list k drop_ref) j take_ref)
            (set_vector_id s.tasks i w))
  moved-Tallied w j k e f =
      subst (λ ts. Tallied (revised s (modify (modify s.vector_list k drop_ref) j take_ref) ts))
        (modify-modify s.tasks i _ _)
        (taken-Tallied _ (dropped-Tallied s v i t at k e) i _ (get_elem?-modify s.tasks i _ t at) w
          j refl (position-modify drop_ref drop_ref-id w s.vector_list k ∙ f))
