-- ===== src/Races/Counts.antt =====
-- Two calls of reassign_syscall_vector for one process that overlap, and what they do to the counts.
use perprocess_syscall_tbl.Prelude.{
  ℕ, zero, suc, ◌+◌, ◌≤◌, ltb, ◌≡◌, ◌≢◌, refl, sym, ap, ◌∙◌, ℤ, pos, ==ℤ_refl, ne→==ℤ, true, false,
  some, some-inj, List, [], ◌∷◌, arith, get_elem?, get_elem?-modify, get_elem?-modify_ne, modify,
  find_idx, All-get_elem?, if◌then◌else◌,
}
use perprocess_syscall_tbl.Kernel.{SyscallVector, Task, State, done, ebusy}
use perprocess_syscall_tbl.Vectors.{remove_syscall_vector}
use perprocess_syscall_tbl.Vectors.Search.{position, position-eq_some}
use perprocess_syscall_tbl.Vectors.Operations.{removed, remove_syscall_vector-some}
use perprocess_syscall_tbl.Assignment.{
  take_ref, drop_ref, assign_task, move_task, get_process_by_pid,
}
use perprocess_syscall_tbl.Assignment.Users.{users, users-modify, users-le-length, one_if}
use perprocess_syscall_tbl.Assignment.Counts.{
  Counted, set_vector_id, position-modify, take_ref-id, drop_ref-id, drop_ref-pos,
}
use perprocess_syscall_tbl.Assignment.Invariant.{
  Tallied, revised, assign_task-some, move_task-some, taken-Tallied, moved-Tallied, used_ne_zero,
}
use perprocess_syscall_tbl.Assignment.Branches.{process, assign-task}
use perprocess_syscall_tbl.Assignment.Assign.{assign_syscall_vector_leak}
use perprocess_syscall_tbl.Races.{
  begun, in_assign, assigning, moving, ended, check_reassign, check_assign, advance, schedule,
}

process-set :
    (pid w : ℤ) (ts : List Task) (i : ℕ) → process pid (set_vector_id ts i w) ≡ process pid ts
unfolding find_idx modify
process-set pid w [] i = refl
process-set pid w (t ∷ ts) zero = refl
process-set pid w (t ∷ ts) (suc i) = rw (process-set pid w ts i) refl

module _ (s : State) (pid : ℤ) (i : ℕ) (t : Task) (who : process pid s.tasks ≡ some i)
    (at : get_elem? s.tasks i ≡ some t) (default : t.vector_id ≡ pos 0) (w : ℤ)
    (given : w ≢ pos 0) where
  first_check : advance (begun w pid) s ≡ done (in_assign w pid) s
  unfolding advance check_reassign
  first_check = rw (who, at, default, ne→==ℤ w (pos 0) given) refl

  second_check : advance (in_assign w pid) s ≡ done (assigning w i) s
  unfolding advance check_assign
  second_check = rw (who, at, default, ne→==ℤ w (pos 0) given) refl

assigned :
    (s : State) (w : ℤ) (i : ℕ) (rc : ℤ) (t : State)
    → assign_task w i s ≡ done rc t
    → advance (assigning w i) s ≡ done (ended rc) t
unfolding advance
assigned s w i rc t e = rw e refl

-- Two calls for a process on the default vector, with two known vectors: both make their checks before
-- the first one takes the lock. Both return 0, and the first vector keeps a count that is one too high.
pub schedule_leaks :
    (s : State) (pid x y : ℤ) (i j k : ℕ) (t : Task)
    → Tallied s
    → process pid s.tasks ≡ some i
    → get_elem? s.tasks i ≡ some t
    → t.vector_id ≡ pos 0
    → x ≢ pos 0
    → y ≢ pos 0
    → y ≢ x
    → position x s.vector_list ≡ some j
    → position y s.vector_list ≡ some k
    → (r : State) × (m : ℕ) × (u : SyscallVector) × (schedule
          (true ∷ true ∷ false ∷ false ∷ true ∷ false ∷ [])
          (begun x pid)
          (begun y pid)
          s
        ≡ done (ended (pos 0), ended (pos 0)) r)
      × (get_elem? r.vector_list m ≡ some u)
      × (u.id ≡ x)
      × (u.refcnt ≡ pos (users x r.tasks + 1))
unfolding schedule
schedule_leaks s pid x y i j k t inv who at default nx ny apart found_x found_y =
    let mid : State = revised s (modify s.vector_list j take_ref) (set_vector_id s.tasks i x) in
    let task : Task = record t { vector_id = x } in
    let inv' = taken-Tallied s inv i t at x j default found_x in
    let who' = process-set pid x s.tasks i ∙ who in
    let at' : get_elem? mid.tasks i ≡ some task = get_elem?-modify s.tasks i _ t at in
    let found' = position-modify take_ref take_ref-id y s.vector_list j ∙ found_y in
    let (r, m, u, e, here, id, count) =
      assign_syscall_vector_leak mid y pid i k task inv' who' at' nx apart found' in
    let last = sym (assign-task mid pid y i task who' at' apart) ∙ e in
    (
      r,
      m,
      u,
      rw
          (
            first_check s pid i t who at default x nx,
            second_check s pid i t who at default x nx,
            first_check s pid i t who at default y ny,
            second_check s pid i t who at default y ny,
            assigned s x i (pos 0) mid (assign_task-some s inv.free i x j found_x),
            assigned mid y i (pos 0) r last,
          )
          refl,
      here,
      id,
      count,
    )

-- A thread that moves a process away from a vector that the process has left already.
moving_stale :
    (s : State) (w old : ℤ) (i j k n : ℕ) (t : Task) (v : SyscallVector)
    → Tallied s
    → get_elem? s.tasks i ≡ some t
    → t.vector_id ≢ old
    → w ≢ old
    → position w s.vector_list ≡ some j
    → position old s.vector_list ≡ some k
    → get_elem? s.vector_list k ≡ some v
    → users old s.tasks ≡ suc n
    → (r : State) × (u : SyscallVector) × (advance (moving w old i) s ≡ done (ended (pos 0)) r)
      × (r.lock ≡ false)
      × (position old r.vector_list ≡ some k)
      × (get_elem? r.vector_list k ≡ some u)
      × (u.refcnt ≡ pos n)
      × (users old r.tasks ≡ suc n)
unfolding advance
moving_stale s w old i j k n t v inv at left apart found_w found_old at_k many =
    let (v', there, named) = position-eq_some old s.vector_list k found_old in
    let (x, at_j, named_w) = position-eq_some w s.vector_list j found_w in
    let mine : v.id ≡ old = ap (λ r. r.id) (some-inj v v' (sym at_k ∙ there)) ∙ named in
    let others : k ≢ j = λ q. apart (
      sym named_w
      ∙ ap (λ r. r.id) (some-inj x v (sym at_j ∙ ap (get_elem? s.vector_list) (sym q) ∙ at_k))
      ∙ mine) in
    let count : v.refcnt ≡ pos (suc n) =
      (All-get_elem? (Counted s.tasks) s.vector_list k v inv.counts at_k).1
      ∙ ap (λ x. pos (users x s.tasks)) mine
      ∙ ap pos many in
    let few : n ≤ 32767 = omega (arith, users-le-length old s.tasks, inv.few) in
    (
      revised s (modify (modify s.vector_list k drop_ref) j take_ref) (set_vector_id s.tasks i w),
      drop_ref v,
      rw (move_task-some s inv.free i w old j k v found_w found_old at_k (ground (arith, count)))
          refl,
      refl,
      position-modify take_ref take_ref-id old _ j
          ∙ position-modify drop_ref drop_ref-id old s.vector_list k
          ∙ found_old,
      get_elem?-modify_ne (modify s.vector_list k drop_ref) k j take_ref others
          ∙ get_elem?-modify s.vector_list k drop_ref v at_k,
      drop_ref-pos v n count few,
      omega (
        arith,
        users-modify old w s.tasks i t at,
        ap one_if (ne→==ℤ t.vector_id old left),
        ap one_if (ne→==ℤ w old apart),
      ),
    )

module _ (s : State) (pid : ℤ) (i : ℕ) (t : Task) (who : process pid s.tasks ≡ some i)
    (at : get_elem? s.tasks i ≡ some t) (used : t.vector_id ≢ pos 0) (w : ℤ) (given : w ≢ pos 0)
    (other : w ≢ t.vector_id) where
  move_check : advance (begun w pid) s ≡ done (moving w t.vector_id i) s
  unfolding advance check_reassign
  move_check =
      rw
        (
          who,
          at,
          ne→==ℤ t.vector_id (pos 0) used,
          ne→==ℤ w (pos 0) given,
          ne→==ℤ w t.vector_id other,
        )
        (rw (get_process_by_pid, who) refl)

moved :
    (s : State) (w old : ℤ) (i : ℕ) (rc : ℤ) (t : State)
    → move_task w old i s ≡ done rc t
    → advance (moving w old i) s ≡ done (ended rc) t
unfolding advance
moved s w old i rc t e = rw e refl

-- Two calls for a process on a vector that `n + 2` processes use, to two other known vectors: both make
-- their checks before the first one takes the lock. Both return 0 and take a reference of the old
-- vector back: `n + 1` processes use it and it counts `n`. With `n` equal to 0 remove_syscall_vector
-- then removes it, though a process uses it.
pub schedule_undercounts :
    (s : State) (pid x y : ℤ) (i j k l n : ℕ) (t : Task)
    → Tallied s
    → process pid s.tasks ≡ some i
    → get_elem? s.tasks i ≡ some t
    → t.vector_id ≢ pos 0
    → x ≢ pos 0
    → y ≢ pos 0
    → x ≢ t.vector_id
    → y ≢ t.vector_id
    → position x s.vector_list ≡ some j
    → position y s.vector_list ≡ some k
    → position t.vector_id s.vector_list ≡ some l
    → users t.vector_id s.tasks ≡ suc (suc n)
    → (r : State) × (u : SyscallVector) × (schedule
          (true ∷ false ∷ true ∷ false ∷ [])
          (begun x pid)
          (begun y pid)
          s
        ≡ done (ended (pos 0), ended (pos 0)) r)
      × (get_elem? r.vector_list l ≡ some u)
      × (u.refcnt ≡ pos n)
      × (users t.vector_id r.tasks ≡ suc n)
      × (remove_syscall_vector t.vector_id r
          ≡ (if ltb 0 n then done ebusy r else done (pos 0) (removed l r)))
unfolding schedule
schedule_undercounts s pid x y i j k l n t inv who at used nx ny apart_x apart_y found_x found_y
      found many =
    let old : ℤ = t.vector_id in
    let mid : State =
      revised s (modify (modify s.vector_list l drop_ref) j take_ref) (set_vector_id s.tasks i x) in
    let inv' = moved-Tallied s inv i t at x j l found found_x in
    let (v, here, named) = position-eq_some old s.vector_list l found in
    let still = λ (w : ℤ).
      position-modify take_ref take_ref-id w (modify s.vector_list l drop_ref) j
      ∙ position-modify drop_ref drop_ref-id w s.vector_list l in
    let task : Task = record t { vector_id = x } in
    let at' : get_elem? mid.tasks i ≡ some task = get_elem?-modify s.tasks i _ t at in
    let (v', here', _) = position-eq_some old mid.vector_list l (still old ∙ found) in
    let left : users old mid.tasks ≡ suc n = omega (
      arith,
      users-modify old x s.tasks i t at,
      ap one_if (==ℤ_refl old),
      ap one_if (ne→==ℤ x old apart_x),
    ) in
    let (r, u, e, free, where_, there, count, users_left) =
      moving_stale mid y old i k l n task v' inv' at' apart_x apart_y (still y ∙ found_y)
        (still old ∙ found) here' left in
    let first =
      move_task-some s inv.free i x old j l v found_x found here
        (used_ne_zero s inv i t at v l here named) in
    (
      r,
      u,
      rw
          (
            move_check s pid i t who at used x nx apart_x,
            move_check s pid i t who at used y ny apart_y,
            moved s x old i (pos 0) mid first,
            e,
          )
          refl,
      there,
      count,
      users_left,
      remove_syscall_vector-some old r free l u where_ there ∙ rw count (ground arith),
    )
