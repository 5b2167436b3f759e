-- ===== src/Vectors/Operations.antt =====
-- add_syscall_vector and remove_syscall_vector as transitions of the table.
use perprocess_syscall_tbl.Prelude.{
  ℕ, ◌≡◌, refl, ◌≢◌, ◌⊎◌, inl, inr, ℤ, pos, ◌<ℤ◌, ltb_ℤ, true, false, none, some, List, ◌∷◌, All,
  All-get_elem?, subst, arith, get_elem?, erase_idx, if◌then◌else◌, Option-cases,
}
use perprocess_syscall_tbl.Ring.{remove_node}
use perprocess_syscall_tbl.Kernel.{
  SyscallVector, State, done, module_get, module_put, spin_lock, enoent, ebusy,
}
use perprocess_syscall_tbl.Vectors.{
  place_vector, empty_vector, add_syscall_vector, remove_syscall_vector,
}
use perprocess_syscall_tbl.Vectors.Ids.{
  Ascending, Ascending-above, place_vector-Ascending, place_vector-get_elem?,
}
use perprocess_syscall_tbl.Vectors.Search.{
  position, get_syscall_vector-position, position-eq_some, position-get_elem?, erase_idx-ne,
}

-- The state after the empty vector was placed.
abbrev pub added : State → State
added s = record s {
  lock = false;
  vector_list = (place_vector empty_vector s.vector_list).2;
  module_log = module_get s.syscall_module ∷ s.module_log;
}

pub add_syscall_vector-added :
    (s : State)
    → s.lock ≡ false
    → add_syscall_vector true s ≡ done (place_vector empty_vector s.vector_list).1 (added s)
unfolding add_syscall_vector
add_syscall_vector-added s h = rw (h, spin_lock)

-- The state after the vector at a position was taken out.
abbrev pub removed : ℕ → State → State
removed i s = record s {
  lock = false;
  vector_list = erase_idx s.vector_list i;
  module_log = module_put s.syscall_module ∷ s.module_log;
}

module _ (id : ℤ) (s : State) (free : s.lock ≡ false) where
  pub remove_syscall_vector-none :
      position id s.vector_list ≡ none → remove_syscall_vector id s ≡ done enoent s
  unfolding remove_syscall_vector
  remove_syscall_vector-none e =
      ground (arith, get_syscall_vector-position id (record s { lock = true }))

  pub remove_syscall_vector-some :
      (i : ℕ) (v : SyscallVector)
      → position id s.vector_list ≡ some i
      → get_elem? s.vector_list i ≡ some v
      → remove_syscall_vector id s
        ≡ (if ltb_ℤ (pos 0) v.refcnt then done ebusy s else done (pos 0) (removed i s))
  unfolding remove_syscall_vector remove_node
  remove_syscall_vector-some i v e f =
      ground (arith, get_syscall_vector-position id (record s { lock = true }))

-- remove_syscall_vector on every branch: an unknown id changes nothing; a vector in use changes
-- nothing; otherwise exactly the vector with the id is taken out, the lock is free again and the
-- module gives one reference back.
pub remove_syscall_vector_cases :
    (id : ℤ) (s : State)
    → s.lock ≡ false
    → ((position id s.vector_list ≡ none) × (remove_syscall_vector id s ≡ done enoent s))
      ⊎ ((i : ℕ) × (v : SyscallVector) × (get_elem? s.vector_list i ≡ some v)
          × (v.id ≡ id)
          × (remove_syscall_vector id s
              ≡ (if ltb_ℤ (pos 0) v.refcnt then done ebusy s else done (pos 0) (removed i s))))
remove_syscall_vector_cases id s free = elim (Option-cases (position id s.vector_list)) [
  | inl e ↦ inl (e, remove_syscall_vector-none id s free e)
  | inr (i, e) ↦
      let (v, at, same) = position-eq_some id s.vector_list i e in
      inr (i, v, at, same, remove_syscall_vector-some id s free i v e at)
]

-- In a ring with ascending ids and room for one more, add_syscall_vector returns an id that no vector
-- has, get_syscall_vector finds the new vector under it, and removing that id restores the ring; the
-- ids stay ascending and positive, and the lock is free after each call.
pub add_syscall_vector-remove :
    (s : State)
    → s.lock ≡ false
    → Ascending (pos 0) s.vector_list
    → All (λ v. v.id <ℤ pos 32767) s.vector_list
    → (id : ℤ) × (t : State) × (u : State) × (add_syscall_vector true s ≡ done id t)
      × (pos 0 <ℤ id)
      × All (λ v. v.id ≢ id) s.vector_list
      × Ascending (pos 0) t.vector_list
      × (remove_syscall_vector id t ≡ done (pos 0) u)
      × (u.vector_list ≡ s.vector_list)
      × (u.lock ≡ false)
unfolding empty_vector
add_syscall_vector-remove s free a room =
    let ring : List SyscallVector = (place_vector empty_vector s.vector_list).2 in
    let (i, here, rest) = place_vector-get_elem? empty_vector s.vector_list in
    let sorted = place_vector-Ascending empty_vector s.vector_list a room in
    let found = position-get_elem? (pos 0) ring i _ sorted here in
    (
      (place_vector empty_vector s.vector_list).1,
      added s,
      removed i (added s),
      add_syscall_vector-added s free,
      All-get_elem? (λ v. pos 0 <ℤ v.id) ring i _ (Ascending-above (pos 0) ring sorted) here,
      subst (All λ v. v.id ≢ (place_vector empty_vector s.vector_list).1) rest
          (erase_idx-ne (pos 0) ring i _ sorted here),
      sorted,
      remove_syscall_vector-some _ (added s) refl i _ found here,
      rest,
      refl,
    )
