-- ===== src/Assignment/Lifecycle.antt =====
-- Adding and removing vectors keeps the tasks and the counts together.
use perprocess_syscall_tbl.Prelude.{
  ℕ, zero, suc, ◌≡◌, refl, sym, ap, ◌∙◌, ◌≢◌, inl, inr, subst, ℤ, pos, ◌<ℤ◌, ◌==ℤ◌, ==ℤ_iff, ne→==ℤ,
  ltb_ℤ, true, false, some, is_some, List, [], ◌∷◌, All, All-map, All-get_elem?, arith, get_elem?,
  erase_idx, find_idx, Bool-cases, Option-cases, lt→ne, some-inj,
}
use perprocess_syscall_tbl.Kernel.{SyscallVector, Task, State, done, enoent, ebusy}
use perprocess_syscall_tbl.Vectors.{
  place_vector, empty_vector, add_syscall_vector, remove_syscall_vector,
}
use perprocess_syscall_tbl.Vectors.Ids.{
  Ascending, Ascending-above, Ascending-mono, place_vector-Ascending, place_vector-get_elem?,
}
use perprocess_syscall_tbl.Vectors.Search.{position, position-eq_some, erase_idx-ne}
use perprocess_syscall_tbl.Vectors.Operations.{
  added, removed, add_syscall_vector-added, remove_syscall_vector_cases,
}
use perprocess_syscall_tbl.Assignment.Users.{users, one_if}
use perprocess_syscall_tbl.Assignment.Counts.{Counted}
use perprocess_syscall_tbl.Assignment.Invariant.{Tallied, Placed}

Ascending-erase_idx :
    (lo : ℤ) (vs : List SyscallVector) (i : ℕ) → Ascending lo vs → Ascending lo (erase_idx vs i)
unfolding erase_idx
Ascending-erase_idx lo [] i a = tt
Ascending-erase_idx lo (v ∷ vs) zero a = Ascending-mono lo v.id vs (omega arith) a.2
Ascending-erase_idx lo (v ∷ vs) (suc i) a = (a.0, a.1, Ascending-erase_idx v.id vs i a.2)

All-erase_idx :
    (P : SyscallVector → Type 0) (vs : List SyscallVector) (i : ℕ)
    → All P vs
    → All P (erase_idx vs i)
unfolding erase_idx
All-erase_idx P [] i h = tt
All-erase_idx P (v ∷ vs) zero h = h.1
All-erase_idx P (v ∷ vs) (suc i) h = (h.0, All-erase_idx P vs i h.1)

-- The other way round: what holds of one and of the rest holds of all.
pub All-of-erase_idx :
    (P : SyscallVector → Type 0) (vs : List SyscallVector) (i : ℕ) (v : SyscallVector)
    → get_elem? vs i ≡ some v
    → P v
    → All P (erase_idx vs i)
    → All P vs
unfolding erase_idx
All-of-erase_idx P [] i v e p h = tt
All-of-erase_idx P (u ∷ vs) zero v e p h = (subst P (sym (some-inj u v e)) p, h)
All-of-erase_idx P (u ∷ vs) (suc i) v e p h = (h.0, All-of-erase_idx P vs i v e p h.1)

-- An id other than that of the vector taken out is found before and after, or neither.
position-erase_idx :
    (id : ℤ) (vs : List SyscallVector) (i : ℕ) (v : SyscallVector)
    → get_elem? vs i ≡ some v
    → v.id ≢ id
    → is_some (position id (erase_idx vs i)) ≡ is_some (position id vs)
unfolding find_idx erase_idx
position-erase_idx id [] i v e n = refl
position-erase_idx id (u ∷ vs) zero v e n =
    let miss : (u.id ==ℤ id) ≡ false =
      ne→==ℤ u.id id (λ q. n (ap (λ r. r.id) (sym (some-inj u v e)) ∙ q)) in
    rw miss (ground arith)
position-erase_idx id (u ∷ vs) (suc i) v e n = ground (arith, position-erase_idx id vs i v e n)

-- A vector that counts nobody is used by nobody.
unused_ne : (id : ℤ) (ts : List Task) → users id ts ≡ 0 → All (λ t. t.vector_id ≢ id) ts
unfolding users
unused_ne id [] h = tt
unused_ne id (t ∷ ts) h = (
  λ e. absurd (omega (arith, ap one_if ((==ℤ_iff t.vector_id id).1 e))),
  unused_ne id ts (omega arith),
)

ne-unused : (id : ℤ) (ts : List Task) → All (λ t. t.vector_id ≢ id) ts → users id ts ≡ 0
unfolding users
ne-unused id [] h = refl
ne-unused id (t ∷ ts) h = omega (arith, ap one_if (ne→==ℤ t.vector_id id h.0), ne-unused id ts h.1)

Placed-erase_idx :
    (vs : List SyscallVector) (i : ℕ) (v : SyscallVector) (ts : List Task)
    → get_elem? vs i ≡ some v
    → All (λ t. t.vector_id ≢ v.id) ts
    → All (Placed vs) ts
    → All (Placed (erase_idx vs i)) ts
Placed-erase_idx vs i v [] e n h = tt
Placed-erase_idx vs i v (t ∷ ts) e n h = (
  elim h.0 [
    | inl z ↦ inl z
    | inr there ↦ inr (position-erase_idx t.vector_id vs i v e (λ q. n.0 (sym q)) ∙ there)
  ],
  Placed-erase_idx vs i v ts e n.1 h.1,
)

Placed-add :
    (vs : List SyscallVector) (i : ℕ) (v : SyscallVector) (ts : List Task)
    → get_elem? vs i ≡ some v
    → All (λ t. t.vector_id ≢ v.id) ts
    → All (Placed (erase_idx vs i)) ts
    → All (Placed vs) ts
Placed-add vs i v [] e n h = tt
Placed-add vs i v (t ∷ ts) e n h = (
  elim h.0 [
    | inl z ↦ inl z
    | inr there ↦ inr (sym (position-erase_idx t.vector_id vs i v e (λ q. n.0 (sym q))) ∙ there)
  ],
  Placed-add vs i v ts e n.1 h.1,
)

-- remove_syscall_vector ends with the invariant, leaves every task as it is, and succeeds only for a
-- vector that no task uses.
pub remove_syscall_vector-Tallied :
    (s : State) (id : ℤ)
    → Tallied s
    → (rc : ℤ) × (t : State) × (remove_syscall_vector id s ≡ done rc t)
      × Tallied t
      × (t.tasks ≡ s.tasks)
      × (rc ≡ pos 0 → All (λ u. u.vector_id ≢ id) s.tasks)
remove_syscall_vector-Tallied s id inv = elim (remove_syscall_vector_cases id s inv.free) [
  | inl (_, e) ↦ (enoent, s, e, inv, refl, λ q. cc)
  | inr (i, v, at, same, e) ↦ elim (Bool-cases (ltb_ℤ (pos 0) v.refcnt)) [
    | inl used ↦ (ebusy, s, e ∙ rw used, inv, refl, λ q. cc)
    | inr idle ↦
        let (_, count) = All-get_elem? (Counted s.tasks) s.vector_list i v inv.counts at in
        let nobody = unused_ne v.id s.tasks (none_left v idle count) in
        (
          pos 0,
          removed i s,
          e ∙ rw idle,
          record {
            free = refl;
            ids = Ascending-erase_idx (pos 0) s.vector_list i inv.ids;
            counts = All-erase_idx (Counted s.tasks) s.vector_list i inv.counts;
            placed = Placed-erase_idx s.vector_list i v s.tasks at nobody inv.placed;
            few = inv.few;
          },
          refl,
          λ q. All-map s.tasks (λ u n r. n (r ∙ sym same)) nobody,
        )
  ]
]
  where
    none_left :
        (v : SyscallVector)
        → ltb_ℤ (pos 0) v.refcnt ≡ false
        → v.refcnt ≡ pos (users v.id s.tasks)
        → users v.id s.tasks ≡ 0
    none_left v idle count = ground arith

-- A task of the table uses the default vector or one of the ring, so not one with a new id.
known_ne :
    (vs : List SyscallVector) (id : ℤ) (ts : List Task)
    → pos 0 <ℤ id
    → All (λ v. v.id ≢ id) vs
    → All (Placed vs) ts
    → All (λ t. t.vector_id ≢ id) ts
known_ne vs id [] p n h = tt
known_ne vs id (t ∷ ts) p n h = (other h.0, known_ne vs id ts p n h.1)
  where
    other : Placed vs t → t.vector_id ≢ id
    other (inl z) e = lt→ne (pos 0) id p (sym z ∙ e)
    other (inr there) e = elim (Option-cases (position t.vector_id vs)) [
      | inl gone ↦ cc (ap is_some gone)
      | inr (j, found) ↦
          let (v, at, same) = position-eq_some t.vector_id vs j found in
          All-get_elem? (λ v. v.id ≢ id) vs j v n at (same ∙ e)
    ]

-- add_syscall_vector with room for one more id ends with the invariant and leaves every task as it
-- is: the new vector counts nobody, and nobody uses it.
pub add_syscall_vector-Tallied :
    (s : State)
    → Tallied s
    → All (λ v. v.id <ℤ pos 32767) s.vector_list
    → (id : ℤ) × (t : State) × (add_syscall_vector true s ≡ done id t)
      × Tallied t
      × (t.tasks ≡ s.tasks)
      × All (λ u. u.vector_id ≢ id) s.tasks
unfolding empty_vector
add_syscall_vector-Tallied s inv room =
    let id : ℤ = (place_vector empty_vector s.vector_list).1 in
    let ring : List SyscallVector = (place_vector empty_vector s.vector_list).2 in
    let (i, here, rest) = place_vector-get_elem? empty_vector s.vector_list in
    let sorted = place_vector-Ascending empty_vector s.vector_list inv.ids room in
    let above =
      All-get_elem? (λ v. pos 0 <ℤ v.id) ring i _ (Ascending-above (pos 0) ring sorted) here in
    let fresh = subst (All λ v. v.id ≢ id) rest (erase_idx-ne (pos 0) ring i _ sorted here) in
    let nobody = known_ne s.vector_list id s.tasks above fresh inv.placed in
    (
      id,
      added s,
      add_syscall_vector-added s inv.free,
      record {
        free = refl;
        ids = sorted;
        counts =
            All-of-erase_idx (Counted s.tasks) ring i _ here
              (above, ap pos (sym (ne-unused id s.tasks nobody)))
              (subst (All (Counted s.tasks)) (sym rest) inv.counts);
        placed =
            Placed-add ring i _ s.tasks here nobody
              (subst (λ r. All (Placed r) s.tasks) (sym rest) inv.placed);
        few = inv.few;
      },
      refl,
      nobody,
    )
