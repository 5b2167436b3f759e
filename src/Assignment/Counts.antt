-- ===== src/Assignment/Counts.antt =====
-- The counts of the ring against the tasks, where one task drops or takes a vector.
use perprocess_syscall_tbl.Prelude.{
  ℕ, zero, suc, ◌+◌, ◌≤◌, ◌<◌, ◌≡◌, refl, sym, ap, ◌∙◌, ◌≢◌, ℤ, pos, ◌-ℤ◌, ◌+ℤ◌, +ℤ_parts, -ℤ_parts,
  to_short_lem, ◌<ℤ◌, ◌==ℤ◌, ==ℤ_iff, ==ℤ_refl, lt→==ℤ, lt→ne, false, some, List, [], ◌∷◌, All,
  All-map, arith, length, length-modify, get_elem?, modify, find_idx, ne→==ℤ,
}
use perprocess_syscall_tbl.Kernel.{SyscallVector, Task}
use perprocess_syscall_tbl.Assignment.{take_ref, drop_ref}
use perprocess_syscall_tbl.Assignment.Users.{one_if, users, users-le-length, users-modify}
use perprocess_syscall_tbl.Vectors.Ids.{Ascending, Ascending-above}
use perprocess_syscall_tbl.Vectors.Search.{position}

-- A vector has a positive id and counts its users.
abbrev pub Counted : List Task → SyscallVector → Type 0
Counted ts v = (pos 0 <ℤ v.id) × (v.refcnt ≡ pos (users v.id ts))

module _ (f : SyscallVector → SyscallVector) (same : (v : SyscallVector) → (f v).id ≡ v.id) where
  pub Ascending-modify :
      (lo : ℤ) (vs : List SyscallVector) (j : ℕ) → Ascending lo vs → Ascending lo (modify vs j f)
  unfolding modify
  Ascending-modify lo [] j a = tt
  Ascending-modify lo (v ∷ vs) zero a = rw (same v) a
  Ascending-modify lo (v ∷ vs) (suc j) a = (a.0, a.1, Ascending-modify v.id vs j a.2)

  pub position-modify :
      (id : ℤ) (vs : List SyscallVector) (j : ℕ) → position id (modify vs j f) ≡ position id vs
  unfolding modify find_idx
  position-modify id [] j = refl
  position-modify id (v ∷ vs) zero = rw (same v)
  position-modify id (v ∷ vs) (suc j) = rw (position-modify id vs j)

  -- A change of the one vector with an id.
  pub All-modify-position :
      (P Q : SyscallVector → Type 0) (id lo : ℤ) (vs : List SyscallVector) (j : ℕ)
      → Ascending lo vs
      → position id vs ≡ some j
      → ((v : SyscallVector) → v.id ≡ id → P v → Q (f v))
      → ((v : SyscallVector) → v.id ≢ id → P v → Q v)
      → All P vs
      → All Q (modify vs j f)
  unfolding modify find_idx
  All-modify-position P Q id lo [] j a e hit miss h = tt
  All-modify-position P Q id lo (v ∷ vs) zero a e hit miss h =
      let here : v.id ≡ id = (==ℤ_iff v.id id).0 (ground arith) in
      (
        hit v here h.0,
        others vs
            (All-map vs (λ w lt eq. lt→ne v.id w.id lt (here ∙ sym eq))
              (Ascending-above v.id vs a.2))
            h.1,
      )
    where
      others : (ws : List SyscallVector) → All (λ w. w.id ≢ id) ws → All P ws → All Q ws
      others [] n p = tt
      others (w ∷ ws) n p = (miss w n.0 p.0, others ws n.1 p.1)
  All-modify-position P Q id lo (v ∷ vs) (suc j) a e hit miss h = (
    miss v (λ eq. cc (ap (λ x. x ==ℤ id) eq, ==ℤ_refl id)) h.0,
    All-modify-position P Q id v.id vs j a.2 (ground arith) hit miss h.1,
  )

-- `vector_id` of the task at a position.
abbrev pub set_vector_id : List Task → ℕ → ℤ → List Task
set_vector_id ts i w = modify ts i (λ t. record t { vector_id = w })

pub drop_ref-pos :
    (v : SyscallVector) (n : ℕ) → v.refcnt ≡ pos (suc n) → n ≤ 32767 → (drop_ref v).refcnt ≡ pos n
unfolding drop_ref
drop_ref-pos v n e h =
    rw e (ground (arith, to_short_lem (pos (suc n) -ℤ pos 1), -ℤ_parts (pos (suc n)) (pos 1)))

take_ref-pos :
    (v : SyscallVector) (n : ℕ) → v.refcnt ≡ pos n → n < 32767 → (take_ref v).refcnt ≡ pos (n + 1)
unfolding take_ref
take_ref-pos v n e h =
    rw e (ground (arith, to_short_lem (pos n +ℤ pos 1), +ℤ_parts (pos n) (pos 1)))

pub drop_ref-id : (v : SyscallVector) → (drop_ref v).id ≡ v.id
unfolding drop_ref
drop_ref-id v = refl

pub take_ref-id : (v : SyscallVector) → (take_ref v).id ≡ v.id
unfolding take_ref
take_ref-id v = refl

module _ (ts : List Task) (vs : List SyscallVector) (i j : ℕ) (t : Task) (few : length ts ≤ 32767)
    (a : Ascending (pos 0) vs) (counts : All (Counted ts) vs) (at : get_elem? ts i ≡ some t) where
  -- What a change of the task does to the number of users of `k`.
  moved :
      (w k : ℤ)
      → users k (set_vector_id ts i w) + one_if (t.vector_id ==ℤ k) ≡ users k ts + one_if (w ==ℤ k)
  moved w k = users-modify k w ts i t at

  -- The task leaves its vector, whose count falls by one.
  pub drop_ref-Counted :
      position t.vector_id vs ≡ some j
      → All (Counted (set_vector_id ts i (pos 0))) (modify vs j drop_ref)
  unfolding drop_ref
  drop_ref-Counted e =
      All-modify-position drop_ref drop_ref-id (Counted ts) _ t.vector_id (pos 0) vs j a e left
        other counts
    where
      fewer :
          (v : SyscallVector)
          → v.id ≡ t.vector_id
          → pos 0 <ℤ v.id
          → users v.id ts ≡ suc (users v.id (set_vector_id ts i (pos 0)))
      fewer v here above = omega (
        arith,
        moved (pos 0) v.id,
        ap one_if ((==ℤ_iff t.vector_id v.id).1 (sym here)),
        ap one_if (lt→==ℤ (pos 0) v.id above),
      )

      left :
          (v : SyscallVector)
          → v.id ≡ t.vector_id
          → Counted ts v
          → Counted (set_vector_id ts i (pos 0)) (drop_ref v)
      left v here (above, count) = (
        above,
        drop_ref-pos v _ (count ∙ ap pos (fewer v here above))
            (omega (arith, fewer v here above, users-le-length v.id ts)),
      )

      other :
          (v : SyscallVector)
          → v.id ≢ t.vector_id
          → Counted ts v
          → Counted (set_vector_id ts i (pos 0)) v
      other v elsewhere (above, count) = (
        above,
        count
            ∙ ap pos (
                omega (
                  arith,
                  moved (pos 0) v.id,
                  ap one_if (ne→==ℤ t.vector_id v.id (λ q. elsewhere (sym q))),
                  ap one_if (lt→==ℤ (pos 0) v.id above),
                )),
      )

  -- A task on the default vector joins one, whose count rises by one.
  pub take_ref-Counted :
      (w : ℤ)
      → t.vector_id ≡ pos 0
      → position w vs ≡ some j
      → All (Counted (set_vector_id ts i w)) (modify vs j take_ref)
  unfolding take_ref
  take_ref-Counted w default e =
      All-modify-position take_ref take_ref-id (Counted ts) _ w (pos 0) vs j a e joined other counts
    where
      was_default : (v : SyscallVector) → pos 0 <ℤ v.id → (t.vector_id ==ℤ v.id) ≡ false
      was_default v above = ne→==ℤ t.vector_id v.id λ q. lt→ne (pos 0) v.id above (sym default ∙ q)

      more :
          (v : SyscallVector)
          → v.id ≡ w
          → pos 0 <ℤ v.id
          → users v.id (set_vector_id ts i w) ≡ users v.id ts + 1
      more v here above = omega (
        arith,
        moved w v.id,
        ap one_if (was_default v above),
        ap one_if ((==ℤ_iff w v.id).1 (sym here)),
      )

      joined :
          (v : SyscallVector)
          → v.id ≡ w
          → Counted ts v
          → Counted (set_vector_id ts i w) (take_ref v)
      joined v here (above, count) = (
        above,
        take_ref-pos v (users v.id ts) count (
              omega (
                arith,
                more v here above,
                users-le-length v.id (set_vector_id ts i w),
                length-modify ts i (λ (u : Task). record u { vector_id = w }),
              ))
            ∙ ap pos (sym (more v here above)),
      )

      other : (v : SyscallVector) → v.id ≢ w → Counted ts v → Counted (set_vector_id ts i w) v
      other v elsewhere (above, count) = (
        above,
        count
            ∙ ap pos (
                omega (
                  arith,
                  moved w v.id,
                  ap one_if (was_default v above),
                  ap one_if (ne→==ℤ w v.id (λ q. elsewhere (sym q))),
                )),
      )
