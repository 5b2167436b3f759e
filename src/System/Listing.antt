-- ===== src/System/Listing.antt =====
-- The operations on vectors and processes keep the invariant of the whole table.
use perprocess_syscall_tbl.Prelude.{
  ℕ, ◌≡◌, refl, sym, ◌∙◌, subst, ℤ, pos, ◌<ℤ◌, ltb_ℤ, Bool, true, false, some, [], All, arith,
  get_elem?, inl, inr, Bool-cases, replicate, ◌⊎◌,
}
use perprocess_syscall_tbl.Ring.Insert.{All-erase_idx}
use perprocess_syscall_tbl.Kernel.{Task, State, done, enomem, enoent, ebusy, Outcome}
use perprocess_syscall_tbl.Vectors.{
  empty_vector, place_vector, add_syscall_vector, remove_syscall_vector,
}
use perprocess_syscall_tbl.Vectors.Ids.{place_vector-get_elem?}
use perprocess_syscall_tbl.Vectors.Operations.{
  added, removed, add_syscall_vector-added, remove_syscall_vector_cases,
}
use perprocess_syscall_tbl.Assignment.{
  assign_syscall_vector, unassign_syscall_vector, reassign_syscall_vector,
}
use perprocess_syscall_tbl.Assignment.Invariant.{Tallied}
use perprocess_syscall_tbl.Assignment.Branches.{process, Switches}
use perprocess_syscall_tbl.Assignment.Assign.{
  assign_syscall_vector-Tallied, unassign_syscall_vector-Tallied,
}
use perprocess_syscall_tbl.Assignment.Reassign.{reassign_syscall_vector-Tallied}
use perprocess_syscall_tbl.Assignment.Lifecycle.{
  All-of-erase_idx, add_syscall_vector-Tallied, remove_syscall_vector-Tallied,
}
use perprocess_syscall_tbl.System.Invariant.{IsMapped, Sound, Ends, nothing, just, idle}
use perprocess_syscall_tbl.System.Spares.{Spares, added-Spares, erase_idx-Spares}
use perprocess_syscall_tbl.System.Keeps.{Keeps}
use perprocess_syscall_tbl.System.Frame.{
  SameCalls-Sound, SameCalls-Untouched, assign_syscall_vector-Keeps, unassign_syscall_vector-Keeps,
  reassign_syscall_vector-Keeps,
}

done-state : {A : Type 0} {a b : A} {s t : State} → done a s ≡ done b t → s ≡ t
done-state e = cc

module _ (s : State) (sound : Sound s) where
  -- A command on processes that ends with exact counts.
  switched :
      (w : ℤ) (i : _) (m : State → Outcome ℤ)
      → Keeps m
      → Switches s w i (m s)
      → Ends nothing s (m s)
  switched w i m keeps (rc, t, e, inv, _) =
      let k = keeps.keeps s rc t e in
      (rc, t, e, SameCalls-Sound s t k inv sound, λ w. SameCalls-Untouched s t k w)

  pub assign-Ends :
      (w pid : ℤ) (i : ℕ) (t : Task)
      → process pid s.tasks ≡ some i
      → get_elem? s.tasks i ≡ some t
      → (t.vector_id ≡ pos 0) ⊎ (t.vector_id ≡ w)
      → Ends nothing s (assign_syscall_vector w pid s)
  assign-Ends w pid i t who at before =
      switched w (some i) (assign_syscall_vector w pid) (assign_syscall_vector-Keeps w pid)
        (assign_syscall_vector-Tallied s w pid i t sound.tallied who at before)

  pub unassign-Ends :
      (pid : ℤ) (i : ℕ)
      → process pid s.tasks ≡ some i
      → Ends nothing s (unassign_syscall_vector pid s)
  unassign-Ends pid i who =
      switched (pos 0) (some i) (unassign_syscall_vector pid) (unassign_syscall_vector-Keeps pid)
        (unassign_syscall_vector-Tallied s pid i sound.tallied who)

  pub reassign-Ends : (w pid : ℤ) → Ends nothing s (reassign_syscall_vector w pid s)
  reassign-Ends w pid =
      switched w (process pid s.tasks) (reassign_syscall_vector w pid)
        (reassign_syscall_vector-Keeps w pid)
        (reassign_syscall_vector-Tallied s w pid sound.tallied)

  relisted :
      (t : State)
      → t.heap ≡ s.heap
      → t.syscall_list ≡ s.syscall_list
      → Tallied t
      → All (IsMapped s.heap) t.vector_list
      → Sound t
  relisted t h l inv vectors = record {
    tallied = inv;
    calls = sound.calls;
    registry = record {
      free = inv.free;
      live = rw (h, l) sound.registry.live;
      short = sound.registry.short;
      sorted = sound.registry.sorted;
    };
    vectors = rw h vectors;
  }

  empty-IsMapped : (id : ℤ) → IsMapped s.heap (record empty_vector { id = id })
  unfolding empty_vector replicate
  empty-IsMapped id = record {
    calls = [];
    live = tt;
    sorted = tt;
    bytes = omega arith;
    whole = refl;
  }

  pub add_vector-Ends :
      (allocated : Bool)
      → All (λ v. v.id <ℤ pos 32767) s.vector_list
      → Ends some s (add_syscall_vector allocated s)
  unfolding add_syscall_vector
  add_vector-Ends false room = idle some enomem s _ sound refl
  add_vector-Ends true room =
      let (id, t, e, inv, _, _) = add_syscall_vector-Tallied s sound.tallied room in
      let e' = add_syscall_vector-added s sound.tallied.free in
      let (i, here, rest) = place_vector-get_elem? empty_vector s.vector_list in
      (
        (place_vector empty_vector s.vector_list).1,
        added s,
        e',
        relisted (added s) refl refl (subst Tallied (done-state (sym e ∙ e')) inv) (
            All-of-erase_idx (IsMapped s.heap) _ i _ here
              (empty-IsMapped (place_vector empty_vector s.vector_list).1)
              (subst (All (IsMapped s.heap)) (sym rest) sound.vectors)),
        added-Spares s (added s) i _ here refl (sym rest),
      )

  pub remove_vector-Ends : (id : ℤ) → Ends (just id) s (remove_syscall_vector id s)
  remove_vector-Ends id =
      let (rc, t, e, inv, _, _) = remove_syscall_vector-Tallied s id sound.tallied in
      elim (remove_syscall_vector_cases id s sound.tallied.free) [
        | inl (_, e') ↦ idle (just id) enoent s _ sound e'
        | inr (i, v, at, same_id, e') ↦ elim (Bool-cases (ltb_ℤ (pos 0) v.refcnt)) [
          | inl used ↦ idle (just id) ebusy s _ sound (e' ∙ rw used)
          | inr idle ↦
              let e'' : remove_syscall_vector id s ≡ done (pos 0) (removed i s) = e' ∙ rw idle in
              (
                pos 0,
                removed i s,
                e'',
                relisted (removed i s) refl refl (subst Tallied (done-state (sym e ∙ e'')) inv)
                    (All-erase_idx (IsMapped s.heap) s.vector_list i sound.vectors),
                subst (λ x. Spares (some x) s (removed i s)) same_id
                    (erase_idx-Spares s (removed i s) i v at refl refl),
              )
        ]
      ]
