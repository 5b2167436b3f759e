-- ===== src/Contract/Processes.antt =====
-- assign_, unassign_ and reassign_syscall_vector follow the specification.
use perprocess_syscall_tbl.Prelude.{
  ℕ, ◌≡◌, refl, sym, ap, ◌∙◌, ℤ, pos, ◌==ℤ◌, ◌||◌, Option, none, some, is_some, List, get_elem?,
  Option-cases, inl, inr, ◌⊎◌,
}
use perprocess_syscall_tbl.Kernel.{Ptr, ModuleCall, Task, State, Outcome, done}
use perprocess_syscall_tbl.Vectors.Search.{position}
use perprocess_syscall_tbl.Assignment.{
  assign_syscall_vector, unassign_syscall_vector, reassign_syscall_vector,
}
use perprocess_syscall_tbl.Assignment.Branches.{process, is_known, Switched, Switches}
use perprocess_syscall_tbl.Assignment.Assign.{
  assign_syscall_vector-Tallied, unassign_syscall_vector-Tallied,
}
use perprocess_syscall_tbl.Assignment.Reassign.{reassign_syscall_vector-Tallied}
use perprocess_syscall_tbl.Contract.{switching}
use perprocess_syscall_tbl.Contract.Entries.{records, find_entry}
use perprocess_syscall_tbl.Contract.View.{
  view, view-none, view-some, view-Spares, view-parts, name_test,
}
use perprocess_syscall_tbl.Contract.Promise.{Follows}
use perprocess_syscall_tbl.System.{assign, unassign, reassign}
use perprocess_syscall_tbl.System.Invariant.{Sound}
use perprocess_syscall_tbl.System.Mapped.{entry}
use perprocess_syscall_tbl.System.Keeps.{Keeps, SameCalls}
use perprocess_syscall_tbl.System.Frame.{
  SameCalls-Untouched, assign_syscall_vector-Keeps, unassign_syscall_vector-Keeps,
  reassign_syscall_vector-Keeps,
}

-- The table has a vector where the search finds one.
is_known-view :
    (s : State) (w : ℤ)
    → Sound s
    → ((w ==ℤ pos 0) || is_some ((view s).vectors w)) ≡ is_known w s.vector_list
is_known-view s w sound =
    ap (λ b. (w ==ℤ pos 0) || b)
      (elim (Option-cases (position w s.vector_list)) [
        | inl gone ↦ ap is_some (view-none s w gone) ∙ sym (ap is_some gone)
        | inr (i, found) ↦
            let (v, at, m, _) = entry s sound w i found in
            ap is_some (view-some s w i v m.calls found at m.live) ∙ sym (ap is_some found)
      ])

-- Where only the tasks changed.
view-tasks : (s t : State) → Sound s → SameCalls s t → view t ≡ record (view s) { tasks = t.tasks }
view-tasks s t sound k =
    view-parts t
      (ap (λ h name. find_entry (name_test name) (records h t.syscall_list)) k.heap
        ∙ ap (λ l name. find_entry (name_test name) (records s.heap l)) k.syscall_list)
      (view-Spares s t sound (SameCalls-Untouched s t k)) refl k.module_log k.syscall_module

switched :
    (s t : State) (w : ℤ) (found : Option ℕ) (rc : ℤ)
    → Sound s
    → SameCalls s t
    → Switched s w found rc t
    → (rc, view t) ≡ switching w found (view s)
switched s t w none rc sound k (e, same) = λ i. (e i, view (same i))
switched s t w (some i) rc sound k (inl (known, e, tasks)) =
    rw (is_known-view s w sound ∙ known)
      (λ j. (e j, (view-tasks s t sound k ∙ ap (λ ts. record (view s) { tasks = ts }) tasks) j))
switched s t w (some i) rc sound k (inr (unknown, e, same)) =
    rw (is_known-view s w sound ∙ unknown) (λ j. (e j, view (same j)))

module _ (count : Ptr → List ModuleCall → ℕ) (s : State) (sound : Sound s) where
  follows :
      (w : ℤ) (found : Option ℕ) (m : State → Outcome ℤ)
      → Keeps m
      → Switches s w found (m s)
      → (rc : ℤ) × (t : State) × (m s ≡ done rc t) × ((rc, view t) ≡ switching w found (view s))
  follows w found m keeps (rc, t, e, _, how) =
      (rc, t, e, switched s t w found rc sound (keeps.keeps s rc t e) how)

  pub assign-Follows :
      (id w pid : ℤ) (i : ℕ) (t : Task)
      → process pid s.tasks ≡ some i
      → get_elem? s.tasks i ≡ some t
      → (t.vector_id ≡ pos 0) ⊎ (t.vector_id ≡ w)
      → Follows count id (assign w pid) s
  assign-Follows id w pid i t who at before =
      let (rc, u, e, how) =
        follows w (some i) (assign_syscall_vector w pid) (assign_syscall_vector-Keeps w pid)
          (assign_syscall_vector-Tallied s w pid i t sound.tallied who at before) in
      (rc, u, e, how ∙ sym (ap (λ f. switching w f (view s)) who))

  pub unassign-Follows :
      (id pid : ℤ) (i : ℕ) → process pid s.tasks ≡ some i → Follows count id (unassign pid) s
  unassign-Follows id pid i who =
      let (rc, u, e, how) =
        follows (pos 0) (some i) (unassign_syscall_vector pid) (unassign_syscall_vector-Keeps pid)
          (unassign_syscall_vector-Tallied s pid i sound.tallied who) in
      (rc, u, e, how ∙ sym (ap (λ f. switching (pos 0) f (view s)) who))

  pub reassign-Follows : (id w pid : ℤ) → Follows count id (reassign w pid) s
  reassign-Follows id w pid =
      follows w (process pid s.tasks) (reassign_syscall_vector w pid)
        (reassign_syscall_vector-Keeps w pid)
        (reassign_syscall_vector-Tallied s w pid sound.tallied)
