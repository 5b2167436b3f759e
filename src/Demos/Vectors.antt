-- ===== src/Demos/Vectors.antt =====
-- What assign_syscall_vector leaves for a process that there is, on whichever vector it is.
use perprocess_syscall_tbl.Prelude.{
  ℕ, zero, suc, ◌≡◌, refl, sym, ap, ◌∙◌, ◌≢◌, inl, inr, ℤ, pos, ne→==ℤ, ℤ-eq-cases, false, some,
  Option-cases, List, [], ◌∷◌, get_elem?, modify, get_elem?-modify, arith, if◌then◌else◌,
}
use perprocess_syscall_tbl.Kernel.{Task, State, done, enoent}
use perprocess_syscall_tbl.Vectors.Search.{position}
use perprocess_syscall_tbl.Assignment.{take_ref, assign_syscall_vector}
use perprocess_syscall_tbl.Assignment.Counts.{set_vector_id, position-modify, take_ref-id}
use perprocess_syscall_tbl.Assignment.Evacuation.{process-set}
use perprocess_syscall_tbl.Assignment.Invariant.{assign_task-none, assign_task-some}
use perprocess_syscall_tbl.Assignment.Branches.{process, is_known, assign-same, assign-task}

-- The lock is free, and the process uses the vector `v`.
pub record Uses (s : State) (tid v : ℤ) : Type 0 where
  pub free : s.lock ≡ false
  pub index : ℕ
  pub task : Task
  pub found : process tid s.tasks ≡ some index
  pub at : get_elem? s.tasks index ≡ some task
  pub uses : task.vector_id ≡ v

abbrev pub pids : List Task → List ℤ
pids [] = []
pids (t ∷ ts) = t.pid ∷ pids ts

-- The ids of the processes and the known vectors are the same.
pub record SameNames (s u : State) : Type 0 where
  pub pids_same : pids u.tasks ≡ pids s.tasks
  pub known_same : (id : ℤ) → is_known id u.vector_list ≡ is_known id s.vector_list

pids-modify : (ts : List Task) (i : ℕ) (w : ℤ) → pids (set_vector_id ts i w) ≡ pids ts
unfolding modify
pids-modify [] i w = refl
pids-modify (t ∷ ts) zero w = refl
pids-modify (t ∷ ts) (suc i) w = ap (λ r. t.pid ∷ r) (pids-modify ts i w)

module _ (s : State) (pid v : ℤ) (it : Uses s pid v) (w : ℤ) where
  pub record Assigned : Type 0 where
    pub rc : ℤ
    pub after : State
    pub ends : assign_syscall_vector w pid s ≡ done rc after
    pub runs : Uses after pid (if is_known w s.vector_list then w else v)
    pub same : SameNames s after

  stays : (x : ℤ) → v ≡ x → Uses s pid x
  stays x e = record {
    free = it.free;
    index = it.index;
    task = it.task;
    found = it.found;
    at = it.at;
    uses = it.uses ∙ e;
  }

  unchanged : SameNames s s
  unchanged = record { pids_same = refl; known_same = λ id. refl }

  -- The process uses the asked vector where it is known, and the one before where not.
  pub assign_syscall_vector-Uses : w ≢ pos 0 → Assigned
  assign_syscall_vector-Uses n = elim (ℤ-eq-cases w v) [
    | inl same ↦ record {
      rc = pos 0;
      after = s;
      ends = assign-same s pid w it.index it.task it.found it.at (same ∙ sym it.uses);
      runs = stays _ (ground (arith, same));
      same = unchanged;
    }
    | inr d ↦
        let asked = assign-task s pid w it.index it.task it.found it.at (λ e. d (e ∙ it.uses)) in
        elim (Option-cases (position w s.vector_list)) [
          | inl gone ↦ record {
            rc = enoent;
            after = s;
            ends = asked ∙ assign_task-none s it.free it.index w gone;
            runs = stays _ (rw (ne→==ℤ w (pos 0) n, gone) refl);
            same = unchanged;
          }
          | inr (j, e) ↦ record {
            rc = pos 0;
            after = _;
            ends = asked ∙ assign_task-some s it.free it.index w j e;
            runs = record {
              free = refl;
              index = it.index;
              task = record it.task { vector_id = w };
              found = process-set pid w s.tasks it.index ∙ it.found;
              at = get_elem?-modify s.tasks it.index _ it.task it.at;
              uses = rw (ne→==ℤ w (pos 0) n, e) refl;
            };
            same = record {
              pids_same = pids-modify s.tasks it.index w;
              known_same = λ id. rw (position-modify take_ref take_ref-id id s.vector_list j) refl;
            };
          }
        ]
  ]
