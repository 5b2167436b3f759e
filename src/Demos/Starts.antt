-- ===== src/Demos/Starts.antt =====
-- What clone2 leaves for the process that it starts, with syscall_tbl.c loaded.
use mathlib.Core.Path.{fun_ext}
use perprocess_syscall_tbl.Prelude.{
  ℕ, ◌<◌, ◌≡◌, refl, ap, ◌∙◌, ◌≢◌, inl, inr, ◌⊎◌, ℤ, pos, ◌==ℤ◌, ==ℤ_refl, ne→==ℤ, ==ℤ_iff,
  ℤ-eq-cases, Bool, true, false, not, ◌&&◌, Bool-cases, none, some, List, [], ◌∷◌, ◌++◌, length,
  get_elem?, find_idx, arith, subst, if◌then◌else◌,
}
use perprocess_syscall_tbl.Kernel.{Task, State, M, done}
use perprocess_syscall_tbl.Assignment.{assign_syscall_vector, get_vector_by_pid}
use perprocess_syscall_tbl.Assignment.Branches.{process, is_known}
use perprocess_syscall_tbl.Clone.{CloneArgs, clone2, shares_syscalls}
use perprocess_syscall_tbl.Clone.Wrapper.{to_pid-pos}
use perprocess_syscall_tbl.Clone.Child.{clone2-fork, clone2-assign}
use perprocess_syscall_tbl.Demos.Vectors.{Uses, pids, assign_syscall_vector-Uses}

process-append :
    (pid : ℤ) (ts : List Task) (t : Task)
    → process pid ts ≡ none
    → t.pid ≡ pid
    → process pid (ts ++ t ∷ []) ≡ some (length ts)
unfolding find_idx
process-append pid [] t fresh own = rw (own, ==ℤ_refl pid) refl
process-append pid (u ∷ ts) t fresh own = ground (arith, process-append pid ts t)

last-append : (ts : List Task) (t : Task) → get_elem? (ts ++ t ∷ []) (length ts) ≡ some t
last-append [] t = refl
last-append (u ∷ ts) t = last-append ts t

pids-append : (ts : List Task) (t : Task) → pids (ts ++ t ∷ []) ≡ pids ts ++ t.pid ∷ []
pids-append [] t = refl
pids-append (u ∷ ts) t = ap (λ r. u.pid ∷ r) (pids-append ts t)

pub get_vector_by_pid-Uses :
    (s : State) (pid v : ℤ) → Uses s pid v → get_vector_by_pid pid s ≡ done v s
unfolding get_vector_by_pid
get_vector_by_pid-Uses s pid v it = rw (it.found, it.at, it.uses) refl

-- The vector of a new process: the parent's or the default one; which of them, the flags say.
abbrev pub given : (ℕ → Bool) → ℤ → ℕ → ℤ
given keeps v flags = if keeps flags then v else pos 0

abbrev pub known_in : State → ℤ → Bool
known_in s id = is_known id s.vector_list

-- What _do_fork of the kernel does where it can start a process: it appends one with a new id, which is
-- a positive int, and leaves the lock free and the known vectors the same. The counts of the vectors may
-- change, as the kernel counts a process that it puts on its parent's vector.
pub record Forked (keeps : ℕ → Bool) (fork : CloneArgs → M ℤ) (args : CloneArgs) (v : ℤ) (s : State)
    : Type 0 where
  pub pid : ℕ
  pub small : pid < 2147483648
  pub fresh : process (pos pid) s.tasks ≡ none
  pub before : State
  pub result : fork args s ≡ done (pos pid) before
  pub free : before.lock ≡ false
  pub appended :
      before.tasks
      ≡ s.tasks ++ record { pid = pos pid; vector_id = given keeps v args.clone_flags } ∷ []
  pub known : known_in before ≡ known_in s

-- The vector that clone2 asks for where it is known and the flags leave the choice, and the one of
-- _do_fork otherwise.
abbrev pub next_vector : (ℕ → Bool) → (ℤ → Bool) → ℤ → ℕ → ℤ → ℤ
next_vector keeps known v flags w =
    if not (shares_syscalls flags) && (not (w ==ℤ pos 0) && known w) then w else given keeps v flags

shared_choice :
    (shares zero_id known : Bool) (x y : ℤ)
    → (shares ≡ true) ⊎ (zero_id ≡ true)
    → y ≡ (if not shares && (not zero_id && known) then x else y)
shared_choice shares zero_id known x y (inl e) = rw e refl
shared_choice true zero_id known x y (inr e) = refl
shared_choice false zero_id known x y (inr e) = rw e refl

own_choice :
    (shares zero_id known : Bool) (x y : ℤ)
    → shares ≡ false
    → zero_id ≡ false
    → (if known then x else y) ≡ (if not shares && (not zero_id && known) then x else y)
own_choice shares zero_id known x y e f = rw (e, f) refl

module _ (keeps : ℕ → Bool) (fork : CloneArgs → M ℤ) (args : CloneArgs) (v w : ℤ) (s : State)
    (started : Forked keeps fork args v s) where
  abbrev child : ℤ
  child = pos started.pid

  abbrev before : State
  before = started.before

  new_pids_before : pids before.tasks ≡ pids s.tasks ++ child ∷ []
  new_pids_before = rw started.appended (pids-append s.tasks _)

  pub first_Uses : Uses before child (given keeps v args.clone_flags)
  first_Uses = record {
    free = started.free;
    index = length s.tasks;
    task = record { pid = child; vector_id = given keeps v args.clone_flags };
    found = rw started.appended (process-append child s.tasks _ started.fresh refl);
    at = rw started.appended (last-append s.tasks _);
    uses = refl;
  }

  pub record Cloned : Type 0 where
    pub after : State
    pub ends : clone2 fork (some assign_syscall_vector) args w s ≡ done child after
    pub runs : Uses after child (next_vector keeps (known_in s) v args.clone_flags w)
    pub new_pids : pids after.tasks ≡ pids s.tasks ++ child ∷ []
    pub known_same : known_in after ≡ known_in s

  kept : (shares_syscalls args.clone_flags ≡ true) ⊎ (w ≡ pos 0) → Cloned
  kept why = record {
    after = before;
    ends =
        clone2-fork fork args w s before child started.result (some assign_syscall_vector)
          (elim why [ inl shared ↦ inl shared | inr zero_id ↦ inr (inl zero_id) ]);
    runs =
        subst (Uses before child)
          (shared_choice _ (w ==ℤ pos 0) _ w _ (elim why [
            | inl shared ↦ inl shared
            | inr zero_id ↦ inr ((==ℤ_iff w (pos 0)).1 zero_id)
          ]))
          first_Uses;
    new_pids = new_pids_before;
    known_same = started.known;
  }

  asked : shares_syscalls args.clone_flags ≡ false → w ≢ pos 0 → Cloned
  asked own n =
      let r =
        assign_syscall_vector-Uses before child (given keeps v args.clone_flags) first_Uses w n in
      record {
        after = r.after;
        ends =
            clone2-assign fork args w s before child started.result r.rc r.after own n
              (rw (to_pid-pos started.pid started.small) r.ends);
        runs =
            subst (λ known. Uses r.after child (next_vector keeps known v args.clone_flags w))
              started.known
              (subst (Uses r.after child)
                (own_choice _ _ (known_in before w) w _ own (ne→==ℤ w (pos 0) n)) r.runs);
        new_pids = r.same.pids_same ∙ new_pids_before;
        known_same = fun_ext r.same.known_same ∙ started.known;
      }

  -- The process that clone2 starts uses the asked vector where the flags leave the choice and it is
  -- known, and otherwise the one on which _do_fork left it.
  pub clone2-Cloned : Cloned
  clone2-Cloned = elim (Bool-cases (shares_syscalls args.clone_flags)) [
    | inl shared ↦ kept (inl shared)
    | inr own ↦ elim (ℤ-eq-cases w (pos 0)) [
      | inl zero_id ↦ kept (inr zero_id)
      | inr n ↦ asked own n
    ]
  ]
