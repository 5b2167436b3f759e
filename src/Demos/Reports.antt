-- ===== src/Demos/Reports.antt =====
-- What the processes of the programs report, where every call of the kernel and of the C library
-- succeeds.
use perprocess_syscall_tbl.Prelude.{
  ℕ, suc, ◌+◌, ◌≤◌, ◌≡◌, refl, ap, ◌∙◌, inl, inr, ℤ, pos, negsuc, ◌==ℤ◌, ltb_ℤ, ◌==◌, Bool, true,
  false, not, ◌&&◌, Bool-cases, some, List, [], ◌∷◌, ◌++◌, to_short_lem, arith,
}
use perprocess_syscall_tbl.Kernel.{State, M, done}
use perprocess_syscall_tbl.Assignment.{assign_syscall_vector}
use perprocess_syscall_tbl.Ioctl.{get_vector_id_of_process, dispatch, reply, manipulate_syscalls}
use perprocess_syscall_tbl.Ioctl.Copies.{copied}
use perprocess_syscall_tbl.Ioctl.Reads.{switched}
use perprocess_syscall_tbl.Clone.{CloneArgs, clone2, shares_syscalls, sys_clone2_wrapper}
use perprocess_syscall_tbl.Clone.Wrapper.{wrapper_result-pos, not_negative}
use perprocess_syscall_tbl.Command.EndToEnd.{through}
use perprocess_syscall_tbl.Demos.{
  Machine, Ended, send_arg, stack_size, call_clone2, start, last_process, starting_process,
}
use perprocess_syscall_tbl.Demos.Vectors.{Uses, pids}
use perprocess_syscall_tbl.Demos.Starts.{
  Forked, known_in, next_vector, get_vector_by_pid-Uses, clone2-Cloned,
}

-- Every allocation is made, every byte is copied and the device opens; eight bytes behind each stack can
-- be stored, which malloc does not promise; the C library passes on the values that are not negative;
-- syscall_tbl.c is loaded; waitpid ends well; and _do_fork starts a process where there is room, of which
-- each process takes at most one place.
pub record Works (m : Machine) (keeps : ℕ → Bool) (room : List ℤ → ℕ) : Type 0 where
  pub hooked : m.hook ≡ some assign_syscall_vector
  pub opened : (tid : ℤ) → ltb_ℤ (m.fd tid) (pos 0) ≡ false
  pub served : (tid : ℤ) → copied (m.answers tid) (send_arg m tid) ≡ true
  pub memory : (tid : ℤ) → (m.answers tid).sys_allocated ≡ true
  pub result_copied : (tid : ℤ) → (m.answers tid).result_left ≡ 0
  pub stacks : (tid : ℤ) → (m.malloc tid == 0) ≡ false
  pub behind : (tid : ℤ) → m.writable (m.malloc tid + stack_size) ≡ true
  pub function_there : (m.child_fn == 0) ≡ false
  pub passes : (n : ℕ) → m.libc (pos n) ≡ pos n
  pub waits :
      (pid : ℤ) (s : State)
      → (rc : ℤ) × (t : State) × (m.waitpid pid s ≡ done rc t) × ((rc ==ℤ negsuc 0) ≡ false)
  pub forks :
      (tid v : ℤ) (args : CloneArgs) (s : State)
      → Uses s tid v
      → 1 ≤ room (pids s.tasks)
      → (f : Forked keeps (m.do_fork tid) args v s) × (room (pids s.tasks)
          ≤ suc (room (pids s.tasks ++ pos f.pid ∷ [])))

-- The ids of vectors that fit a `short`.
abbrev pub IsId : ℤ → Type 0
IsId v = (n : ℕ) × (v ≡ pos n) × (n ≤ 32767)

abbrev pub vectors_of : List (ℤ × ℤ) → List ℤ
vectors_of [] = []
vectors_of (r ∷ rs) = r.1 ∷ vectors_of rs

module _ (m : Machine) (keeps : ℕ → Bool) (room : List ℤ → ℕ) (works : Works m keeps room) where
  answered :
      (s : State) (tid v : ℤ)
      → Uses s tid v
      → IsId v
      → manipulate_syscalls (m.answers tid) get_vector_id_of_process (send_arg m tid) s
        ≡ done (record (reply (pos 0)) { vector_id = some v }) s
  unfolding dispatch send_arg
  answered s tid v it (n, e, small) =
      switched (m.answers tid) (send_arg m tid) s (works.served tid) (works.memory tid)
        get_vector_id_of_process
      ∙ rw
          (
            get_vector_by_pid-Uses s tid v it,
            works.result_copied tid,
            e,
            not_negative n,
            to_short_lem (pos n) (omega arith) (omega arith),
          )
          refl

  request :
      (s : State) (tid v : ℤ)
      → Uses s tid v
      → IsId v
      → through m.libc (m.answers tid) get_vector_id_of_process (send_arg m tid) s
        ≡ done (m.libc (pos 0), record (send_arg m tid) { vector_id = v }) s
  request s tid v it id = rw (answered s tid v it id) refl

  abbrev clone_args : ℤ → ℕ → CloneArgs
  clone_args tid flags = record {
    clone_flags = flags;
    newsp = m.malloc tid + stack_size;
    parent_tidptr = 0;
    child_tidptr = 0;
    tls_val = 0;
  }

  called :
      (s u : State) (tid w : ℤ) (flags pid : ℕ)
      → clone2 (m.do_fork tid) (some assign_syscall_vector) (clone_args tid flags) w s
        ≡ done (pos pid) u
      → call_clone2 m tid (pos flags) (m.malloc tid + stack_size) w s ≡ done (pos pid) u
  unfolding call_clone2
  called s u tid w flags pid e = rw (works.hooked, e, works.passes pid) refl

  stack_top : (n : ℕ) → (n + stack_size == 0) ≡ false
  stack_top n = ground arith

  started :
      (s : State) (tid v w : ℤ) (flags : ℕ)
      → Uses s tid v
      → 1 ≤ room (pids s.tasks)
      → (pid : ℕ) × (u : State) × (start m flags w tid s ≡ done (pos pid) u)
        × Uses u (pos pid) (next_vector keeps (known_in s) v flags w)
        × (room (pids s.tasks) ≤ suc (room (pids u.tasks)))
        × (known_in u ≡ known_in s)
  unfolding start sys_clone2_wrapper
  started s tid v w flags it some_room =
      let (f, places) = works.forks tid v (clone_args tid flags) s it some_room in
      let c = clone2-Cloned keeps (m.do_fork tid) (clone_args tid flags) v w s f in
      (
        f.pid,
        c.after,
        rw
            (
              works.function_there,
              stack_top (m.malloc tid),
              works.behind tid,
              called s c.after tid w flags f.pid c.ends,
              wrapper_result-pos f.pid f.small,
            )
            refl,
        c.runs,
        rw c.new_pids places,
        c.known_same,
      )

  -- What a process with `needs` processes below it does: it ends, with status 0, and the reports hold
  -- the expected vectors.
  abbrev Ends : (ℤ → M Ended) → ℕ → ((ℤ → Bool) → ℤ → List ℤ) → Type 0
  Ends process needs expected =
      (s : State) (tid v : ℤ)
      → Uses s tid v
      → IsId v
      → needs ≤ room (pids s.tasks)
      → (ended : Ended) × (t : State) × (process tid s ≡ done ended t)
        × (vectors_of ended.reports ≡ expected (known_in s) v)
        × (ended.status ≡ pos 0)

  last_process-Ends : Ends (last_process m) 0 (λ known v. v ∷ [])
  unfolding last_process
  last_process-Ends s tid v it id enough =
      let report : Ended = record { reports = (tid, v) ∷ []; status = pos 0 } in
      (report, s, rw (works.opened tid, request s tid v it id) refl, refl, refl)

  IsId-next :
      (known : ℤ → Bool) (v w : ℤ) (flags : ℕ)
      → IsId v
      → IsId w
      → IsId (next_vector keeps known v flags w)
  IsId-next known v w flags own asked =
      elim (Bool-cases (not (shares_syscalls flags) && (not (w ==ℤ pos 0) && known w))) [
        | inl new ↦ rw new asked
        | inr old ↦ rw old (elim (Bool-cases (keeps flags)) [
          | inl inherits ↦ rw inherits own
          | inr fresh ↦ rw fresh (0, refl, omega arith)
        ])
      ]

  starting_process-Ends :
      (process : ℤ → M Ended) (needs : ℕ) (expected : (ℤ → Bool) → ℤ → List ℤ) (flags : ℕ) (w : ℤ)
      → IsId w
      → Ends process needs expected
      → Ends
          (starting_process m process flags w)
          (suc needs)
          (λ known v. v ∷ expected known (next_vector keeps known v flags w))
  unfolding starting_process
  starting_process-Ends process needs expected flags w asked below s tid v it id enough =
      let (pid, u, e, runs, left, same) = started s tid v w flags it (omega arith) in
      let next_id = IsId-next (known_in s) v w flags id asked in
      let (ended, t, f, reports, _) = below u (pos pid) _ runs next_id (omega arith) in
      let (rc, r, g, good) = works.waits (pos pid) t in
      (
        record { reports = (tid, v) ∷ ended.reports; status = pos 0 },
        r,
        rw (works.opened tid, request s tid v it id, works.stacks tid, e, f, g, good) refl,
        ap (λ rs. v ∷ rs) (reports ∙ rw same refl),
        refl,
      )

  -- Three processes, of which two start the next one.
  pub two_starts-Ends :
      (flags flags' : ℕ) (w w' : ℤ)
      → IsId w
      → IsId w'
      → Ends
          (starting_process m (starting_process m (last_process m) flags' w') flags w)
          2
          (λ known v.
            v
            ∷ next_vector keeps known v flags w
            ∷ next_vector keeps known (next_vector keeps known v flags w) flags' w'
            ∷ [])
  two_starts-Ends flags flags' w w' id id' =
      starting_process-Ends (starting_process m (last_process m) flags' w') 1
        (λ known v. v ∷ next_vector keeps known v flags' w' ∷ []) flags w id
        (starting_process-Ends (last_process m) 0 (λ known v. v ∷ []) flags' w' id'
          last_process-Ends)
