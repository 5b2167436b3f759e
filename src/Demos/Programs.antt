-- ===== src/Demos/Programs.antt =====
-- What test1_clone2 and test2_clone2 print.
use perprocess_syscall_tbl.Prelude.{
  ℕ, ◌≤◌, ◌≡◌, refl, ℤ, pos, Bool, List, [], ◌∷◌, arith, if◌then◌else◌,
}
use perprocess_syscall_tbl.Kernel.{State, M, done}
use perprocess_syscall_tbl.Assignment.Branches.{is_known}
use perprocess_syscall_tbl.Clone.{shares_syscalls}
use perprocess_syscall_tbl.Demos.{
  Machine, Ended, sigchld, shared, test1_child, test1_main, test2_child, test2_grandchild,
  test2_main,
}
use perprocess_syscall_tbl.Demos.Vectors.{Uses, pids}
use perprocess_syscall_tbl.Demos.Starts.{given}
use perprocess_syscall_tbl.Demos.Reports.{Works, IsId, vectors_of, two_starts-Ends}

-- The vector of a new process that asks for `w`.
abbrev pub asked_vector : (ℕ → Bool) → State → ℤ → ℤ → ℤ
asked_vector keeps s v w = if is_known w s.vector_list then w else given keeps v sigchld

-- The program ends with status 0, and its processes report the vectors.
abbrev pub Prints : (ℤ → M Ended) → ℤ → State → List ℤ → Type 0
Prints main tid s vectors =
    (ended : Ended) × (t : State) × (main tid s ≡ done ended t)
    × (vectors_of ended.reports ≡ vectors)
    × (ended.status ≡ pos 0)

-- Where every call of the kernel and of the C library succeeds, eight bytes behind each stack can be
-- stored, and there is room for two processes, both programs end well in a process on the vector `v`, with
-- three reports. Those of test1_clone2 are `v`, the vector 1 where it is known, and the vector 2 where it
-- is known. Those of test2_clone2 are `v`, the vector on which _do_fork leaves a process that shares
-- system calls, whether or not the asked vector 1 is known, and the vector 255 where it is known. Where
-- an asked vector is not known nothing fails, and the process reports the one on which _do_fork left it.
pub main-reports :
    (m : Machine) (keeps : ℕ → Bool) (room : List ℤ → ℕ) (s : State) (tid v : ℤ)
    → Works m keeps room
    → Uses s tid v
    → IsId v
    → 2 ≤ room (pids s.tasks)
    → Prints (test1_main m) tid s (
        v
        ∷ asked_vector keeps s v (pos 1)
        ∷ asked_vector keeps s (asked_vector keeps s v (pos 1)) (pos 2)
        ∷ [])
      × Prints
          (test2_main m)
          tid
          s
          (v ∷ given keeps v shared ∷ asked_vector keeps s (given keeps v shared) (pos 255) ∷ [])
unfolding test1_main test1_child test2_main test2_child test2_grandchild shares_syscalls
main-reports m keeps room s tid v works it id enough = (
  two_starts-Ends m keeps room works sigchld sigchld (pos 1) (pos 2) (1, refl, omega arith)
      (2, refl, omega arith) s tid v it id enough,
  two_starts-Ends m keeps room works shared sigchld (pos 1) (pos 255) (1, refl, omega arith)
      (255, refl, omega arith) s tid v it id enough,
)
