-- ===== src/Tests/Clones.antt =====
-- The theorems on clone2 and its wrapper.
use perprocess_syscall_tbl.Prelude.{
  ℕ, ◌≡◌, refl, ◌⊎◌, ℤ, pos, find_idx, none, some, arith, if◌then◌else◌,
}
use perprocess_syscall_tbl.Kernel.{State, M, pure, done}
use perprocess_syscall_tbl.Assignment.{assign_syscall_vector}
use perprocess_syscall_tbl.Assignment.Invariant.{Tallied}
use perprocess_syscall_tbl.Assignment.Branches.{Switched}
use perprocess_syscall_tbl.Clone.Wrapper.{sys_clone2_wrapper_cases}
use perprocess_syscall_tbl.Clone.{sys_clone2_wrapper, CloneArgs, clone2, shares_syscalls, to_pid}
use perprocess_syscall_tbl.Clone.Child.{clone2-Switched}
use perprocess_syscall_tbl.Kernel.{einval, fault}
use perprocess_syscall_tbl.Prelude.{◌==ℤ◌, ◌≢◌, Bool, true, false, inr, negsuc}
use perprocess_syscall_tbl.Tests.Fixture.{table}
use perprocess_syscall_tbl.Tests.Witnesses.{table-Tallied}

-- A kernel that gives the child the id 2; the fixture's process 2 stands for it.
abbrev fork_two : CloneArgs → M ℤ
fork_two args = pure (pos 2)

abbrev clone_args : ℕ → CloneArgs
clone_args flags = record {
  clone_flags = flags;
  newsp = 4096;
  parent_tidptr = 0;
  child_tidptr = 0;
  tls_val = 0;
}

clone2-Switched_example :
    (rc : ℤ) × (u : State) × (clone2 fork_two
        (some assign_syscall_vector)
        (clone_args 17)
        (pos 1)
        table
      ≡ done (pos 2) u)
    × Tallied u
    × Switched table (pos 1) (some 1) rc u
unfolding shares_syscalls to_pid find_idx
clone2-Switched_example =
    clone2-Switched fork_two (clone_args 17) (pos 1) table table (pos 2) refl 1
      (record { pid = pos 2; vector_id = pos 0 }) refl (λ e. cc e) table-Tallied refl refl refl

-- A child with pid 42 where a vector is asked for, and an error where none is.
abbrev library_syscall : ℤ → ℕ → ℤ → M ℤ
library_syscall flags top id = pure (if id ==ℤ pos 0 then negsuc 0 else pos 42)

abbrev child : ℕ
child = 4096

abbrev stack : ℕ
stack = 8192

abbrev anywhere : ℕ → Bool
anywhere p = true

sys_clone2_wrapper_cases_example :
    (((child ≡ 0) ⊎ (stack ≡ 0))
      × (sys_clone2_wrapper anywhere library_syscall child stack (pos 0) (pos 1) table
          ≡ done (record { rc = einval; errno = none }) table))
    ⊎ ((child ≢ 0)
        × (stack ≢ 0)
        × (((anywhere stack ≡ false)
              × (sys_clone2_wrapper anywhere library_syscall child stack (pos 0) (pos 1) table
                  ≡ fault))
            ⊎ ((anywhere stack ≡ true)
                × (((pos 42 ≡ negsuc 0)
                      × (sys_clone2_wrapper anywhere library_syscall child stack
                            (pos 0)
                            (pos 1)
                            table
                          ≡ done (record { rc = negsuc 0; errno = some (negsuc 0) }) table))
                    ⊎ ((pos 42 ≢ negsuc 0)
                        × (sys_clone2_wrapper anywhere library_syscall child stack
                              (pos 0)
                              (pos 1)
                              table
                            ≡ done (record { rc = pos 42; errno = none }) table))))))
sys_clone2_wrapper_cases_example =
    sys_clone2_wrapper_cases anywhere library_syscall child stack (pos 0) (pos 1) table table
      (pos 42) refl (inr (42, refl, omega arith))
