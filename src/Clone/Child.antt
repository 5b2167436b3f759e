-- ===== src/Clone/Child.antt =====
-- Which vector the child of clone2 uses.
use perprocess_syscall_tbl.Prelude.{
  ℕ, ◌≡◌, ◌≢◌, refl, ℤ, pos, ne→==ℤ, true, false, Option, none, some, arith, get_elem?, inl, inr,
  ◌⊎◌,
}
use perprocess_syscall_tbl.Kernel.{Task, State, M, done}
use perprocess_syscall_tbl.Assignment.{assign_syscall_vector}
use perprocess_syscall_tbl.Assignment.Invariant.{Tallied}
use perprocess_syscall_tbl.Assignment.Branches.{process, Switched}
use perprocess_syscall_tbl.Assignment.Assign.{assign_syscall_vector-Tallied}
use perprocess_syscall_tbl.Clone.{CloneArgs, shares_syscalls, to_pid, assign_child, clone2}

module _ (do_fork : CloneArgs → M ℤ) (args : CloneArgs) (w : ℤ) (s t : State) (pid : ℤ)
    (forked : do_fork args s ≡ done pid t) where
  -- Where _do_fork ends, and the child shares its parent's system calls, the vector is 0, or syscall_tbl.c is not loaded,
  -- clone2 does what _do_fork does.
  pub clone2-fork :
      (hook : Option (ℤ → ℤ → M ℤ))
      → (shares_syscalls args.clone_flags ≡ true) ⊎ ((w ≡ pos 0) ⊎ (hook ≡ none))
      → clone2 do_fork hook args w s ≡ done pid t
  unfolding clone2 assign_child
  clone2-fork none why = ground (arith, forked)
  clone2-fork (some f) (inl shared) = rw (shared, forked) refl
  clone2-fork (some f) (inr (inl z)) = rw (z, forked) (ground arith)
  clone2-fork (some f) (inr (inr e)) = cc

  pub clone2-assign :
      (rc : ℤ) (u : State)
      → shares_syscalls args.clone_flags ≡ false
      → w ≢ pos 0
      → assign_syscall_vector w (to_pid pid) t ≡ done rc u
      → clone2 do_fork (some assign_syscall_vector) args w s ≡ done pid u
  unfolding clone2 assign_child
  clone2-assign rc u own n e = rw (forked, own, ne→==ℤ w (pos 0) n, e) refl

  -- Where the child does not share its parent's system calls, the vector is not 0, the hook is set, and
  -- _do_fork left the counts exact and the new process on the default vector, clone2 returns the
  -- child's id and keeps the counts exact: with a known vector the child uses it, and with an unknown
  -- one clone2 gives no error and the child stays on the default vector.
  pub clone2-Switched :
      (i : ℕ) (child : Task)
      → shares_syscalls args.clone_flags ≡ false
      → w ≢ pos 0
      → Tallied t
      → process (to_pid pid) t.tasks ≡ some i
      → get_elem? t.tasks i ≡ some child
      → child.vector_id ≡ pos 0
      → (rc : ℤ) × (u : State) × (clone2 do_fork (some assign_syscall_vector) args w s ≡ done pid u)
        × Tallied u
        × Switched t w (some i) rc u
  clone2-Switched i child own n inv who at fresh =
      let (rc, u, e, inv', switched) =
        assign_syscall_vector-Tallied t w (to_pid pid) i child inv who at (inl fresh) in
      (rc, u, clone2-assign rc u own n e, inv', switched)
