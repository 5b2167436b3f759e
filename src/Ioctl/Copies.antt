-- ===== src/Ioctl/Copies.antt =====
-- What the device does before the switch: the allocations and the copies of the user's fields.
use perprocess_syscall_tbl.Prelude.{
  ℕ, ◌≡◌, refl, ◌⊎◌, inl, inr, ℤ, pos, negsuc, ◌==ℤ◌, ◌<ℤ◌, ◌-ℤ◌, Bool, true, false, not, ◌&&◌,
  ◌||◌, ap, Bool-cases, ◌==◌, is_some, if◌then◌else◌, arith,
}
use perprocess_syscall_tbl.Kernel.{State, M, pure, done, enomem}
use perprocess_syscall_tbl.Ioctl.{
  Command, MyArgs, Answers, Reply, reply, minus, copy_failed, dispatch, manipulate_syscalls,
}

-- The first two blocks are there, and each field that is set was copied whole.
abbrev pub copied : Answers → MyArgs → Bool
copied k src =
    k.arglist_allocated
    && ((not (is_some src.name) || k.name_allocated)
        && ((not (is_some src.name) || (k.name_left == 0))
            && ((not (not (src.vector_id ==ℤ pos 0)) || (k.vector_id_left == 0))
                && ((not (not (src.syscall_num ==ℤ pos 0)) || (k.syscall_num_left == 0))
                    && (not (not (src.pid ==ℤ pos 0)) || (k.pid_left == 0))))))

minus_neg : (n : ℕ) → (n == 0) ≡ false → minus n <ℤ pos 0
unfolding perprocess_syscall_tbl.Prelude.◌-ℤ◌
minus_neg n e = ground arith

module _ (s : State) (rest : M Reply) where
  -- `f` fails where `ok` is false, and goes on with `rest` where it is true.
  record Guarded (ok : Bool) (f : M Reply) : Type 0 where
    result :
        ((ok ≡ false) × ((rc : ℤ) × (rc <ℤ pos 0) × (f s ≡ done (reply rc) s)))
        ⊎ ((ok ≡ true) × (f s ≡ rest s))

  failed : (rc : ℤ) → rc <ℤ pos 0 → Guarded false (pure (reply rc))
  failed rc neg = record { result = inl (refl, (rc, neg, refl)) }

  passed : Guarded true rest
  passed = record { result = inr (refl, refl) }

  allocation :
      (given ok : Bool) (f : M Reply)
      → Guarded ok f
      → Guarded (given && ok) (if not given then pure (reply enomem) else f)
  allocation false ok f h = failed enomem (omega arith)
  allocation true ok f h = h

  name_allocation :
      (is_set given ok : Bool) (f : M Reply)
      → Guarded ok f
      → Guarded
          ((not is_set || given) && ok)
          (if is_set && not given then pure (reply enomem) else f)
  name_allocation false given ok f h = h
  name_allocation true given ok f h = allocation given ok f h

  copy :
      (is_set : Bool) (left : ℕ) (ok : Bool) (f : M Reply)
      → Guarded ok f
      → Guarded
          ((not is_set || (left == 0)) && ok)
          (if copy_failed is_set left then pure (reply (minus left)) else f)
  copy false left ok f h = h
  copy true left ok f h = elim (Bool-cases (left == 0)) [
    | inl whole ↦ rw whole h
    | inr short ↦ rw short (failed (minus left) (minus_neg left short))
  ]

  last_copy :
      (is_set : Bool) (left : ℕ)
      → Guarded
          (not is_set || (left == 0))
          (if copy_failed is_set left then pure (reply (minus left)) else rest)
  last_copy false left = passed
  last_copy true left = elim (Bool-cases (left == 0)) [
    | inl whole ↦ rw whole passed
    | inr short ↦ rw short (failed (minus left) (minus_neg left short))
  ]

-- The device either fails before the switch, with a negative value, nothing changed and every block
-- freed; or it has the fields, and then it performs the command, but for the case that kmalloc has
-- no memory for `arglist->sys`: there it returns 0 and has done nothing.
pub manipulate_syscalls-copied :
    (k : Answers) (cmd : Command) (src : MyArgs) (s : State)
    → ((copied k src ≡ false)
        × ((rc : ℤ) × (rc <ℤ pos 0) × (manipulate_syscalls k cmd src s ≡ done (reply rc) s)))
      ⊎ ((copied k src ≡ true)
          × (manipulate_syscalls k cmd src s
              ≡ (if not k.sys_allocated then pure (reply (pos 0)) else dispatch k cmd src) s))
unfolding manipulate_syscalls
manipulate_syscalls-copied k cmd src s =
    let rest : M Reply = if not k.sys_allocated then pure (reply (pos 0)) else dispatch k cmd src in
    let pids = last_copy s rest (not (src.pid ==ℤ pos 0)) k.pid_left in
    let numbers = copy s rest (not (src.syscall_num ==ℤ pos 0)) k.syscall_num_left _ _ pids in
    let ids = copy s rest (not (src.vector_id ==ℤ pos 0)) k.vector_id_left _ _ numbers in
    let names = copy s rest (is_some src.name) k.name_left _ _ ids in
    let whole =
      allocation s rest k.arglist_allocated _ _
        (name_allocation s rest (is_some src.name) k.name_allocated _ _ names) in
    whole.result
