-- ===== src/System/Mappings.antt =====
-- What add_syscall_to_vector and remove_syscall_from_vector of syscall_module/syscall_tbl.c change in the
-- whole table.
use perprocess_syscall_tbl.Prelude.{
  ℕ, ◌*◌, ◌/◌, ◌%◌, ◌<◌, ◌≡◌, refl, sym, ap, ◌∙◌, ℤ, pos, ◌==ℤ◌, Bool, true, some-inj, inl, inr,
  Bool-cases, none, some, List, ◌==◌, arith, get_elem?, get_elem?_lt, if◌then◌else◌, length,
}
use perprocess_syscall_tbl.Ring.Order.{Sorted}
use perprocess_syscall_tbl.Kernel.{Syscall, SyscallVector, State, done, done-inj}
use perprocess_syscall_tbl.Vectors.{num_syscalls}
use perprocess_syscall_tbl.Blocking.{is_syscall_blocked, test_bit}
use perprocess_syscall_tbl.Blocking.Bitmap.{is_syscall_blocked-some}
use perprocess_syscall_tbl.Dispatch.{get_syscall_fn, enosys_fn, cmp_syscall_by_syscall_num}
use perprocess_syscall_tbl.Dispatch.Lookup.{served, number_position, get_syscall_fn-served}
use perprocess_syscall_tbl.Mapping.{add_syscall_to_vector, remove_syscall_from_vector}
use perprocess_syscall_tbl.Mapping.Operations.{Target}
use perprocess_syscall_tbl.Mapping.Effects.{
  add_syscall_to_vector-get_syscall_fn, remove_syscall_from_vector-get_syscall_fn,
}
use perprocess_syscall_tbl.System.{add_mapping, remove_mapping}
use perprocess_syscall_tbl.System.Invariant.{Sound}
use perprocess_syscall_tbl.System.Mapped.{entry}
use perprocess_syscall_tbl.Vectors.Search.{position}
use perprocess_syscall_tbl.System.Bits.{OnlyAt, everywhere}

whole_map :
    (s : State)
    → Sound s
    → (w : ℤ) (i : ℕ) (v : SyscallVector) → position w s.vector_list ≡ some i
    → get_elem? s.vector_list i ≡ some v
    → length v.blocked ≡ num_syscalls
whole_map s sound w i v found at =
    let (x, at', m, _) = entry s sound w i found in
    ap (λ (y : SyscallVector). length y.blocked) (some-inj v x (sym at ∙ at')) ∙ m.whole

module _ (s : State) (temp name : List ℕ) (w : ℤ) (cs : List Syscall) (k : ℕ) (c : Syscall) (i : ℕ)
    (v : SyscallVector) (ds : List Syscall) (target : Target s temp name w cs k c i v ds) (n : ℕ)
    (num : c.syscall_num ≡ pos n) (b : Bool)
    (bit : is_syscall_blocked (pos n) v.blocked ≡ some b) where
  -- The lookups in the vector, from the records that its nodes carry.
  lookups :
      (t : State) (f : ℕ)
      → ((z : ℤ) (x : Bool)
          → is_syscall_blocked z v.blocked ≡ some x
          → get_syscall_fn w z t
            ≡ done (if x then enosys_fn else if c.syscall_num ==ℤ z then f else served z ds) t)
      → length v.blocked ≡ num_syscalls
      → (m r : ℕ) → m < 8 * num_syscalls
      → get_syscall_fn w (pos m) s ≡ done r s
      → get_syscall_fn w (pos m) t ≡ done (if m == n then (if b then enosys_fn else f) else r) t
  lookups t f effect whole m r small before =
      let (byte, there) = get_elem?_lt v.blocked (m / 8) (omega (arith, whole)) in
      let old = is_syscall_blocked-some v.blocked m byte there in
      let was =
        get_syscall_fn-served s target.entry.free w (pos m) i v _ ds target.entry.found
          target.entry.at old target.entry.live in
      effect (pos m) (test_bit byte (m % 8)) old
      ∙ ap (λ x. done x t)
          (result (test_bit byte (m % 8)) (done-inj (sym was ∙ before))
            (λ e. some-inj _ b (sym old ∙ ap (λ z. is_syscall_blocked (pos z) v.blocked) e ∙ bit)))
    where
      result :
          (x : Bool)
          → (if x then enosys_fn else served (pos m) ds) ≡ r
          → (m ≡ n → x ≡ b)
          → (if x then enosys_fn else if c.syscall_num ==ℤ pos m then f else served (pos m) ds)
            ≡ (if m == n then (if b then enosys_fn else f) else r)
      result x e same = rw num (elim (Bool-cases (m == n)) [
        | inl hit ↦ rw (hit, same (ground (arith, hit))) (ground arith)
        | inr miss ↦ rw miss (ground arith)
      ])

-- In a sound table, add_syscall_to_vector of a registered name, with a number of the bitmap that is new
-- to the vector, returns 0, keeps the table sound and changes the lookups of the whole table at just this
-- number of this vector: to the function of the call, or -ENOSYS where the number is blocked.
add_syscall_to_vector_everywhere :
    (s : State) (temp name : List ℕ) (w : ℤ) (cs : List Syscall) (k : ℕ) (c : Syscall) (i : ℕ)
    (v : SyscallVector) (ds : List Syscall) (n : ℕ) (b : Bool)
    → Sound s
    → Target s temp name w cs k c i v ds
    → Sorted cmp_syscall_by_syscall_num ds
    → number_position c.syscall_num ds ≡ none
    → c.syscall_num ≡ pos n
    → is_syscall_blocked (pos n) v.blocked ≡ some b
    → (t : State) × (add_syscall_to_vector temp true w name s ≡ done (pos 0) t)
      × Sound t
      × OnlyAt w n (if b then enosys_fn else c.fptr) s t
add_syscall_to_vector_everywhere s temp name w cs k c i v ds n b sound target sorted new num bit =
    let (t, u, e, _, _, _, _, effect) =
      add_syscall_to_vector-get_syscall_fn s temp name w cs k c i v ds target sorted new in
    let (sound', only) =
      everywhere (λ p log. 0) (add_mapping temp true w name) s t w n
        (if b then enosys_fn else c.fptr) sound (target.temp_full, target.fits) (λ rc. refl) e
        (lookups s temp name w cs k c i v ds target n num b bit t c.fptr effect
          (whole_map s sound w i v target.entry.found target.entry.at)) in
    (t, e, sound', only)

-- In a sound table, remove_syscall_from_vector of a registered name whose number the vector holds, within
-- the bitmap, returns 0, keeps the table sound and changes the lookups of the whole table at just this
-- number of this vector: to 0, or -ENOSYS where the number is blocked.
remove_syscall_from_vector_everywhere :
    (s : State) (temp name : List ℕ) (w : ℤ) (cs : List Syscall) (k : ℕ) (c : Syscall) (i : ℕ)
    (v : SyscallVector) (ds : List Syscall) (j n : ℕ) (b : Bool)
    → Sound s
    → Target s temp name w cs k c i v ds
    → Sorted cmp_syscall_by_syscall_num ds
    → number_position c.syscall_num ds ≡ some j
    → c.syscall_num ≡ pos n
    → is_syscall_blocked (pos n) v.blocked ≡ some b
    → (t : State) × (remove_syscall_from_vector temp w name s ≡ done (pos 0) t)
      × Sound t
      × OnlyAt w n (if b then enosys_fn else 0) s t
remove_syscall_from_vector_everywhere s temp name w cs k c i v ds j n b sound target sorted found
      num bit =
    let (t, u, e, _, _, _, _, effect) =
      remove_syscall_from_vector-get_syscall_fn s temp name w cs k c i v ds j target sorted found in
    let (sound', only) =
      everywhere (λ p log. 0) (remove_mapping temp w name) s t w n (if b then enosys_fn else 0)
        sound (target.temp_full, target.fits) (λ rc. refl) e
        (lookups s temp name w cs k c i v ds target n num b bit t 0 effect
          (whole_map s sound w i v target.entry.found target.entry.at)) in
    (t, e, sound', only)
