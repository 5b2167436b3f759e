-- ===== src/System/Bits.antt =====
-- What block_syscall_num and unblock_syscall_num of syscall_module/syscall_tbl.c change in the whole table.
use perprocess_syscall_tbl.Prelude.{
  ℕ, ◌*◌, ◌<◌, ◌≡◌, refl, sym, ap, ◌∙◌, subst, ℤ, pos, ◌==ℤ◌, ==ℤ_iff, ne→==ℤ, ℤ-eq-cases, ◌&&◌,
  some-inj, inl, inr, is_some, some, List, ◌==◌, arith, get_elem?, if◌then◌else◌, length,
}
use perprocess_syscall_tbl.Ring.Order.{Loads}
use perprocess_syscall_tbl.Kernel.{Ptr, Syscall, SyscallVector, ModuleCall, State, done}
use perprocess_syscall_tbl.Vectors.{num_syscalls}
use perprocess_syscall_tbl.Vectors.Search.{position}
use perprocess_syscall_tbl.Blocking.{block_syscall_num, unblock_syscall_num}
use perprocess_syscall_tbl.Blocking.Bitmap.{IsBytes}
use perprocess_syscall_tbl.Dispatch.{get_syscall_fn, enosys_fn}
use perprocess_syscall_tbl.Dispatch.Lookup.{served}
use perprocess_syscall_tbl.Dispatch.Blocked.{
  IsEntry, block_syscall_num-get_syscall_fn, unblock_syscall_num-get_syscall_fn,
}
use perprocess_syscall_tbl.System.{Call, InRange, block, unblock, Allowed, named, perform}
use perprocess_syscall_tbl.System.Invariant.{Sound}
use perprocess_syscall_tbl.System.Mapped.{entry}
use perprocess_syscall_tbl.System.Isolation.{perform_isolates, get_syscall_fn-Sound}

-- The lookups after a call are those before, but for one number in one vector.
abbrev pub OnlyAt : ℤ → ℕ → ℕ → State → State → Type 0
OnlyAt id n x s t =
    (w : ℤ) (m : ℕ)
    → m < 8 * num_syscalls
    → (r : ℕ) × (get_syscall_fn w (pos m) s ≡ done r s)
      × (get_syscall_fn w (pos m) t ≡ done (if (w ==ℤ id) && (m == n) then x else r) t)

same_end : {a b : ℤ} {x y : State} → done a x ≡ done b y → x ≡ y
same_end q = cc

-- From the one vector to the whole table.
pub everywhere :
    (count : Ptr → List ModuleCall → ℕ) (call : Call) (s t : State) (id : ℤ) (n x : ℕ)
    → Sound s
    → Allowed call s
    → ((rc : ℤ) → named call rc ≡ some id)
    → perform count call s ≡ done (pos 0) t
    → ((m r : ℕ)
        → m < 8 * num_syscalls
        → get_syscall_fn id (pos m) s ≡ done r s
        → get_syscall_fn id (pos m) t ≡ done (if m == n then x else r) t)
    → Sound t × OnlyAt id n x s t
everywhere count call s t id n x sound allowed about e one =
    let (rc, t', e', sound', others) = perform_isolates count call s sound allowed in
    let same : t' ≡ t = same_end (sym e' ∙ e) in
    (
      subst Sound same sound',
      λ w m small. elim (ℤ-eq-cases w id) [
        | inl hit ↦
            let (r, before) = get_syscall_fn-Sound s id m sound small in
            (
              r,
              subst (λ v. get_syscall_fn v (pos m) s ≡ done r s) (sym hit) before,
              rw ((==ℤ_iff w id).1 hit) (
                  subst (λ v. get_syscall_fn v (pos m) t ≡ done (if m == n then x else r) t)
                    (sym hit) (one m r small before)),
            )
        | inr miss ↦
            let (r, before, after) =
              others w m (λ q. miss (some-inj w id (sym q ∙ about rc))) small in
            (
              r,
              before,
              rw (ne→==ℤ w id miss) (subst (λ u. get_syscall_fn w (pos m) u ≡ done r u) same after),
            )
      ],
    )

-- In a sound table, for a vector that there is with the records `ds` and a number within the bitmap,
-- block_syscall_num and unblock_syscall_num each return 0, keep the table sound and change the lookups
-- of the whole table at just this number of this vector: block to -ENOSYS, unblock to the function of
-- the record with the number, or 0 where there is none.
block_syscall_num_everywhere :
    (s : State) (id : ℤ) (n i : ℕ) (v : SyscallVector) (ds : List Syscall)
    → Sound s
    → position id s.vector_list ≡ some i
    → get_elem? s.vector_list i ≡ some v
    → Loads s.heap v.syscall_num_list ds
    → n < 8 * num_syscalls
    → ((t : State) × (block_syscall_num id (pos n) s ≡ done (pos 0) t)
        × Sound t
        × OnlyAt id n enosys_fn s t)
      × ((u : State) × (unblock_syscall_num id (pos n) s ≡ done (pos 0) u)
          × Sound u
          × OnlyAt id n (served (pos n) ds) s u)
block_syscall_num_everywhere s id n i v ds sound found at live small =
    let (v', at', m, e) = entry s sound id i found in
    let same : v' ≡ v = some-inj v' v (sym at' ∙ at) in
    let whole : length v.blocked ≡ num_syscalls =
      ap (λ (x : SyscallVector). length x.blocked) (sym same) ∙ m.whole in
    let there : IsEntry s id i v ds = record {
      free = e.free;
      found = found;
      at = at;
      bytes = subst (λ (x : SyscallVector). IsBytes x.blocked) same e.bytes;
      live = live;
    } in
    let inside : n < 8 * length v.blocked = omega (arith, whole) in
    let range : InRange id (pos n) s = (ap is_some found, n, refl, small) in
    let (t, blocks, at_t) = block_syscall_num-get_syscall_fn s id i v ds n there inside in
    let (u, unblocks, at_u) = unblock_syscall_num-get_syscall_fn s id i v ds n there inside in
    let within : (k : ℕ) → k < 8 * num_syscalls → k < 8 * length v.blocked =
      λ k h. omega (arith, whole) in
    let (sound_t, lookups_t) =
      everywhere (λ p log. 0) (block id (pos n)) s t id n enosys_fn sound range (λ rc. refl) blocks
        (λ k r h. at_t k r (within k h)) in
    let (sound_u, lookups_u) =
      everywhere (λ p log. 0) (unblock id (pos n)) s u id n (served (pos n) ds) sound range
        (λ rc. refl) unblocks (λ k r h. at_u k r (within k h)) in
    ((t, blocks, sound_t, lookups_t), (u, unblocks, sound_u, lookups_u))
