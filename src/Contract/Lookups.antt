-- ===== src/Contract/Lookups.antt =====
-- get_syscall_fn of syscall_module/syscall_tbl.c is the lookup in the abstract table.
use perprocess_syscall_tbl.Prelude.{
  ℕ, ◌*◌, ◌/◌, ◌%◌, ◌<◌, ◌≡◌, refl, sym, ap, ◌∙◌, ℤ, pos, Bool, some, List, [], ◌∷◌, arith,
  get_elem?_lt, Option-cases, inl, inr, if◌then◌else◌,
}
use perprocess_syscall_tbl.Kernel.{Syscall, State, done}
use perprocess_syscall_tbl.Vectors.{num_syscalls}
use perprocess_syscall_tbl.Vectors.Search.{position}
use perprocess_syscall_tbl.Blocking.{is_syscall_blocked, test_bit}
use perprocess_syscall_tbl.Blocking.Bitmap.{is_syscall_blocked-some}
use perprocess_syscall_tbl.Dispatch.{get_syscall_fn, enosys_fn}
use perprocess_syscall_tbl.Dispatch.Lookup.{served, get_syscall_fn-none, get_syscall_fn-served}
use perprocess_syscall_tbl.Contract.{function_of, dispatched}
use perprocess_syscall_tbl.Contract.Entries.{find_entry}
use perprocess_syscall_tbl.Contract.View.{blocked_of, number_test, view, view-none, view-some}
use perprocess_syscall_tbl.System.Invariant.{Sound}
use perprocess_syscall_tbl.System.Mapped.{entry}

served-function_of :
    (n : ℤ) (ds : List Syscall) → served n ds ≡ function_of (find_entry (number_test n) ds)
unfolding served find_entry
served-function_of n [] = refl
served-function_of n (d ∷ ds) = ground (arith, served-function_of n ds)

-- In a sound table the kernel's lookup of a number within the bitmap is the one in the abstract table.
pub get_syscall_fn-dispatched :
    (s : State) (w : ℤ) (n : ℕ)
    → Sound s
    → n < 8 * num_syscalls
    → get_syscall_fn w (pos n) s ≡ done (dispatched n ((view s).vectors w)) s
unfolding blocked_of
get_syscall_fn-dispatched s w n sound small = elim (Option-cases (position w s.vector_list)) [
  | inl gone ↦
      get_syscall_fn-none s sound.tallied.free w (pos n) gone
      ∙ ap (λ o. done (dispatched n o) s) (sym (view-none s w gone))
  | inr (i, found) ↦
      let (v, at, m, _) = entry s sound w i found in
      let (c, byte) = get_elem?_lt v.blocked (n / 8) (omega (arith, m.whole)) in
      let bit = is_syscall_blocked-some v.blocked n c byte in
      get_syscall_fn-served s sound.tallied.free w (pos n) i v (test_bit c (n % 8)) m.calls found at
        bit m.live
      ∙ ap (λ x. done x s) (shown (test_bit c (n % 8)) v.blocked m.calls bit)
      ∙ ap (λ o. done (dispatched n o) s) (sym (view-some s w i v m.calls found at m.live))
]
  where
    shown :
        (b : Bool) (bits : List ℕ) (ds : List Syscall)
        → is_syscall_blocked (pos n) bits ≡ some b
        → (if b then enosys_fn else served (pos n) ds) ≡ (
            if blocked_of bits n
            then enosys_fn
            else function_of (find_entry (number_test (pos n)) ds))
    shown b bits ds bit = rw (bit, served-function_of (pos n) ds) (ground arith)
