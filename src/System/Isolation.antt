-- ===== src/System/Isolation.antt =====
-- What the kernel finds: lookups end in every sound state, and a call changes the lookups of the one
-- vector that it is about.
use perprocess_syscall_tbl.Prelude.{
  ℕ, ◌*◌, ◌/◌, ◌%◌, ◌<◌, ◌≡◌, ◌≢◌, ◌∙◌, ap, sym, subst, ℤ, pos, Bool, none, some, Option, List,
  arith, get_elem?, get_elem?_lt, Option-cases, inl, inr, if◌then◌else◌,
}
use perprocess_syscall_tbl.Ring.Order.{Loads}
use perprocess_syscall_tbl.Kernel.{Ptr, Syscall, SyscallVector, ModuleCall, State, done}
use perprocess_syscall_tbl.Vectors.{num_syscalls}
use perprocess_syscall_tbl.Vectors.Search.{position}
use perprocess_syscall_tbl.Blocking.{test_bit, is_syscall_blocked}
use perprocess_syscall_tbl.Blocking.Bitmap.{is_syscall_blocked-some}
use perprocess_syscall_tbl.Dispatch.{get_syscall_fn, enosys_fn, enoent_fn}
use perprocess_syscall_tbl.Dispatch.Lookup.{served, get_syscall_fn-none, get_syscall_fn-served}
use perprocess_syscall_tbl.System.{Call, Allowed, named, perform}
use perprocess_syscall_tbl.System.Invariant.{Sound}
use perprocess_syscall_tbl.System.Spares.{Untouched, Spares, lookup-none, lookup-some}
use perprocess_syscall_tbl.System.Mapped.{entry}
use perprocess_syscall_tbl.System.Reach.{perform-Sound}

-- A lookup of a number within the bitmap ends in every sound state, with a value and nothing changed.
pub get_syscall_fn-Sound :
    (s : State) (w : ℤ) (n : ℕ)
    → Sound s
    → n < 8 * num_syscalls
    → (r : ℕ) × (get_syscall_fn w (pos n) s ≡ done r s)
get_syscall_fn-Sound s w n sound small = elim (Option-cases (position w s.vector_list)) [
  | inl gone ↦ (_, get_syscall_fn-none s sound.tallied.free w (pos n) gone)
  | inr (i, found) ↦
      let (v, at, m, there) = entry s sound w i found in
      let (c, byte) = get_elem?_lt v.blocked (n / 8) (omega (arith, m.whole)) in
      (
        _,
        get_syscall_fn-served s sound.tallied.free w (pos n) i v (test_bit c (n % 8)) m.calls found
            at (is_syscall_blocked-some v.blocked n c byte) m.live,
      )
]

-- What a lookup in a vector that there is finds.
entry-served :
    (s : State) (w : ℤ) (n i : ℕ) (v : SyscallVector) (b : Bool) (ds : List Syscall)
    → Sound s
    → position w s.vector_list ≡ some i
    → get_elem? s.vector_list i ≡ some v
    → is_syscall_blocked (pos n) v.blocked ≡ some b
    → Loads s.heap v.syscall_num_list ds
    → get_syscall_fn w (pos n) s ≡ done (if b then enosys_fn else served (pos n) ds) s
entry-served s w n i v b ds sound found at bit live =
    get_syscall_fn-served s sound.tallied.free w (pos n) i v b ds found at bit live

-- A vector that is untouched gives the same lookups.
Untouched-get_syscall_fn :
    (s t : State) (w : ℤ) (n : ℕ)
    → Sound s
    → Sound t
    → Untouched w s t
    → n < 8 * num_syscalls
    → (r : ℕ) × (get_syscall_fn w (pos n) s ≡ done r s) × (get_syscall_fn w (pos n) t ≡ done r t)
Untouched-get_syscall_fn s t w n sound sound' same small =
    elim (Option-cases (position w s.vector_list)) [
      | inl gone ↦ elim (Option-cases (position w t.vector_list)) [
        | inl gone' ↦ (
          enoent_fn,
          get_syscall_fn-none s sound.tallied.free w (pos n) gone,
          get_syscall_fn-none t sound'.tallied.free w (pos n) gone',
        )
        | inr (j, found') ↦
            let (v', at', _, _) = entry t sound' w j found' in
            cc (
              same.looked,
              lookup-none w s.vector_list gone,
              lookup-some w t.vector_list j v' found' at',
            )
      ]
      | inr (i, found) ↦ elim (Option-cases (position w t.vector_list)) [
        | inl gone' ↦
            let (v, at, _, _) = entry s sound w i found in
            cc (
              same.looked,
              lookup-some w s.vector_list i v found at,
              lookup-none w t.vector_list gone',
            )
        | inr (j, found') ↦
            let (v, at, m, there) = entry s sound w i found in
            let (v', at', _, _) = entry t sound' w j found' in
            let before = lookup-some w s.vector_list i v found at in
            let after = lookup-some w t.vector_list j v' found' at' in
            let (c, byte) = get_elem?_lt v.blocked (n / 8) (omega (arith, m.whole)) in
            let bit = is_syscall_blocked-some v.blocked n c byte in
            let bits : v'.blocked ≡ v.blocked = cc (same.looked, before, after) in
            let nums : v'.syscall_num_list ≡ v.syscall_num_list = cc (same.looked, before, after) in
            (
              _,
              entry-served s w n i v _ m.calls sound found at bit m.live,
              entry-served t w n j v' _ m.calls sound' found' at'
                  (ap (is_syscall_blocked (pos n)) bits ∙ bit)
                  (subst (λ ps. Loads t.heap ps m.calls) (sym nums)
                    (same.loads v.blocked v.syscall_num_list m.calls before m.live)),
            )
      ]
    ]

-- Isolation: an allowed call ends in a sound state, and each lookup, of a number within the bitmap, in
-- any vector but the one that the call is about gives the same before and after. A call that
-- registers or unregisters a system call, or that changes the vector of a process, is about none.
pub perform_isolates :
    (module_refcount : Ptr → List ModuleCall → ℕ) (call : Call) (s : State)
    → Sound s
    → Allowed call s
    → (rc : ℤ) × (t : State) × (perform module_refcount call s ≡ done rc t)
      × Sound t
      × ((w : ℤ) (n : ℕ)
          → named call rc ≢ some w
          → n < 8 * num_syscalls
          → (r : ℕ) × (get_syscall_fn w (pos n) s ≡ done r s)
            × (get_syscall_fn w (pos n) t ≡ done r t))
perform_isolates count call s sound allowed =
    let (rc, t, e, sound', spares) = perform-Sound count call s sound allowed in
    (
      rc,
      t,
      e,
      sound',
      λ w n other small.
          Untouched-get_syscall_fn s t w n sound sound' (spared s t (named call rc) w spares other)
            small,
    )
  where
    spared : (s t : State) (x : Option ℤ) (w : ℤ) → Spares x s t → x ≢ some w → Untouched w s t
    spared s t none w h n = h w
    spared s t (some x) w h n = h w (λ e. n (ap some (sym e)))
