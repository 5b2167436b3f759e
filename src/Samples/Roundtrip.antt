-- ===== src/Samples/Roundtrip.antt =====
-- init_test_syscalls and then exit_test_syscalls of syscall_module/test_syscalls.c.
use perprocess_syscall_tbl.Prelude.{
  ℕ, ◌≡◌, refl, sym, ap, ◌∙◌, subst, ℤ, pos, Bool, true, false, ◌||◌, none, List, [], ◌∷◌, All,
  All-map, length, Option, if◌then◌else◌,
}
use perprocess_syscall_tbl.Strings.{c_str}
use perprocess_syscall_tbl.Kernel.{Ptr, ModuleCall, State, done}
use perprocess_syscall_tbl.Registry.{Block}
use perprocess_syscall_tbl.Registry.Search.{IsShort}
use perprocess_syscall_tbl.System.{Fresh, Unheld, register, Allowed}
use perprocess_syscall_tbl.System.Invariant.{Sound}
use perprocess_syscall_tbl.Contract.{Table}
use perprocess_syscall_tbl.Contract.View.{view}
use perprocess_syscall_tbl.Contract.Promise.{call_end, same_state}
use perprocess_syscall_tbl.Contract.Refinement.{perform-specified}
use perprocess_syscall_tbl.Samples.Load.{
  register_all, init_test_syscalls, sample_calls, sample_calls-IsShort, SameLookups,
  init_test_syscalls-Sound,
}
use perprocess_syscall_tbl.Samples.Erasing.{IsRefcount, Idle}
use perprocess_syscall_tbl.Samples.Extends.{
  Unheld-Extends, register-Extends, registering-elsewhere, Freeable, Freeable-registering,
}
use perprocess_syscall_tbl.Samples.Unload.{
  exit_test_syscalls, is_listed, Without, exit_test_syscalls-Without,
}

listed_split : (a b : Bool) → (a || b) ≡ false → (a ≡ false) × (b ≡ false)
listed_split false b e = (refl, e)
listed_split true b e = cc e

same_where :
    {A : Type 0} (b : Bool) (old new : Option A)
    → (b ≡ false → old ≡ new)
    → (if b then none else old) ≡ (if b then none else new)
same_where true old new h = refl
same_where false old new h = h refl

module _ (kmalloc : State → Option Block) (temp : List ℕ → List ℕ) (address : List ℕ → ℕ)
    (this_module : Ptr) (fresh : (s : State) → Fresh (kmalloc s) s)
    (full : (name : List ℕ) → length (temp name) ≡ 64) (count : Ptr → List ModuleCall → ℕ)
    (counts : IsRefcount count) where
  -- The names that are not registered by the calls stay as they are, and so do the vectors.
  register_all-elsewhere :
      (calls : List (List ℕ × ℤ)) (s : State)
      → Sound s
      → All (λ c. IsShort c.0) calls
      → (t : State) × (register_all kmalloc temp address this_module calls s ≡ done tt t)
        × ((name : List ℕ) → Unheld name s → Unheld name t)
        × ((x : List ℕ)
            → Freeable count this_module x (view s)
            → Freeable count this_module x (view t))
        × ((x : List ℕ) → is_listed x calls ≡ false → (view t).registered x ≡ (view s).registered x)
  unfolding register_all
  register_all-elsewhere [] s sound short = (s, refl, (λ name h. h), (λ x h. h), λ x e. refl)
  register_all-elsewhere ((name, num) ∷ rest) s sound (fits, short) =
      let (rc, t, e, more) =
        register-Extends (temp name) name (address name) num this_module s sound (full name) fits
          (kmalloc s) (fresh s) in
      let allowed : Allowed (register (temp name) (kmalloc s) name (address name) num this_module)
          s =
        (full name, fits, fresh s) in
      let (_, rc', r, _, e', _, spec) =
        perform-specified (λ p log. 0)
          (register (temp name) (kmalloc s) name (address name) num this_module) s sound allowed in
      let same = same_state (sym e' ∙ e) in
      let sound' =
        (call_end (λ p log. 0)
          (register (temp name) (kmalloc s) name (address name) num this_module) s t rc sound
          allowed e).0 in
      let (u, f, held, freeable, left) = register_all-elsewhere rest t sound' short in
      (
        u,
        rw e f,
        (λ x h. held x (Unheld-Extends x s t sound more h)),
        (λ x h. freeable x (
            subst (λ q. Freeable count this_module x (view q)) same
              (Freeable-registering count counts name
                (record { fptr = address name; syscall_num = num; module_ptr = this_module })
                (view s) (kmalloc s) ((view s).registered (c_str name)) r rc' x spec h))),
        λ x apart.
            let (here, later) = listed_split _ (is_listed x rest) apart in
            left x later
            ∙ ap (λ q. (view q).registered x) (sym same)
            ∙ registering-elsewhere (kmalloc s) name _ ((view s).registered (c_str name)) s r rc' x
                spec here,
      )

freed :
    (count : Ptr → List ModuleCall → ℕ) (m : Ptr) (name : List ℕ) (a : Table)
    → Freeable count m name a
    → Idle count name a
freed count m name a (own, loose) e at = (loose e at).1

-- Let kmalloc give a block that is not in use or none, no vector hold a sample call, and let the module of
-- the sample calls, and each module that registered one of the nine names before, be another one than the
-- table's own with a count of at most 1; for every count that behaves as the kernel documents. Then from
-- every sound table init_test_syscalls ends with 0, and exit_test_syscalls after it ends, whichever
-- registrations fail. The tables behind both are sound, and neither call changes a lookup of a vector. In
-- the end the registered names are those of the start but for the nine names, so the same where none of
-- these was registered.
pub exit_test_syscalls-init :
    (kmalloc : State → Option Block) (temp temp' : List ℕ → List ℕ) (address : List ℕ → ℕ)
    (this_module : Ptr) (count : Ptr → List ModuleCall → ℕ) (s : State)
    → ((u : State) → Fresh (kmalloc u) u)
    → ((name : List ℕ) → length (temp name) ≡ 64)
    → ((name : List ℕ) → length (temp' name) ≡ 64)
    → IsRefcount count
    → Sound s
    → All (λ c. Unheld c.0 s) sample_calls
    → All (λ c. Freeable count this_module c.0 (view s)) sample_calls
    → (t : State) × (u : State) × (init_test_syscalls kmalloc temp address this_module s
        ≡ done (pos 0) t)
      × (exit_test_syscalls count temp' t ≡ done tt u)
      × (Sound t × Sound u)
      × (SameLookups s t × SameLookups t u)
      × Without sample_calls s u
unfolding init_test_syscalls
exit_test_syscalls-init kmalloc temp temp' address this_module count s fresh full full' counts sound
      unheld loose =
    let (r, f, held, freeable, left) =
      register_all-elsewhere kmalloc temp address this_module fresh full count counts sample_calls s
        sound sample_calls-IsShort in
    let (t, e, sound', lookups) =
      init_test_syscalls-Sound kmalloc temp address this_module s fresh full sound in
    let ends : init_test_syscalls kmalloc temp address this_module s ≡ done (pos 0) r = rw f refl in
    let same : r ≡ t = same_state (sym ends ∙ e) in
    let idle : All (λ c. Idle count c.0 (view r)) sample_calls =
      All-map sample_calls (λ c h. freed count this_module c.0 (view r) (freeable c.0 h)) loose in
    let (u, e', sound'', lookups', own) =
      exit_test_syscalls-Without count temp' t counts full' sound'
        (subst (λ q. All (λ c. Unheld c.0 q) sample_calls) same
          (All-map sample_calls (λ c h. held c.0 h) unheld))
        (subst (λ q. All (λ c. Idle count c.0 (view q)) sample_calls) same idle) in
    (
      t,
      u,
      e,
      e',
      (sound', sound''),
      (lookups, lookups'),
      λ x.
          own x
          ∙ same_where (is_listed x sample_calls) ((view t).registered x) ((view s).registered x)
              (λ apart. ap (λ q. (view q).registered x) (sym same) ∙ left x apart),
    )
