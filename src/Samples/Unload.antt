-- ===== src/Samples/Unload.antt =====
-- exit_test_syscalls of syscall_module/test_syscalls.c, which unregisters the names that
-- init_test_syscalls registers, in the same order, and reads none of the values.
use perprocess_syscall_tbl.Prelude.{
  ℕ, ◌≡◌, refl, sym, ap, ◌∙◌, subst, ℤ, pos, ◌==ℤ◌, Bool, true, false, ◌||◌, Option, none, List, [],
  ◌∷◌, All, All-map, length, if◌then◌else◌,
}
use perprocess_syscall_tbl.Strings.{c_str}
use perprocess_syscall_tbl.Strings.Compare.{compare_names}
use perprocess_syscall_tbl.Kernel.{Ptr, ModuleCall, State, M, done, ◌>>◌, pure}
use perprocess_syscall_tbl.Registry.{unregister_syscall}
use perprocess_syscall_tbl.Registry.Search.{IsShort}
use perprocess_syscall_tbl.System.{Allowed, Unheld, unregister}
use perprocess_syscall_tbl.System.Invariant.{Sound}
use perprocess_syscall_tbl.System.Isolation.{perform_isolates, get_syscall_fn-Sound}
use perprocess_syscall_tbl.Contract.View.{view}
use perprocess_syscall_tbl.Contract.Promise.{call_end, same_state}
use perprocess_syscall_tbl.Contract.Refinement.{perform-specified}
use perprocess_syscall_tbl.Samples.Load.{
  sample_calls, sample_calls-IsShort, SameLookups, SameLookups-trans,
}
use perprocess_syscall_tbl.Samples.Erasing.{IsRefcount, Idle, erased, Idle-unregistering}
use perprocess_syscall_tbl.Samples.Shrinks.{Shrinks, Unheld-Shrinks, unregister-Shrinks}

module _ (module_refcount : Ptr → List ModuleCall → ℕ) (temp : List ℕ → List ℕ) where
  unfoldable pub unregister_all : List (List ℕ × ℤ) → M Unit
  unregister_all [] = pure tt
  unregister_all ((name, num) ∷ rest) = do
    unregister_syscall module_refcount (temp name) name
    unregister_all rest

  unfoldable pub exit_test_syscalls : M Unit
  unfolding unregister_all
  exit_test_syscalls = unregister_all sample_calls

-- Whether a name is one of the calls'.
abbrev pub is_listed : List ℕ → List (List ℕ × ℤ) → Bool
is_listed x [] = false
is_listed x (c ∷ cs) = (compare_names x (c_str c.0) ==ℤ pos 0) || is_listed x cs

-- The registered names of `t` are those of `s` without the names of the calls.
abbrev pub Without : List (List ℕ × ℤ) → State → State → Type 0
Without calls s t =
    (x : List ℕ)
    → (view t).registered x ≡ (if is_listed x calls then none else (view s).registered x)

listed_cons :
    {A : Type 0} (one more : Bool) (old : Option A)
    → (if more then none else if one then none else old) ≡ (if one || more then none else old)
listed_cons true true old = refl
listed_cons true false old = refl
listed_cons false true old = refl
listed_cons false false old = refl

module _ (count : Ptr → List ModuleCall → ℕ) (counts : IsRefcount count) (temp : List ℕ → List ℕ)
    (full : (name : List ℕ) → length (temp name) ≡ 64) where
  one-Without :
      (name : List ℕ) (s : State)
      → Sound s
      → IsShort name
      → Unheld name s
      → Idle count name (view s)
      → (rc : ℤ) × (t : State) × (unregister_syscall count (temp name) name s ≡ done rc t)
        × Shrinks s t
        × Sound t
        × SameLookups s t
        × ((x : List ℕ)
            → (view t).registered x
              ≡ (if compare_names x (c_str name) ==ℤ pos 0 then none else (view s).registered x))
        × ((other : List ℕ) → Idle count other (view s) → Idle count other (view t))
  one-Without name s sound fits unheld idle =
      let (rc, t, e, smaller) =
        unregister-Shrinks count (temp name) name s sound (full name) fits in
      let allowed : Allowed (unregister (temp name) name) s = (full name, fits, unheld) in
      let (_, q, e', _, lookups) =
        perform_isolates count (unregister (temp name) name) s sound allowed in
      let (_, rc', r, _, e'', _, spec) =
        perform-specified count (unregister (temp name) name) s sound allowed in
      (
        rc,
        t,
        e,
        smaller,
        (call_end count (unregister (temp name) name) s t rc sound allowed e).0,
        subst (SameLookups s) (same_state (sym e' ∙ e))
            (λ w n small. lookups w n (λ z. cc z) small),
        subst
            (λ u.
              (x : List ℕ)
              → (view u).registered x
                ≡ (if compare_names x (c_str name) ==ℤ pos 0 then none else (view s).registered x))
            (same_state (sym e'' ∙ e))
            (erased count name s r rc' ((view s).registered (c_str name)) idle refl spec),
        λ other h.
            subst (λ u. Idle count other (view u)) (same_state (sym e'' ∙ e))
              (Idle-unregistering count name s r rc' other ((view s).registered (c_str name)) counts
                spec h),
      )

  unregister_all-Without :
      (calls : List (List ℕ × ℤ)) (s : State)
      → Sound s
      → All (λ c. IsShort c.0) calls
      → All (λ c. Unheld c.0 s) calls
      → All (λ c. Idle count c.0 (view s)) calls
      → (t : State) × (unregister_all count temp calls s ≡ done tt t)
        × Sound t
        × SameLookups s t
        × Without calls s t
  unfolding unregister_all
  unregister_all-Without [] s sound fits unheld idle = (
    s,
    refl,
    sound,
    (λ w n small. let (r, e) = get_syscall_fn-Sound s w n sound small in (r, e, e)),
    λ x. refl,
  )
  unregister_all-Without ((name, num) ∷ rest) s sound (fits, short) (free, unheld)
        (idle_here, idle) =
      let (rc, t, e, smaller, sound', lookups, own, idles) =
        one-Without name s sound fits free idle_here in
      let (u, e', sound'', lookups', left) =
        unregister_all-Without rest t sound' short
          (All-map rest (λ c h. Unheld-Shrinks c.0 s t smaller h) unheld)
          (All-map rest (λ c h. idles c.0 h) idle) in
      (
        u,
        rw e e',
        sound'',
        SameLookups-trans s t u lookups lookups',
        λ x.
            left x
            ∙ ap (λ o. if is_listed x rest then none else o) (own x)
            ∙ listed_cons (compare_names x (c_str name) ==ℤ pos 0) (is_listed x rest)
                ((view s).registered x),
      )

-- Where no vector holds a sample call, and the module of each registered one of the nine names has a count
-- of at most 1, exit_test_syscalls ends from every sound table, keeps it sound, and changes no lookup of
-- any vector: just the nine names are registered no more, whichever module had registered them. For every
-- count that module_put does not raise.
pub exit_test_syscalls-Without :
    (count : Ptr → List ModuleCall → ℕ) (temp : List ℕ → List ℕ) (s : State)
    → IsRefcount count
    → ((name : List ℕ) → length (temp name) ≡ 64)
    → Sound s
    → All (λ c. Unheld c.0 s) sample_calls
    → All (λ c. Idle count c.0 (view s)) sample_calls
    → (t : State) × (exit_test_syscalls count temp s ≡ done tt t)
      × Sound t
      × SameLookups s t
      × Without sample_calls s t
unfolding exit_test_syscalls
exit_test_syscalls-Without count temp s counts full sound unheld idle =
    unregister_all-Without count counts temp full sample_calls s sound sample_calls-IsShort unheld
      idle
