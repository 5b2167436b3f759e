-- ===== src/Registry/Unregister.antt =====
-- unregister_syscall: its branches, what it leaves in the registry, and a record freed in use.
use perprocess_syscall_tbl.Prelude.{
  ℕ, zero, suc, ◌<◌, ◌≤◌, ◌≡◌, ◌≢◌, refl, sym, ap, ◌∙◌, subst, pos, leb_ℤ, true, false, Option,
  none, some, some-inj, All-get_elem?, All-map, find_idx, find_idx-eq_some, ne→==ℤ, ==ℤ_iff, ◌⊎◌,
  inl, inr, Option-cases, dec_lt, List, [], ◌∷◌, All, arith, length, get_elem?, erase_idx,
}
use perprocess_syscall_tbl.Strings.{c_str}
use perprocess_syscall_tbl.Strings.Compare.{compare_names, compare_names-eq, compare_names_refl}
use perprocess_syscall_tbl.Ring.{remove_node}
use perprocess_syscall_tbl.Ring.Order.{Before, Sorted, Loads}
use perprocess_syscall_tbl.Ring.Insert.{All-erase_idx, erase_idx-Sorted}
use perprocess_syscall_tbl.Ring.Search.{Loads-remove_node, Loads-get_elem?}
use perprocess_syscall_tbl.Kernel.{
  Ptr, Syscall, State, ModuleCall, module_put, done, write, enoent, ebusy,
}
use perprocess_syscall_tbl.Registry.{get_syscall, unregister_syscall}
use perprocess_syscall_tbl.Registry.Search.{IsShort, by_name, name_position, get_syscall-position}
use perprocess_syscall_tbl.Registry.Operations.{IsRegistry}

Before-irrefl : (c : Syscall) → ¬ Before by_name c c
unfolding by_name
Before-irrefl c h = cc (ap (leb_ℤ (pos 1)) (compare_names_refl (c_str c.name)), h)

module _ (h : Ptr → Option Syscall) (p : Ptr) (c : Syscall) (here : h p ≡ some c) where
  behind-apart :
      (ps : List Ptr) (cs : List Syscall)
      → Loads h ps cs
      → All (Before by_name c) cs
      → All (λ q. q ≢ p) ps
  behind-apart [] cs live b = tt
  behind-apart (q ∷ ps) [] live b = absurd (live tt)
  behind-apart (q ∷ ps) (d ∷ cs) live b = (
    λ e. Before-irrefl c (subst (Before by_name c) (some-inj d c (sym live.0 ∙ ap h e ∙ here)) b.0),
    behind-apart ps cs live.1 b.1,
  )

  -- No other node of the registry has the same address.
  erase_idx-apart :
      (ps : List Ptr) (cs : List Syscall) (i : ℕ)
      → Loads h ps cs
      → Sorted by_name cs
      → get_elem? cs i ≡ some c
      → All (λ q. q ≢ p) (erase_idx ps i)
  unfolding erase_idx
  erase_idx-apart [] cs i live s at = tt
  erase_idx-apart (q ∷ ps) [] i live s at = absurd (live tt)
  erase_idx-apart (q ∷ ps) (d ∷ cs) zero live s at =
      behind-apart ps cs live.1 (subst (λ x. All (Before by_name x) cs) (some-inj d c at) s.0)
  erase_idx-apart (q ∷ ps) (d ∷ cs) (suc i) live s at = (
    λ e. Before-irrefl c (
        subst (λ x. Before by_name x c) (some-inj d c (sym live.0 ∙ ap h e ∙ here))
          (All-get_elem? (Before by_name d) cs i c s.0 at)),
    erase_idx-apart ps cs i live.1 s.1 at,
  )

pub Loads-free :
    (h : Ptr → Option Syscall) (p : Ptr) (ps : List Ptr) (cs : List Syscall)
    → All (λ q. q ≢ p) ps
    → Loads h ps cs
    → Loads (write h p none) ps cs
Loads-free h p [] [] n live = tt
Loads-free h p [] (d ∷ cs) n live = live
Loads-free h p (q ∷ ps) [] n live = live
Loads-free h p (q ∷ ps) (d ∷ cs) n live =
    (ground (arith, live.0, n.0), Loads-free h p ps cs n.1 live.1)

-- The state after the record at a position was taken out and its memory freed.
abbrev pub dropped : ℕ → Ptr → State → State
dropped i p s = record s {
  lock = false;
  syscall_list = erase_idx s.syscall_list i;
  heap = write s.heap p none;
  module_log = module_put s.syscall_module ∷ s.module_log;
}

module _ (module_refcount : Ptr → List ModuleCall → ℕ) (temp name : List ℕ) (s : State)
    (cs : List Syscall) (temp_full : length temp ≡ 64) (fits : IsShort name)
    (reg : IsRegistry s cs) where
  looked :
      get_syscall temp name (record s { lock = true })
      ≡ done (name_position (c_str name) cs) (record s { lock = true })
  looked =
      get_syscall-position temp name (record s { lock = true }) cs temp_full fits reg.short reg.live

  pub unregister_syscall-none :
      name_position (c_str name) cs ≡ none
      → unregister_syscall module_refcount temp name s ≡ done enoent s
  unfolding unregister_syscall
  unregister_syscall-none e = ground (arith, looked, reg.free)

  module _ (i : ℕ) (c : Syscall) (p : Ptr) (found : name_position (c_str name) cs ≡ some i)
      (node : get_elem? s.syscall_list i ≡ some p) (here : s.heap p ≡ some c) where
    pub unregister_syscall-busy :
        1 < module_refcount c.module_ptr s.module_log
        → unregister_syscall module_refcount temp name s ≡ done ebusy s
    unfolding unregister_syscall
    unregister_syscall-busy used = ground (arith, looked, reg.free)

    pub unregister_syscall-drop :
        module_refcount c.module_ptr s.module_log ≤ 1
        → unregister_syscall module_refcount temp name s ≡ done (pos 0) (dropped i p s)
    unfolding unregister_syscall remove_node
    unregister_syscall-drop idle = ground (arith, looked, reg.free)

Before-ne : (c d : Syscall) → Before by_name c d → c_str c.name ≢ c_str d.name
unfolding by_name
Before-ne c d h e = cc (
  ap (leb_ℤ (pos 1))
      (ap (λ x. compare_names (c_str d.name) x) e ∙ compare_names_refl (c_str d.name)),
  h,
)

-- The other records have other names.
pub erase_idx-name_ne :
    (cs : List Syscall) (i : ℕ) (c : Syscall)
    → Sorted by_name cs
    → get_elem? cs i ≡ some c
    → All (λ d. c_str c.name ≢ c_str d.name) (erase_idx cs i)
unfolding erase_idx
erase_idx-name_ne [] i c s at = tt
erase_idx-name_ne (d ∷ cs) zero c s at =
    All-map cs (λ x b. Before-ne c x (subst (λ y. Before by_name y x) (some-inj d c at) b)) s.0
erase_idx-name_ne (d ∷ cs) (suc i) c s at = (
  λ e. Before-ne d c (All-get_elem? (Before by_name d) cs i c s.0 at) (sym e),
  erase_idx-name_ne cs i c s.1 at,
)

name_position_absent :
    (name : List ℕ) (cs : List Syscall)
    → All (λ d. name ≢ c_str d.name) cs
    → name_position name cs ≡ none
unfolding find_idx
name_position_absent name [] h = refl
name_position_absent name (d ∷ cs) h =
    rw (ne→==ℤ _ (pos 0) (λ e. h.0 (compare_names-eq name (c_str d.name) e)))
      (rw (name_position_absent name cs h.1) refl)

pub name_position-eq_some :
    (name : List ℕ) (cs : List Syscall) (i : ℕ)
    → name_position name cs ≡ some i
    → (c : Syscall) × (get_elem? cs i ≡ some c) × (name ≡ c_str c.name)
name_position-eq_some name cs i found =
    let (c, at, same) = find_idx-eq_some _ cs i found in
    (c, at, compare_names-eq name (c_str c.name) ((==ℤ_iff _ (pos 0)).0 same))

pub dropped-IsRegistry :
    (s : State) (cs : List Syscall) (i : ℕ) (c : Syscall) (p : Ptr)
    → IsRegistry s cs
    → s.heap p ≡ some c
    → get_elem? cs i ≡ some c
    → IsRegistry (dropped i p s) (erase_idx cs i)
unfolding remove_node
dropped-IsRegistry s cs i c p reg here at = record {
  free = refl;
  live =
      Loads-free s.heap p (erase_idx s.syscall_list i) (erase_idx cs i)
        (erase_idx-apart s.heap p c here s.syscall_list cs i reg.live reg.sorted at)
        (Loads-remove_node s.heap s.syscall_list cs i reg.live);
  short = All-erase_idx (λ d. IsShort d.name) cs i reg.short;
  sorted = erase_idx-Sorted by_name cs i reg.sorted;
}

-- unregister_syscall on every branch, for any count that the kernel keeps: an unknown name changes
-- nothing and returns -ENOENT; a system call whose module has a count above 1 stays, with -EBUSY;
-- otherwise 0 is returned, exactly the record with the name is gone, the others are live and in
-- order, get_syscall no longer finds the name, and the module gives one reference back.
pub unregister_syscall_cases :
    (module_refcount : Ptr → List ModuleCall → ℕ) (temp name : List ℕ) (s : State)
    (cs : List Syscall)
    → length temp ≡ 64
    → IsShort name
    → IsRegistry s cs
    → ((name_position (c_str name) cs ≡ none)
        × (unregister_syscall module_refcount temp name s ≡ done enoent s))
      ⊎ ((i : ℕ) × (c : Syscall) × (get_elem? cs i ≡ some c)
          × (c_str name ≡ c_str c.name)
          × (((1 < module_refcount c.module_ptr s.module_log)
                × (unregister_syscall module_refcount temp name s ≡ done ebusy s))
              ⊎ ((t : State) × (module_refcount c.module_ptr s.module_log ≤ 1)
                  × (unregister_syscall module_refcount temp name s ≡ done (pos 0) t)
                  × IsRegistry t (erase_idx cs i)
                  × (get_syscall temp name t ≡ done none t)
                  × (t.module_log ≡ module_put s.syscall_module ∷ s.module_log))))
unfolding remove_node
unregister_syscall_cases count temp name s cs full fits reg =
    elim (Option-cases (name_position (c_str name) cs)) [
      | inl e ↦ inl (e, unregister_syscall-none count temp name s cs full fits reg e)
      | inr (i, e) ↦
          let (c, at, same) = name_position-eq_some (c_str name) cs i e in
          let (p, node, here) = Loads-get_elem? s.heap s.syscall_list cs i c reg.live at in
          inr (
            i,
            c,
            at,
            same,
            elim (dec_lt 1 (count c.module_ptr s.module_log)) [
              | yes used ↦ inl (
                used,
                unregister_syscall-busy count temp name s cs full fits reg i c p e node here used,
              )
              | no idle ↦ inr (dropped_result i c p e node here at same (omega arith))
            ],
          )
    ]
  where
    dropped_result :
        (i : ℕ) (c : Syscall) (p : Ptr)
        → name_position (c_str name) cs ≡ some i
        → get_elem? s.syscall_list i ≡ some p
        → s.heap p ≡ some c
        → get_elem? cs i ≡ some c
        → c_str name ≡ c_str c.name
        → count c.module_ptr s.module_log ≤ 1
        → (t : State) × (count c.module_ptr s.module_log ≤ 1)
          × (unregister_syscall count temp name s ≡ done (pos 0) t)
          × IsRegistry t (erase_idx cs i)
          × (get_syscall temp name t ≡ done none t)
          × (t.module_log ≡ module_put s.syscall_module ∷ s.module_log)
    dropped_result i c p e node here at same idle =
        let t : State = dropped i p s in
        let reg' = dropped-IsRegistry s cs i c p reg here at in
        let absent = name_position_absent (c_str name) (erase_idx cs i) (
          All-map (erase_idx cs i) (λ d n q. n (sym same ∙ q))
            (erase_idx-name_ne cs i c reg.sorted at)) in
        (
          t,
          idle,
          unregister_syscall-drop count temp name s cs full fits reg i c p e node here idle,
          reg',
          get_syscall-position temp name t (erase_idx cs i) full fits reg'.short reg'.live
              ∙ ap (λ r. done r t) absent,
          refl,
        )
