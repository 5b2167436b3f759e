-- ===== src/System/Registering.antt =====
-- register_syscall and unregister_syscall keep the invariant of the whole table.
use perprocess_syscall_tbl.Prelude.{
  ℕ, ◌≡◌, ◌≢◌, refl, sym, ap, ◌∙◌, ℤ, pos, false, Option, none, some, List, [], ◌∷◌, All, All-map,
  arith, length, Option-cases, inl, inr, dec_lt,
}
use mathlib.Core.Path.{fun_ext}
use perprocess_syscall_tbl.Strings.{c_str}
use perprocess_syscall_tbl.Ring.Search.{Loads-get_elem?}
use perprocess_syscall_tbl.Kernel.{
  Ptr, Syscall, SyscallVector, ModuleCall, State, done, write, einval, enomem, enoent, ebusy,
}
use perprocess_syscall_tbl.Registry.{Block, register_syscall, unregister_syscall}
use perprocess_syscall_tbl.Registry.Search.{IsShort, name_position}
use perprocess_syscall_tbl.Registry.Operations.{
  Loads-write, registered, register_syscall-new, register_syscall-dup, inserted,
}
use perprocess_syscall_tbl.Registry.Unregister.{
  Loads-free, dropped, dropped-IsRegistry, name_position-eq_some, unregister_syscall-none,
  unregister_syscall-busy, unregister_syscall-drop,
}
use perprocess_syscall_tbl.System.{Fresh, Unheld}
use perprocess_syscall_tbl.System.Invariant.{IsMapped, Sound, Ends, nothing, idle, same-Tallied}
use perprocess_syscall_tbl.System.Spares.{same-Spares, lookup-All}

pub write-none :
    (h : Ptr → Option Syscall) (p : Ptr) (c : Option Syscall)
    → h p ≡ none
    → write (write h p c) p none ≡ h
write-none h p c e = fun_ext λ q. at q
  where
    at : (q : Ptr) → write (write h p c) p none q ≡ h q
    at q = ground (arith, e)

-- A write to an unused address keeps every vector.
write-vectors :
    (h : Ptr → Option Syscall) (p : Ptr) (c : Option Syscall) (vs : List SyscallVector)
    → h p ≡ none
    → All (IsMapped h) vs
    → All (IsMapped (write h p c)) vs
write-vectors h p c vs e vectors =
    All-map vs
      (λ v m. record {
        calls = m.calls;
        live = Loads-write h p c v.syscall_num_list m.calls e m.live;
        sorted = m.sorted;
        bytes = m.bytes;
        whole = m.whole;
      })
      vectors

module _ (temp name : List ℕ) (fptr : ℕ) (n : ℤ) (m : Ptr) (s : State) (sound : Sound s)
    (temp_full : length temp ≡ 64) (fits : IsShort name) where
  register_allocated :
      (p : Ptr) (bytes : List ℕ)
      → length bytes ≡ 64
      → s.heap p ≡ none
      → Ends nothing s
          (register_syscall temp (some (record { addr = p; bytes = bytes })) name fptr n m s)
  register_allocated p bytes full unused =
      let cs = sound.calls in
      let reg = sound.registry in
      elim (Option-cases (name_position (c_str name) cs)) [
        | inr (i, dup) ↦
            let restored = write-none s.heap p (some (registered bytes name fptr n m)) unused in
            (
              einval,
              _,
              register_syscall-dup temp bytes name p fptr n m s cs temp_full full fits unused reg i
                    dup
                  ∙ ap (λ h. done einval (record s { heap = h; lock = false })) restored,
              record {
                tallied = same-Tallied s (record s { lock = false }) refl refl refl sound.tallied;
                calls = cs;
                registry = record {
                  free = refl;
                  live = reg.live;
                  short = reg.short;
                  sorted = reg.sorted;
                };
                vectors = sound.vectors;
              },
              same-Spares none s (record s { lock = false }) refl refl,
            )
        | inl new ↦
            let (qs, e, reg') =
              register_syscall-new temp bytes name p fptr n m s cs temp_full full fits unused reg
                new in
            let t : State =
              inserted temp bytes name p fptr n m s cs temp_full full fits unused reg qs in
            (
              pos 0,
              t,
              e,
              record {
                tallied = same-Tallied s t refl refl refl sound.tallied;
                calls = _;
                registry = reg';
                vectors = write-vectors s.heap p _ s.vector_list unused sound.vectors;
              },
              λ w. record {
                looked = refl;
                loads = λ bits ps ds at live. Loads-write s.heap p _ ps ds unused live;
              },
            )
      ]

  pub register-Ends :
      (memory : Option Block)
      → Fresh memory s
      → Ends nothing s (register_syscall temp memory name fptr n m s)
  unfolding register_syscall
  register-Ends none fresh = idle nothing enomem s _ sound (ground arith)
  register-Ends (some b) (full, unused) = register_allocated b.addr b.bytes full unused

-- The nodes of a vector that holds no record with the name are not the node of that name.
unheld_apart :
    (h : Ptr → Option Syscall) (name : List ℕ) (p : Ptr) (c : Syscall) (ps : List Ptr)
    → h p ≡ some c
    → c_str name ≡ c_str c.name
    → All (λ q. (d : Syscall) → h q ≡ some d → c_str d.name ≢ c_str name) ps
    → All (λ q. q ≢ p) ps
unheld_apart h name p c ps here same unheld =
    All-map ps (λ q no e. no c (ap h e ∙ here) (sym same)) unheld

free-vectors :
    (h : Ptr → Option Syscall) (name : List ℕ) (p : Ptr) (c : Syscall) (vs : List SyscallVector)
    → h p ≡ some c
    → c_str name ≡ c_str c.name
    → All
        (λ v.
          All (λ q. (d : Syscall) → h q ≡ some d → c_str d.name ≢ c_str name) v.syscall_num_list)
        vs
    → All (IsMapped h) vs
    → All (IsMapped (write h p none)) vs
free-vectors h name p c [] here same unheld vectors = tt
free-vectors h name p c (v ∷ vs) here same (none_here, unheld) (m, vectors) = (
  record {
    calls = m.calls;
    live =
        Loads-free h p v.syscall_num_list m.calls
          (unheld_apart h name p c v.syscall_num_list here same none_here) m.live;
    sorted = m.sorted;
    bytes = m.bytes;
    whole = m.whole;
  },
  free-vectors h name p c vs here same unheld vectors,
)

pub unregister-Ends :
    (module_refcount : Ptr → List ModuleCall → ℕ) (temp name : List ℕ) (s : State)
    → Sound s
    → length temp ≡ 64
    → IsShort name
    → Unheld name s
    → Ends nothing s (unregister_syscall module_refcount temp name s)
unregister-Ends count temp name s sound full fits unheld =
    let cs = sound.calls in
    let reg = sound.registry in
    elim (Option-cases (name_position (c_str name) cs)) [
      | inl e ↦
          idle nothing enoent s _ sound
            (unregister_syscall-none count temp name s cs full fits reg e)
      | inr (i, e) ↦
          let (c, at, same) = name_position-eq_some (c_str name) cs i e in
          let (p, node, here) = Loads-get_elem? s.heap s.syscall_list cs i c reg.live at in
          elim (dec_lt 1 (count c.module_ptr s.module_log)) [
            | yes used ↦
                idle nothing ebusy s _ sound (
                  unregister_syscall-busy count temp name s cs full fits reg i c p e node here used)
            | no idle ↦ (
              pos 0,
              dropped i p s,
              unregister_syscall-drop count temp name s cs full fits reg i c p e node here
                  (omega arith),
              record {
                tallied = same-Tallied s (dropped i p s) refl refl refl sound.tallied;
                calls = _;
                registry = dropped-IsRegistry s cs i c p reg here at;
                vectors = free-vectors s.heap name p c s.vector_list here same unheld sound.vectors;
              },
              λ w. record {
                looked = refl;
                loads = λ bits ps ds at live.
                    Loads-free s.heap p ps ds
                      (unheld_apart s.heap name p c ps here same
                        (lookup-All w s.vector_list _ bits ps at unheld))
                      live;
              },
            )
          ]
    ]
