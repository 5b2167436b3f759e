-- ===== src/Samples/Shrinks.antt =====
-- unregister_syscall of syscall_module/syscall_tbl.c leaves the vectors and adds no record, so a name that
-- no vector holds stays so.
use perprocess_syscall_tbl.Prelude.{
  ℕ, ◌≡◌, ◌≢◌, refl, sym, subst, ℤ, pos, Option, none, some, Option-cases, List, All, All-map,
  arith, length, inl, inr, dec_lt,
}
use perprocess_syscall_tbl.Strings.{c_str}
use perprocess_syscall_tbl.Ring.Search.{Loads-get_elem?}
use perprocess_syscall_tbl.Kernel.{Ptr, Syscall, ModuleCall, State, done, ebusy, enoent, write}
use perprocess_syscall_tbl.Registry.{unregister_syscall}
use perprocess_syscall_tbl.Registry.Search.{IsShort, name_position}
use perprocess_syscall_tbl.Registry.Unregister.{
  dropped, name_position-eq_some, unregister_syscall-none, unregister_syscall-busy,
  unregister_syscall-drop,
}
use perprocess_syscall_tbl.System.{Unheld}
use perprocess_syscall_tbl.System.Invariant.{Sound}

-- The vectors are the same, and no record is new.
pub record Shrinks (s t : State) : Type 0 where
  pub vectors : t.vector_list ≡ s.vector_list
  pub nodes : (p : Ptr) (c : Syscall) → t.heap p ≡ some c → s.heap p ≡ some c

freed :
    (h : Ptr → Option Syscall) (q p : Ptr) (c : Syscall) → write h q none p ≡ some c → h p ≡ some c
freed h q p c e = ground arith

pub Unheld-Shrinks : (name : List ℕ) (s t : State) → Shrinks s t → Unheld name s → Unheld name t
Unheld-Shrinks name s t smaller unheld =
    subst
      (All λ v.
        All (λ p. (c : Syscall) → t.heap p ≡ some c → c_str c.name ≢ c_str name) v.syscall_num_list)
      (sym smaller.vectors)
      (All-map s.vector_list
        (λ v h. All-map v.syscall_num_list (λ p no c e. no c (smaller.nodes p c e)) h) unheld)

module _ (count : Ptr → List ModuleCall → ℕ) (temp name : List ℕ) (s : State) (sound : Sound s)
    (full : length temp ≡ 64) (fits : IsShort name) where
  same : Shrinks s s
  same = record { vectors = refl; nodes = λ p c e. e }

  pub unregister-Shrinks :
      (rc : ℤ) × (t : State) × (unregister_syscall count temp name s ≡ done rc t) × Shrinks s t
  unregister-Shrinks =
      let cs = sound.calls in
      let reg = sound.registry in
      elim (Option-cases (name_position (c_str name) cs)) [
        | inl e ↦ (enoent, s, unregister_syscall-none count temp name s cs full fits reg e, same)
        | inr (i, e) ↦
            let (c, at, _) = name_position-eq_some (c_str name) cs i e in
            let (p, node, here) = Loads-get_elem? s.heap s.syscall_list cs i c reg.live at in
            elim (dec_lt 1 (count c.module_ptr s.module_log)) [
              | yes used ↦ (
                ebusy,
                s,
                unregister_syscall-busy count temp name s cs full fits reg i c p e node here used,
                same,
              )
              | no idle ↦ (
                pos 0,
                dropped i p s,
                unregister_syscall-drop count temp name s cs full fits reg i c p e node here
                    (omega arith),
                record { vectors = refl; nodes = λ q d. freed s.heap p q d },
              )
            ]
      ]
