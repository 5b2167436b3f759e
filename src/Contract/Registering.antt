-- ===== src/Contract/Registering.antt =====
-- register_syscall and unregister_syscall follow the specification.
use mathlib.Core.Path.{fun_ext}
use perprocess_syscall_tbl.Prelude.{
  ℕ, ◌≡◌, refl, sym, ap, ◌∙◌, ℤ, pos, ◌==ℤ◌, ==ℤ_iff, ne→==ℤ, false, Option, none, some, List,
  All-map, arith, length, erase_idx, get_elem?, Option-cases, dec_lt, inl, inr, if◌then◌else◌,
}
use perprocess_syscall_tbl.Strings.{c_str}
use perprocess_syscall_tbl.Strings.Compare.{compare_names, compare_names-eq}
use perprocess_syscall_tbl.Strings.Copy.{c_str-strncpy}
use perprocess_syscall_tbl.Ring.Order.{Sorted}
use perprocess_syscall_tbl.Ring.Insert.{insert}
use perprocess_syscall_tbl.Ring.Search.{Loads-get_elem?}
use perprocess_syscall_tbl.Kernel.{
  Ptr, Syscall, ModuleCall, State, done, einval, enomem, enoent, ebusy,
}
use perprocess_syscall_tbl.Registry.{Block, register_syscall}
use perprocess_syscall_tbl.Registry.Search.{IsShort, by_name, name_position}
use perprocess_syscall_tbl.Registry.Operations.{
  IsRegistry, registered, register_syscall-new, register_syscall-dup, inserted,
}
use perprocess_syscall_tbl.Registry.Unregister.{
  dropped, dropped-IsRegistry, name_position-eq_some, unregister_syscall-none,
  unregister_syscall-busy, unregister_syscall-drop, erase_idx-name_ne,
}
use perprocess_syscall_tbl.Contract.{Entry, put_name, registering, unregistering}
use perprocess_syscall_tbl.Contract.Entries.{
  entry_of, records-Loads, find_entry, find_entry-none, find_entry-some, find_idx-eq_none,
  find_entry-insert, find_entry-erase_idx,
}
use perprocess_syscall_tbl.Contract.View.{name_test, view, view-Spares, view-parts}
use perprocess_syscall_tbl.Contract.Promise.{Follows, call_end, unchanged}
use perprocess_syscall_tbl.System.{register, unregister, Fresh, Unheld}
use perprocess_syscall_tbl.System.Invariant.{Sound}
use perprocess_syscall_tbl.System.Registering.{write-none}

-- The map of the registered names, from the records in their order.
pub view-registered :
    (s : State) (cs : List Syscall)
    → IsRegistry s cs
    → (view s).registered ≡ (λ x. find_entry (name_test x) cs)
view-registered s cs reg =
    λ i x. find_entry (name_test x) (records-Loads s.heap s.syscall_list cs reg.live i)

module _ (name : List ℕ) (cs : List Syscall) where
  registered-insert :
      (c : Syscall)
      → c_str c.name ≡ name
      → name_position name cs ≡ none
      → (λ x. find_entry (name_test x) (insert by_name c cs))
        ≡ put_name name (some (entry_of c)) (λ x. find_entry (name_test x) cs)
  registered-insert c same new = fun_ext λ x. at x
    where
      at :
          (x : List ℕ)
          → find_entry (name_test x) (insert by_name c cs)
            ≡ put_name name (some (entry_of c)) (λ x. find_entry (name_test x) cs) x
      at x =
          find_entry-insert (name_test x) by_name c cs (
            All-map cs
              (λ d no hit.
                ap (λ n. name_test n d)
                  (compare_names-eq x (c_str c.name) ((==ℤ_iff _ (pos 0)).0 hit) ∙ same)
                ∙ no)
              (find_idx-eq_none (name_test name) cs new))
          ∙ ap
              (λ n.
                if compare_names x n ==ℤ pos 0
                then some (entry_of c)
                else find_entry (name_test x) cs)
              same

  registered-erase_idx :
      (i : ℕ) (c : Syscall)
      → name ≡ c_str c.name
      → Sorted by_name cs
      → get_elem? cs i ≡ some c
      → (λ x. find_entry (name_test x) (erase_idx cs i))
        ≡ put_name name none (λ x. find_entry (name_test x) cs)
  registered-erase_idx i c same sorted here = fun_ext λ x. at x
    where
      at :
          (x : List ℕ)
          → find_entry (name_test x) (erase_idx cs i)
            ≡ put_name name none (λ x. find_entry (name_test x) cs) x
      at x =
          find_entry-erase_idx (name_test x) cs i c here (
            All-map (erase_idx cs i)
              (λ d ne hit. ne→==ℤ _ (pos 0) (λ e. ne (
                sym (compare_names-eq x (c_str c.name) ((==ℤ_iff _ (pos 0)).0 hit))
                ∙ compare_names-eq x (c_str d.name) e)))
              (erase_idx-name_ne cs i c sorted here))
          ∙ ap (λ n. if compare_names x n ==ℤ pos 0 then none else find_entry (name_test x) cs)
              (sym same)

module _ (count : Ptr → List ModuleCall → ℕ) (s : State) (sound : Sound s) (temp name : List ℕ)
    (full : length temp ≡ 64) (fits : IsShort name) where
  pub known :
      (o : Option Entry)
      → find_entry (name_test (c_str name)) sound.calls ≡ o
      → (view s).registered (c_str name) ≡ o
  known o e = ap (λ f. f (c_str name)) (view-registered s sound.calls sound.registry) ∙ e

  module _ (fptr : ℕ) (n : ℤ) (m : Ptr) (id : ℤ) where
    abbrev new_entry : Entry
    new_entry = record { fptr = fptr; syscall_num = n; module_ptr = m }

    register_allocated :
        (b : Block)
        → length b.bytes ≡ 64
        → s.heap b.addr ≡ none
        → Follows count id (register temp (some b) name fptr n m) s
    register_allocated b whole unused =
        let cs = sound.calls in
        let reg = sound.registry in
        elim (Option-cases (name_position (c_str name) cs)) [
          | inr (i, dup) ↦
              let (d, at, _) = name_position-eq_some (c_str name) cs i dup in
              let restored =
                write-none s.heap b.addr (some (registered b.bytes name fptr n m)) unused in
              (
                einval,
                record s { lock = false },
                register_syscall-dup temp b.bytes name b.addr fptr n m s cs full whole fits unused
                      reg i dup
                    ∙ ap (λ h. done einval (record s { heap = h; lock = false })) restored,
                sym (
                    ap (λ o. registering (some b) name new_entry o (view s))
                      (known _ (find_entry-some (name_test (c_str name)) cs i d dup at))),
              )
          | inl new ↦
              let (qs, e, reg') =
                register_syscall-new temp b.bytes name b.addr fptr n m s cs full whole fits unused
                  reg new in
              let t : State =
                inserted temp b.bytes name b.addr fptr n m s cs full whole fits unused reg qs in
              let (_, spares) =
                call_end count (register temp (some b) name fptr n m) s t (pos 0) sound
                  (full, fits, (whole, unused)) e in
              let same = c_str-strncpy b.bytes name 63 fits (omega arith) in
              (
                pos 0,
                t,
                e,
                ap (λ a. (pos 0, a))
                      (view-parts t
                        (view-registered t _ reg'
                          ∙ registered-insert (c_str name) cs (registered b.bytes name fptr n m)
                              same new
                          ∙ ap (put_name (c_str name) (some new_entry))
                              (sym (view-registered s cs reg)))
                        (view-Spares s t sound spares) refl refl refl)
                    ∙ sym (
                        ap (λ o. registering (some b) name new_entry o (view s))
                          (known none (find_entry-none (name_test (c_str name)) cs new))),
              )
        ]

    pub register-Follows :
        (memory : Option Block)
        → Fresh memory s
        → Follows count id (register temp memory name fptr n m) s
    unfolding register_syscall
    register-Follows none fresh =
        unchanged count id (register temp none name fptr n m) s enomem (ground arith) refl
    register-Follows (some b) (whole, unused) = register_allocated b whole unused

  pub unregister-Follows : (id : ℤ) → Unheld name s → Follows count id (unregister temp name) s
  unregister-Follows id unheld =
      let cs = sound.calls in
      let reg = sound.registry in
      elim (Option-cases (name_position (c_str name) cs)) [
        | inl e ↦
            unchanged count id (unregister temp name) s enoent
              (unregister_syscall-none count temp name s cs full fits reg e)
              (ap (λ o. unregistering count name o (view s))
                (known none (find_entry-none (name_test (c_str name)) cs e)))
        | inr (i, e) ↦
            let (c, at, same) = name_position-eq_some (c_str name) cs i e in
            let (p, node, here) = Loads-get_elem? s.heap s.syscall_list cs i c reg.live at in
            let was =
              ap (λ o. unregistering count name o (view s))
                (known (some (entry_of c))
                  (find_entry-some (name_test (c_str name)) cs i c e at)) in
            elim (dec_lt 1 (count c.module_ptr s.module_log)) [
              | yes used ↦
                  unchanged count id (unregister temp name) s ebusy
                    (unregister_syscall-busy count temp name s cs full fits reg i c p e node here
                      used)
                    (was ∙ ground arith)
              | no idle ↦
                  let left =
                    unregister_syscall-drop count temp name s cs full fits reg i c p e node here
                      (omega arith) in
                  let (_, spares) =
                    call_end count (unregister temp name) s (dropped i p s) (pos 0) sound
                      (full, fits, unheld) left in
                  (
                    pos 0,
                    dropped i p s,
                    left,
                    ap (λ a. (pos 0, a))
                          (view-parts (dropped i p s)
                            (view-registered (dropped i p s) (erase_idx cs i)
                                (dropped-IsRegistry s cs i c p reg here at)
                              ∙ registered-erase_idx (c_str name) cs i c same reg.sorted at
                              ∙ ap (put_name (c_str name) none) (sym (view-registered s cs reg)))
                            (view-Spares s (dropped i p s) sound spares) refl refl refl)
                        ∙ sym (was ∙ ground arith),
                  )
            ]
      ]
