-- ===== src/Contract/Mapped.antt =====
-- add_syscall_to_vector and remove_syscall_from_vector follow the specification.
use mathlib.Core.Path.{fun_ext}
use perprocess_syscall_tbl.Prelude.{
  ℕ, zero, suc, ◌≡◌, ◌≢◌, refl, sym, ap, ◌∙◌, subst, ℤ, pos, negsuc, ◌==ℤ◌, ==ℤ_iff, ne→==ℤ, lt→ne,
  Bool, true, false, Option, none, some, List, [], ◌∷◌, All, All-map, All-get_elem?, length, modify,
  erase_idx, get_elem?, get_elem?-modify, find_idx-eq_some, some-inj, Option-cases, inl, inr,
  if◌then◌else◌,
}
use perprocess_syscall_tbl.Strings.{c_str}
use perprocess_syscall_tbl.Ring.{remove_node}
use perprocess_syscall_tbl.Ring.Order.{Loads, Sorted, Before}
use perprocess_syscall_tbl.Ring.Insert.{insert, add_node-insert}
use perprocess_syscall_tbl.Ring.Search.{Loads-get_elem?, Loads-remove_node}
use perprocess_syscall_tbl.Kernel.{Ptr, Syscall, SyscallVector, ModuleCall, State, enoent, enomem}
use perprocess_syscall_tbl.Registry.Search.{IsShort, name_position}
use perprocess_syscall_tbl.Registry.Unregister.{name_position-eq_some}
use perprocess_syscall_tbl.Vectors.Search.{position}
use perprocess_syscall_tbl.Assignment.Counts.{position-modify}
use perprocess_syscall_tbl.Mapping.{add_syscall_to_vector}
use perprocess_syscall_tbl.Mapping.Operations.{
  with_nums, add-new, add-dup, remove-some, remove-missing,
}
use perprocess_syscall_tbl.Dispatch.{cmp_syscall_by_syscall_num}
use perprocess_syscall_tbl.Dispatch.Lookup.{number_position}
use perprocess_syscall_tbl.Dispatch.Order.{Before-lt}
use perprocess_syscall_tbl.Contract.{
  Entry, Vector, Table, put_id, put_number, mapping, adding, removing,
}
use perprocess_syscall_tbl.Contract.Entries.{
  entry_of, find_entry, find_entry-none, find_entry-some, find_idx-eq_none, find_entry-insert,
  find_entry-erase_idx,
}
use perprocess_syscall_tbl.Contract.View.{
  blocked_of, name_test, number_test, vector_of, view, view-none, view-some, view-put_id,
  view-parts,
}
use perprocess_syscall_tbl.Contract.Promise.{Follows, call_end, unchanged}
use perprocess_syscall_tbl.Contract.Registering.{known}
use perprocess_syscall_tbl.System.{add_mapping, remove_mapping}
use perprocess_syscall_tbl.System.Invariant.{Sound, IsMapped}
use perprocess_syscall_tbl.System.Spares.{Spares}
use perprocess_syscall_tbl.System.Mapped.{
  entry, target, no_name_add, no_name_remove, no_vector_add, no_vector_remove,
}

-- The records of a vector as a map from numbers.
abbrev map_of : List Syscall → ℤ → Option Entry
map_of ds n = find_entry (number_test n) ds

map_of-insert :
    (c : Syscall) (ds : List Syscall)
    → number_position c.syscall_num ds ≡ none
    → map_of (insert cmp_syscall_by_syscall_num c ds)
      ≡ put_number c.syscall_num (some (entry_of c)) (map_of ds)
map_of-insert c ds new = fun_ext λ n.
    find_entry-insert (number_test n) cmp_syscall_by_syscall_num c ds (
      All-map ds
        (λ d no hit. ap (λ x. number_test x d) (sym ((==ℤ_iff c.syscall_num n).0 hit)) ∙ no)
        (find_idx-eq_none (number_test c.syscall_num) ds new))

-- The other records have other numbers.
erase_idx-number_ne :
    (ds : List Syscall) (j : ℕ) (d : Syscall)
    → Sorted cmp_syscall_by_syscall_num ds
    → get_elem? ds j ≡ some d
    → All (λ x. d.syscall_num ≢ x.syscall_num) (erase_idx ds j)
unfolding erase_idx
erase_idx-number_ne [] j d s at = tt
erase_idx-number_ne (x ∷ ds) zero d s at =
    All-map ds
      (λ y b.
        lt→ne d.syscall_num y.syscall_num
          (Before-lt d y (subst (λ z. Before cmp_syscall_by_syscall_num z y) (some-inj x d at) b)))
      s.0
erase_idx-number_ne (x ∷ ds) (suc j) d s at = (
  λ e.
      lt→ne x.syscall_num d.syscall_num
        (Before-lt x d (All-get_elem? (Before cmp_syscall_by_syscall_num x) ds j d s.0 at)) (sym e),
  erase_idx-number_ne ds j d s.1 at,
)

map_of-erase_idx :
    (ds : List Syscall) (j : ℕ) (d : Syscall) (num : ℤ)
    → d.syscall_num ≡ num
    → Sorted cmp_syscall_by_syscall_num ds
    → get_elem? ds j ≡ some d
    → map_of (erase_idx ds j) ≡ put_number num none (map_of ds)
map_of-erase_idx ds j d num same sorted at = fun_ext λ n.
    find_entry-erase_idx (number_test n) ds j d at (
      All-map (erase_idx ds j)
        (λ x ne hit. ne→==ℤ x.syscall_num n (λ e. ne ((==ℤ_iff d.syscall_num n).0 hit ∙ sym e)))
        (erase_idx-number_ne ds j d sorted at))
    ∙ ap (λ x. if x ==ℤ n then none else map_of ds n) same

module _ (count : Ptr → List ModuleCall → ℕ) (s : State) (sound : Sound s) (temp name : List ℕ)
    (full : length temp ≡ 64) (fits : IsShort name) (w id : ℤ) where
  abbrev Change : Type 0
  Change = ℤ → Entry → Vector → Option Entry → Table → ℤ × Table

  -- What the specification computes to, where the name or the vector is not found, and where both are.
  unnamed :
      (change : Change)
      → name_position (c_str name) sound.calls ≡ none
      → mapping change w ((view s).registered (c_str name)) ((view s).vectors w) (view s)
        ≡ (enoent, view s)
  unnamed change e =
      ap (λ o. mapping change w o ((view s).vectors w) (view s))
        (known count s sound temp name full fits none
          (find_entry-none (name_test (c_str name)) sound.calls e))

  module _ (k : ℕ) (c : Syscall) (e : name_position (c_str name) sound.calls ≡ some k)
      (at : get_elem? sound.calls k ≡ some c) where
    found_name :
        (change : Change) (o : Option Vector)
        → (view s).vectors w ≡ o
        → mapping change w ((view s).registered (c_str name)) ((view s).vectors w) (view s)
          ≡ mapping change w (some (entry_of c)) o (view s)
    found_name change o v =
        ap (λ r. mapping change w r ((view s).vectors w) (view s))
          (known count s sound temp name full fits (some (entry_of c))
            (find_entry-some (name_test (c_str name)) sound.calls k c e at))
        ∙ ap (λ r. mapping change w (some (entry_of c)) r (view s)) v

    module _ (i : ℕ) (v : SyscallVector) (m : IsMapped s.heap v)
        (found : position w s.vector_list ≡ some i)
        (here : get_elem? s.vector_list i ≡ some v) where
      abbrev looked : Vector
      looked = vector_of v.blocked m.calls

      found_both :
          (change : Change) (o : Option Entry)
          → map_of m.calls c.syscall_num ≡ o
          → mapping change w ((view s).registered (c_str name)) ((view s).vectors w) (view s)
            ≡ change w (entry_of c) looked o (view s)
      found_both change o x =
          found_name change (some looked) (view-some s w i v m.calls found here m.live)
          ∙ ap (λ r. change w (entry_of c) looked r (view s)) x

      -- The vector with another list.
      relisted :
          (t : State) (f : SyscallVector → SyscallVector) (ds : List Syscall) (g : ℤ → Option Entry)
          → ((u : SyscallVector) → (f u).id ≡ u.id)
          → (f v).blocked ≡ v.blocked
          → t.vector_list ≡ modify s.vector_list i f
          → Loads t.heap (f v).syscall_num_list ds
          → map_of ds ≡ g
          → Spares (some w) s t
          → (view t).registered ≡ (view s).registered
          → t.tasks ≡ s.tasks
          → t.syscall_module ≡ s.syscall_module
          → (log : List ModuleCall) → t.module_log ≡ log
          → view t ≡ record (view s) {
            vectors = put_id w (some (record looked { entries = g })) (view s).vectors;
            log = log;
          }
      relisted t f ds g same bits list live map spares names tasks self log logged =
          view-parts t names
            (view-put_id s t w _ sound spares (
              view-some t w i (f v) ds
                (ap (position w) list ∙ position-modify f same w s.vector_list i ∙ found)
                (ap (λ l. get_elem? l i) list ∙ get_elem?-modify s.vector_list i f v here) live
              ∙ (λ j. some (record looked { blocked = blocked_of (bits j); entries = map j }))))
            tasks logged self

      add_to_entry : Follows count id (add_mapping temp true w name) s
      add_to_entry =
          let (p, node, loaded) =
            Loads-get_elem? s.heap s.syscall_list sound.calls k c sound.registry.live at in
          let goal = target s sound temp name full fits w k i c v m.calls e at (record {
            free = sound.tallied.free;
            found = found;
            at = here;
            bytes = m.bytes;
            live = m.live;
          }) in
          elim (Option-cases (number_position c.syscall_num m.calls)) [
            | inr (j, dup) ↦
                let (d, at_d, _) = find_idx-eq_some _ m.calls j dup in
                unchanged count id (add_mapping temp true w name) s (negsuc 0)
                  (add-dup s temp name w sound.calls k c i v m.calls goal p node loaded j dup)
                  (found_both adding (some (entry_of d))
                    (find_entry-some (number_test c.syscall_num) m.calls j d dup at_d))
            | inl new ↦
                let (qs, linked, live) =
                  add_node-insert s.heap cmp_syscall_by_syscall_num p c v.syscall_num_list m.calls
                    loaded m.live in
                let added =
                  add-new s temp name w sound.calls k c i v m.calls goal p node loaded qs new
                    linked in
                let (_, spares) =
                  call_end count (add_mapping temp true w name) s _ (pos 0) sound (full, fits)
                    added in
                (
                  pos 0,
                  _,
                  added,
                  ap (λ a. (pos 0, a))
                        (relisted _ (with_nums qs) _ _ (λ u. refl) refl refl live
                          (map_of-insert c m.calls new) spares refl refl refl _ refl)
                      ∙ sym (
                          found_both adding none
                            (find_entry-none (number_test c.syscall_num) m.calls new)),
                )
          ]

      remove_from_entry : Follows count id (remove_mapping temp w name) s
      remove_from_entry =
          let (p, node, loaded) =
            Loads-get_elem? s.heap s.syscall_list sound.calls k c sound.registry.live at in
          let goal = target s sound temp name full fits w k i c v m.calls e at (record {
            free = sound.tallied.free;
            found = found;
            at = here;
            bytes = m.bytes;
            live = m.live;
          }) in
          elim (Option-cases (number_position c.syscall_num m.calls)) [
            | inl missing ↦
                unchanged count id (remove_mapping temp w name) s enoent
                  (remove-missing s temp name w sound.calls k c i v m.calls goal p node loaded
                    missing)
                  (found_both removing none
                    (find_entry-none (number_test c.syscall_num) m.calls missing))
            | inr (j, hit) ↦
                let (d, at_d, same) = find_idx-eq_some _ m.calls j hit in
                let removed =
                  remove-some s temp name w sound.calls k c i v m.calls goal p node loaded j hit in
                let (_, spares) =
                  call_end count (remove_mapping temp w name) s _ (pos 0) sound (full, fits)
                    removed in
                (
                  pos 0,
                  _,
                  removed,
                  ap (λ a. (pos 0, a))
                        (relisted _
                          (λ u. record u { syscall_num_list = remove_node u.syscall_num_list j }) _
                          _ (λ u. refl) refl refl
                          (Loads-remove_node s.heap v.syscall_num_list m.calls j m.live)
                          (map_of-erase_idx m.calls j d c.syscall_num
                            ((==ℤ_iff d.syscall_num c.syscall_num).0 same) m.sorted at_d)
                          spares refl refl refl _ refl)
                      ∙ sym (
                          found_both removing (some (entry_of d))
                            (find_entry-some (number_test c.syscall_num) m.calls j d hit at_d)),
                )
          ]

  pub add_mapping-Follows :
      (allocated : Bool) → Follows count id (add_mapping temp allocated w name) s
  unfolding add_syscall_to_vector
  add_mapping-Follows false = unchanged count id (add_mapping temp false w name) s enomem refl refl
  add_mapping-Follows true = elim (Option-cases (name_position (c_str name) sound.calls)) [
    | inl e ↦
        unchanged count id (add_mapping temp true w name) s enoent
          (no_name_add s sound temp name full fits w e) (unnamed adding e)
    | inr (k, e) ↦
        let (c, at, _) = name_position-eq_some (c_str name) sound.calls k e in
        elim (Option-cases (position w s.vector_list)) [
          | inl gone ↦
              unchanged count id (add_mapping temp true w name) s enoent
                (no_vector_add s sound temp name full fits w k c at e gone)
                (found_name k c e at adding none (view-none s w gone))
          | inr (i, found) ↦
              let (v, here, m, _) = entry s sound w i found in
              add_to_entry k c e at i v m found here
        ]
  ]

  pub remove_mapping-Follows : Follows count id (remove_mapping temp w name) s
  remove_mapping-Follows = elim (Option-cases (name_position (c_str name) sound.calls)) [
    | inl e ↦
        unchanged count id (remove_mapping temp w name) s enoent
          (no_name_remove s sound temp name full fits w e) (unnamed removing e)
    | inr (k, e) ↦
        let (c, at, _) = name_position-eq_some (c_str name) sound.calls k e in
        elim (Option-cases (position w s.vector_list)) [
          | inl gone ↦
              unchanged count id (remove_mapping temp w name) s enoent
                (no_vector_remove s sound temp name full fits w k c at e gone)
                (found_name k c e at removing none (view-none s w gone))
          | inr (i, found) ↦
              let (v, here, m, _) = entry s sound w i found in
              remove_from_entry k c e at i v m found here
        ]
  ]
