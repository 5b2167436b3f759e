-- ===== src/System/Mapped.antt =====
-- The operations on a vector's list keep the invariant of the whole table.
use perprocess_syscall_tbl.Prelude.{
  ℕ, ◌≡◌, refl, ℤ, pos, negsuc, Bool, true, false, none, some, List, All-get_elem?, arith, length,
  get_elem?, Option-cases, inl, inr, modify, erase_idx,
}
use perprocess_syscall_tbl.Strings.{c_str}
use perprocess_syscall_tbl.Ring.{remove_node}
use perprocess_syscall_tbl.Ring.Insert.{insert, insert-Sorted, erase_idx-Sorted, add_node-insert}
use perprocess_syscall_tbl.Ring.Search.{Loads-get_elem?, Loads-remove_node}
use perprocess_syscall_tbl.Kernel.{Syscall, SyscallVector, State, done, enoent, enomem}
use perprocess_syscall_tbl.Registry.{get_syscall}
use perprocess_syscall_tbl.Registry.Search.{IsShort, name_position, get_syscall-position}
use perprocess_syscall_tbl.Registry.Unregister.{name_position-eq_some}
use perprocess_syscall_tbl.Vectors.Search.{position, position-eq_some, get_syscall_vector-position}
use perprocess_syscall_tbl.Mapping.{add_syscall_to_vector, remove_syscall_from_vector}
use perprocess_syscall_tbl.Mapping.Operations.{
  with_nums, Target, add-new, add-dup, remove-some, remove-missing,
}
use perprocess_syscall_tbl.Dispatch.{cmp_syscall_by_syscall_num}
use perprocess_syscall_tbl.Dispatch.Lookup.{number_position}
use perprocess_syscall_tbl.Dispatch.Order.{
  cmp_syscall_by_syscall_num-IsComparator, number_position-none,
}
use perprocess_syscall_tbl.Dispatch.Blocked.{IsEntry}
use perprocess_syscall_tbl.System.Invariant.{
  IsMapped, Sound, Ends, just, idle, All-modify, modify-Tallied,
}
use perprocess_syscall_tbl.System.Spares.{modify-Spares}

module _ (s : State) (sound : Sound s) where
  -- A change of one vector that keeps its id and count.
  pub revised :
      (t : State) (f : SyscallVector → SyscallVector) (i : ℕ) (v : SyscallVector)
      → ((u : SyscallVector) → (f u).id ≡ u.id)
      → ((u : SyscallVector) → (f u).refcnt ≡ u.refcnt)
      → get_elem? s.vector_list i ≡ some v
      → t.lock ≡ false
      → t.heap ≡ s.heap
      → t.syscall_list ≡ s.syscall_list
      → t.tasks ≡ s.tasks
      → t.vector_list ≡ modify s.vector_list i f
      → IsMapped s.heap (f v)
      → Sound t
  revised t f i v id_same count_same at free h l tasks vectors new = record {
    tallied = modify-Tallied f id_same count_same s t i free tasks vectors sound.tallied;
    calls = sound.calls;
    registry = record {
      free = free;
      live = rw (h, l) sound.registry.live;
      short = sound.registry.short;
      sorted = sound.registry.sorted;
    };
    vectors =
        rw (h, vectors) (All-modify (IsMapped s.heap) f s.vector_list i v at new sound.vectors);
  }

  -- The vector with an id, and what the invariant says of it.
  pub entry :
      (w : ℤ) (i : ℕ)
      → position w s.vector_list ≡ some i
      → (v : SyscallVector) × (get_elem? s.vector_list i ≡ some v)
        × (m : IsMapped s.heap v) × IsEntry s w i v m.calls
  entry w i found =
      let (v, at, _) = position-eq_some w s.vector_list i found in
      let m = All-get_elem? (IsMapped s.heap) s.vector_list i v sound.vectors at in
      (
        v,
        at,
        m,
        record {
          free = sound.tallied.free;
          found = found;
          at = at;
          bytes = m.bytes;
          live = m.live;
        },
      )

  module _ (temp name : List ℕ) (full : length temp ≡ 64) (fits : IsShort name) (w : ℤ) where
    abbrev pub locked : State
    locked = record s { lock = true }

    found_name : get_syscall temp name locked ≡ done (name_position (c_str name) sound.calls) locked
    found_name =
        get_syscall-position temp name locked sound.calls full fits sound.registry.short
          sound.registry.live

    pub no_name_add :
        name_position (c_str name) sound.calls ≡ none
        → add_syscall_to_vector temp true w name s ≡ done enoent s
    unfolding add_syscall_to_vector
    no_name_add e = ground (arith, found_name, sound.tallied.free)

    pub no_name_remove :
        name_position (c_str name) sound.calls ≡ none
        → remove_syscall_from_vector temp w name s ≡ done enoent s
    unfolding remove_syscall_from_vector
    no_name_remove e = ground (arith, found_name, sound.tallied.free)

    module _ (k : ℕ) (c : Syscall) (at : get_elem? sound.calls k ≡ some c)
        (e : name_position (c_str name) sound.calls ≡ some k) where
      pub no_vector_add :
          position w s.vector_list ≡ none → add_syscall_to_vector temp true w name s ≡ done enoent s
      unfolding add_syscall_to_vector
      no_vector_add gone =
          let (p, node, here) =
            Loads-get_elem? s.heap s.syscall_list sound.calls k c sound.registry.live at in
          ground (arith, found_name, sound.tallied.free, get_syscall_vector-position w locked)

      pub no_vector_remove :
          position w s.vector_list ≡ none → remove_syscall_from_vector temp w name s ≡ done enoent s
      unfolding remove_syscall_from_vector
      no_vector_remove gone =
          let (p, node, here) =
            Loads-get_elem? s.heap s.syscall_list sound.calls k c sound.registry.live at in
          ground (arith, found_name, sound.tallied.free, get_syscall_vector-position w locked)

    pub target :
        (k i : ℕ) (c : Syscall) (v : SyscallVector) (ds : List Syscall)
        → name_position (c_str name) sound.calls ≡ some k
        → get_elem? sound.calls k ≡ some c
        → IsEntry s w i v ds
        → Target s temp name w sound.calls k c i v ds
    target k i c v ds e at there = record {
      temp_full = full;
      fits = fits;
      registry = sound.registry;
      entry = there;
      named = e;
      record_at = at;
    }

    add_to_entry :
        (k i : ℕ) (c : Syscall) (v : SyscallVector) (m : IsMapped s.heap v)
        → name_position (c_str name) sound.calls ≡ some k
        → get_elem? sound.calls k ≡ some c
        → get_elem? s.vector_list i ≡ some v
        → IsEntry s w i v m.calls
        → Ends (just w) s (add_syscall_to_vector temp true w name s)
    add_to_entry k i c v m e at here there =
        let (p, node, loaded) =
          Loads-get_elem? s.heap s.syscall_list sound.calls k c sound.registry.live at in
        let goal = target k i c v m.calls e at there in
        elim (Option-cases (number_position c.syscall_num m.calls)) [
          | inr (j, dup) ↦
              idle (just w) (negsuc 0) s _ sound
                (add-dup s temp name w sound.calls k c i v m.calls goal p node loaded j dup)
          | inl new ↦
              let (qs, linked, live) =
                add_node-insert s.heap cmp_syscall_by_syscall_num p c v.syscall_num_list m.calls
                  loaded m.live in
              (
                pos 0,
                _,
                add-new s temp name w sound.calls k c i v m.calls goal p node loaded qs new linked,
                revised _ (with_nums qs) i v (λ u. refl) (λ u. refl) here refl refl refl refl refl
                    (record {
                      calls = insert cmp_syscall_by_syscall_num c m.calls;
                      live = live;
                      sorted =
                          insert-Sorted cmp_syscall_by_syscall_num
                            cmp_syscall_by_syscall_num-IsComparator c m.calls
                            (number_position-none c m.calls new) m.sorted;
                      bytes = m.bytes;
                      whole = m.whole;
                    }),
                modify-Spares s _ (with_nums qs) (λ u. refl) w i there.found refl refl,
              )
        ]

    pub add_mapping-Ends :
        (allocated : Bool) → Ends (just w) s (add_syscall_to_vector temp allocated w name s)
    unfolding add_syscall_to_vector
    add_mapping-Ends false = idle (just w) enomem s _ sound (refl)
    add_mapping-Ends true = elim (Option-cases (name_position (c_str name) sound.calls)) [
      | inl e ↦ idle (just w) enoent s _ sound (no_name_add e)
      | inr (k, e) ↦
          let (c, at, _) = name_position-eq_some (c_str name) sound.calls k e in
          elim (Option-cases (position w s.vector_list)) [
            | inl gone ↦ idle (just w) enoent s _ sound (no_vector_add k c at e gone)
            | inr (i, found) ↦
                let (v, here, m, there) = entry w i found in add_to_entry k i c v m e at here there
          ]
    ]

    remove_from_entry :
        (k i : ℕ) (c : Syscall) (v : SyscallVector) (m : IsMapped s.heap v)
        → name_position (c_str name) sound.calls ≡ some k
        → get_elem? sound.calls k ≡ some c
        → get_elem? s.vector_list i ≡ some v
        → IsEntry s w i v m.calls
        → Ends (just w) s (remove_syscall_from_vector temp w name s)
    remove_from_entry k i c v m e at here there =
        let (p, node, loaded) =
          Loads-get_elem? s.heap s.syscall_list sound.calls k c sound.registry.live at in
        let goal = target k i c v m.calls e at there in
        elim (Option-cases (number_position c.syscall_num m.calls)) [
          | inl missing ↦
              idle (just w) enoent s _ sound (
                remove-missing s temp name w sound.calls k c i v m.calls goal p node loaded missing)
          | inr (j, found) ↦ (
            pos 0,
            _,
            remove-some s temp name w sound.calls k c i v m.calls goal p node loaded j found,
            revised _ (λ u. record u { syscall_num_list = remove_node u.syscall_num_list j }) i v
                (λ u. refl) (λ u. refl) here refl refl refl refl refl
                (record {
                  calls = erase_idx m.calls j;
                  live = Loads-remove_node s.heap v.syscall_num_list m.calls j m.live;
                  sorted = erase_idx-Sorted cmp_syscall_by_syscall_num m.calls j m.sorted;
                  bytes = m.bytes;
                  whole = m.whole;
                }),
            modify-Spares s _
                (λ u. record u { syscall_num_list = remove_node u.syscall_num_list j }) (λ u. refl)
                w i there.found refl refl,
          )
        ]

    pub remove_mapping-Ends : Ends (just w) s (remove_syscall_from_vector temp w name s)
    remove_mapping-Ends = elim (Option-cases (name_position (c_str name) sound.calls)) [
      | inl e ↦ idle (just w) enoent s _ sound (no_name_remove e)
      | inr (k, e) ↦
          let (c, at, _) = name_position-eq_some (c_str name) sound.calls k e in
          elim (Option-cases (position w s.vector_list)) [
            | inl gone ↦ idle (just w) enoent s _ sound (no_vector_remove k c at e gone)
            | inr (i, found) ↦
                let (v, here, m, there) = entry w i found in
                remove_from_entry k i c v m e at here there
          ]
    ]
