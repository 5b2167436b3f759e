-- ===== src/Registry/Operations.antt =====
-- register_syscall and unregister_syscall as insertion into and removal from the records.
use perprocess_syscall_tbl.Prelude.{
  ℕ, suc, ◌≡◌, refl, ap, ◌∙◌, subst, ℤ, pos, ◌==ℤ◌, leb_ℤ, true, false, Option, none, some, List,
  [], ◌∷◌, All, arith, length, ltb, find_idx, get_elem?, inl, inr, Bool-cases,
}
use perprocess_syscall_tbl.Strings.{c_str, strncpy}
use perprocess_syscall_tbl.Strings.Compare.{compare_names_refl}
use perprocess_syscall_tbl.Strings.Copy.{c_str-strncpy}
use perprocess_syscall_tbl.Ring.{add_node}
use perprocess_syscall_tbl.Ring.Order.{Sorted, Loads}
use perprocess_syscall_tbl.Ring.Insert.{insert, insert-Sorted, All-insert, add_node-insert}
use perprocess_syscall_tbl.Ring.Search.{Loads-get_elem?}
use perprocess_syscall_tbl.Kernel.{
  Ptr, Syscall, State, module_get, done, and_then, lift, write, einval,
}
use perprocess_syscall_tbl.Registry.{
  cmp_syscall_by_name, get_syscall, link_syscall, register_syscall,
}
use perprocess_syscall_tbl.Registry.Search.{
  IsShort, by_name, cmp_syscall_by_name-by_name, by_name-IsComparator, name_position,
  get_syscall-position,
}

-- The registered records: live behind the nodes, in strictly ascending order of their names, which end
-- within their buffers.
pub record IsRegistry (s : State) (cs : List Syscall) : Type 0 where
  pub free : s.lock ≡ false
  pub live : Loads s.heap s.syscall_list cs
  pub short : All (λ c. IsShort c.name) cs
  pub sorted : Sorted by_name cs

-- A write to an unused address touches no node.
pub Loads-write :
    (h : Ptr → Option Syscall) (p : Ptr) (c : Option Syscall) (ps : List Ptr) (cs : List Syscall)
    → h p ≡ none
    → Loads h ps cs
    → Loads (write h p c) ps cs
Loads-write h p c [] [] e live = tt
Loads-write h p c [] (d ∷ cs) e live = live
Loads-write h p c (q ∷ ps) [] e live = live
Loads-write h p c (q ∷ ps) (d ∷ cs) e live =
    (ground (arith, live.0), Loads-write h p c ps cs e live.1)

insert-by_name :
    (c : Syscall) (cs : List Syscall)
    → IsShort c.name
    → All (λ d. IsShort d.name) cs
    → insert cmp_syscall_by_name c cs ≡ insert by_name c cs
unfolding insert
insert-by_name c [] h short = refl
insert-by_name c (d ∷ cs) h short =
    rw (cmp_syscall_by_name-by_name c d h short.0, insert-by_name c cs h short.1)

link_syscall-some :
    (p : Ptr) (s : State) (qs : List Ptr)
    → add_node s.heap cmp_syscall_by_name p s.syscall_list ≡ some qs
    → link_syscall p s ≡ done tt (record s { syscall_list = qs })
unfolding link_syscall
link_syscall-some p s qs e =
    ap (λ r. and_then (lift r s) λ nodes t. done tt (record t { syscall_list = nodes })) e

-- The record that register_syscall fills in.
abbrev pub registered : List ℕ → List ℕ → ℕ → ℤ → Ptr → Syscall
registered bytes name fptr syscall_num module_ptr = record {
  name = strncpy bytes name 63;
  fptr = fptr;
  syscall_num = syscall_num;
  module_ptr = module_ptr;
}

-- None of the names is equal to one that the search does not find.
name_position-none :
    (name : List ℕ) (c : Syscall) (cs : List Syscall)
    → c_str c.name ≡ name
    → name_position name cs ≡ none
    → All (λ d. (by_name d c ==ℤ pos 0) ≡ false) cs
unfolding find_idx by_name
name_position-none name c [] e h = tt
name_position-none name c (d ∷ cs) e h =
    (rw e (ground arith), name_position-none name c cs e (ground arith))

-- The search finds an inserted record whose name is new.
name_position-insert :
    (name : List ℕ) (c : Syscall) (cs : List Syscall)
    → c_str c.name ≡ name
    → name_position name cs ≡ none
    → (k : ℕ) × (name_position name (insert by_name c cs) ≡ some k)
      × (get_elem? (insert by_name c cs) k ≡ some c)
unfolding find_idx insert
name_position-insert name c [] e h = (0, rw (e, compare_names_refl name) refl, refl)
name_position-insert name c (d ∷ cs) e h = elim (Bool-cases (leb_ℤ (pos 1) (by_name c d))) [
  | inl first ↦ (0, rw (first, e, compare_names_refl name) refl, rw first refl)
  | inr later ↦
      let (k, found, at) = name_position-insert name c cs e (ground arith) in
      (suc k, rw (later, found) (ground arith), rw later at)
]

write_self : (h : Ptr → Option Syscall) (p : Ptr) (c : Option Syscall) → write h p c p ≡ c
write_self h p c = ground arith

module _ (temp bytes name : List ℕ) (p : Ptr) (fptr : ℕ) (n : ℤ) (m : Ptr) (s : State)
    (cs : List Syscall) (temp_full : length temp ≡ 64) (full : length bytes ≡ 64)
    (fits : IsShort name) (unused : s.heap p ≡ none) (reg : IsRegistry s cs) where
  abbrev c : Syscall
  c = registered bytes name fptr n m

  c-IsShort : IsShort c.name
  c-IsShort = rw (c_str-strncpy bytes name 63 fits (omega arith)) fits

  -- The state in which register_syscall looks for the name.
  abbrev locked : State
  locked = record s { heap = write s.heap p (some c); lock = true }

  looked : get_syscall temp name locked ≡ done (name_position (c_str name) cs) locked
  looked =
      get_syscall-position temp name locked cs temp_full fits reg.short
        (Loads-write s.heap p (some c) s.syscall_list cs unused reg.live)

  unlong : ltb 63 (length (c_str name)) ≡ false
  unlong = ground arith

  pub register_syscall-dup :
      (i : ℕ)
      → name_position (c_str name) cs ≡ some i
      → register_syscall temp (some (record { addr = p; bytes = bytes })) name fptr n m s
        ≡ done einval (record s { heap = write (write s.heap p (some c)) p none; lock = false })
  unfolding register_syscall
  register_syscall-dup i e = ground (arith, looked, reg.free)

  -- The state after the node was linked.
  abbrev pub inserted : List Ptr → State
  inserted qs = record s {
    heap = write s.heap p (some c);
    syscall_list = qs;
    module_log = module_get s.syscall_module ∷ s.module_log;
    lock = false;
  }

  register_syscall-link :
      (qs : List Ptr)
      → name_position (c_str name) cs ≡ none
      → add_node locked.heap cmp_syscall_by_name p s.syscall_list ≡ some qs
      → register_syscall temp (some (record { addr = p; bytes = bytes })) name fptr n m s
        ≡ done (pos 0) (inserted qs)
  unfolding register_syscall
  register_syscall-link qs e linked =
      ground (arith, looked, reg.free, link_syscall-some p locked qs linked)

  pub register_syscall-new :
      name_position (c_str name) cs ≡ none
      → (qs : List Ptr) × (register_syscall temp
            (some (record { addr = p; bytes = bytes }))
            name
            fptr
            n
            m
            s
          ≡ done (pos 0) (inserted qs))
        × IsRegistry (inserted qs) (insert by_name c cs)
  register_syscall-new new =
      let same = c_str-strncpy bytes name 63 fits (omega arith) in
      let (qs, linked, live) =
        add_node-insert (write s.heap p (some c)) cmp_syscall_by_name p c s.syscall_list cs
          (write_self s.heap p (some c))
          (Loads-write s.heap p (some c) s.syscall_list cs unused reg.live) in
      (
        qs,
        register_syscall-link qs new linked,
        record {
          free = refl;
          live =
              subst (Loads (write s.heap p (some c)) qs) (insert-by_name c cs c-IsShort reg.short)
                live;
          short = All-insert by_name (λ d. IsShort d.name) c cs c-IsShort reg.short;
          sorted =
              insert-Sorted by_name by_name-IsComparator c cs
                (name_position-none (c_str name) c cs same new) reg.sorted;
        },
      )

-- register_syscall of a name that no record has, at an unused address: it returns 0, the new record
-- stands at its place in the order of the names, get_syscall finds it there, the module gets one
-- reference, and vectors and tasks stay. All for names and buffers that hold the NUL.
pub register_syscall-insert :
    (temp bytes name : List ℕ) (p : Ptr) (fptr : ℕ) (n : ℤ) (m : Ptr) (s : State)
    (cs : List Syscall)
    → length temp ≡ 64
    → length bytes ≡ 64
    → IsShort name
    → s.heap p ≡ none
    → IsRegistry s cs
    → name_position (c_str name) cs ≡ none
    → (t : State) × (register_syscall temp
          (some (record { addr = p; bytes = bytes }))
          name
          fptr
          n
          m
          s
        ≡ done (pos 0) t)
      × IsRegistry t (insert by_name (registered bytes name fptr n m) cs)
      × (t.heap p ≡ some (registered bytes name fptr n m))
      × (t.module_log ≡ module_get s.syscall_module ∷ s.module_log)
      × (t.vector_list ≡ s.vector_list)
      × (t.tasks ≡ s.tasks)
      × (k : ℕ) × (q : Ptr) × (get_syscall temp name t ≡ done (some k) t)
      × (get_elem? t.syscall_list k ≡ some q)
      × (t.heap q ≡ some (registered bytes name fptr n m))
register_syscall-insert temp bytes name p fptr n m s cs tf bf fits unused reg new =
    let c : Syscall = registered bytes name fptr n m in
    let same = c_str-strncpy bytes name 63 fits (omega arith) in
    let (qs, e, reg') =
      register_syscall-new temp bytes name p fptr n m s cs tf bf fits unused reg new in
    let t : State = inserted temp bytes name p fptr n m s cs tf bf fits unused reg qs in
    let (k, found, at) = name_position-insert (c_str name) c cs same new in
    let (q, node, carries) = Loads-get_elem? t.heap qs (insert by_name c cs) k c reg'.live at in
    (
      t,
      e,
      reg',
      write_self s.heap p (some c),
      refl,
      refl,
      refl,
      k,
      q,
      get_syscall-position temp name t (insert by_name c cs) tf fits reg'.short reg'.live
          ∙ ap (λ r. done r t) found,
      node,
      carries,
    )
