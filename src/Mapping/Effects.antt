-- ===== src/Mapping/Effects.antt =====
-- What get_syscall_fn returns after add_syscall_to_vector and remove_syscall_from_vector.
use perprocess_syscall_tbl.Prelude.{
  ℕ, ◌≡◌, refl, ap, ◌∙◌, ℤ, pos, ◌==ℤ◌, Bool, true, false, none, some, List, ◌∷◌, get_elem?-modify,
  modify, erase_idx, if◌then◌else◌,
}
use perprocess_syscall_tbl.Ring.{remove_node}
use perprocess_syscall_tbl.Ring.Order.{Sorted}
use perprocess_syscall_tbl.Ring.Insert.{insert, insert-Sorted, erase_idx-Sorted, add_node-insert}
use perprocess_syscall_tbl.Ring.Search.{Loads-get_elem?, Loads-remove_node}
use perprocess_syscall_tbl.Kernel.{Syscall, SyscallVector, State, module_get, module_put, done}
use perprocess_syscall_tbl.Assignment.Counts.{position-modify}
use perprocess_syscall_tbl.Blocking.{is_syscall_blocked}
use perprocess_syscall_tbl.Dispatch.{cmp_syscall_by_syscall_num, get_syscall_fn, enosys_fn}
use perprocess_syscall_tbl.Dispatch.Lookup.{number_position, served, get_syscall_fn-served}
use perprocess_syscall_tbl.Dispatch.Order.{
  cmp_syscall_by_syscall_num-IsComparator, served-insert, served-erase_idx, number_position-insert,
  number_position-none,
}
use perprocess_syscall_tbl.Mapping.{add_syscall_to_vector, remove_syscall_from_vector}
use perprocess_syscall_tbl.Mapping.Operations.{with_nums, Target, add-new, remove-some}

-- Of a vector's records in the order of their numbers, add_syscall_to_vector of a registered name
-- whose number is new returns 0; then get_syscall_fn of this vector returns the registered function
-- for that number unless it is blocked, and for every other number what the list before gave; the
-- list stays in order, the registry stays, and the system call's module gets one reference.
pub add_syscall_to_vector-get_syscall_fn :
    (s : State) (temp name : List ℕ) (w : ℤ) (cs : List Syscall) (k : ℕ) (c : Syscall) (i : ℕ)
    (v : SyscallVector) (ds : List Syscall)
    → Target s temp name w cs k c i v ds
    → Sorted cmp_syscall_by_syscall_num ds
    → number_position c.syscall_num ds ≡ none
    → (t : State) × (u : SyscallVector) × (add_syscall_to_vector temp true w name s
        ≡ done (pos 0) t)
      × Target t temp name w cs k c i u (insert cmp_syscall_by_syscall_num c ds)
      × Sorted cmp_syscall_by_syscall_num (insert cmp_syscall_by_syscall_num c ds)
      × (t.module_log ≡ module_get c.module_ptr ∷ s.module_log)
      × (u.blocked ≡ v.blocked)
      × ((n : ℤ) (b : Bool)
          → is_syscall_blocked n v.blocked ≡ some b
          → get_syscall_fn w n t
            ≡ done (if b then enosys_fn else if c.syscall_num ==ℤ n then c.fptr else served n ds) t)
add_syscall_to_vector-get_syscall_fn s temp name w cs k c i v ds target sorted new =
    let (p, node, loaded) =
      Loads-get_elem? s.heap s.syscall_list cs k c target.registry.live target.record_at in
    let (qs, linked, live) =
      add_node-insert s.heap cmp_syscall_by_syscall_num p c v.syscall_num_list ds loaded
        target.entry.live in
    let t : State = record s {
      lock = false;
      vector_list = modify s.vector_list i (with_nums qs);
      module_log = module_get c.module_ptr ∷ s.module_log;
    } in
    let found = position-modify (with_nums qs) (λ u. refl) w s.vector_list i ∙ target.entry.found in
    let at = get_elem?-modify s.vector_list i (with_nums qs) v target.entry.at in
    (
      t,
      with_nums qs v,
      add-new s temp name w cs k c i v ds target p node loaded qs new linked,
      record {
        temp_full = target.temp_full;
        fits = target.fits;
        registry = record {
          free = refl;
          live = target.registry.live;
          short = target.registry.short;
          sorted = target.registry.sorted;
        };
        entry = record {
          free = refl;
          found = found;
          at = at;
          bytes = target.entry.bytes;
          live = live;
        };
        named = target.named;
        record_at = target.record_at;
      },
      insert-Sorted cmp_syscall_by_syscall_num cmp_syscall_by_syscall_num-IsComparator c ds
          (number_position-none c ds new) sorted,
      refl,
      refl,
      λ n b bit.
          get_syscall_fn-served t refl w n i (with_nums qs v) b _ found at bit live
          ∙ ap (λ r. done (if b then enosys_fn else r) t) (served-insert c ds n new),
    )

-- Of a vector's records in the order of their numbers, remove_syscall_from_vector of a registered
-- name whose number the vector has returns 0; then get_syscall_fn of this vector returns 0 for that
-- number unless it is blocked, and for every other number what the list before gave; the list stays
-- in order, the registry stays, and the named system call's module gives one reference back.
pub remove_syscall_from_vector-get_syscall_fn :
    (s : State) (temp name : List ℕ) (w : ℤ) (cs : List Syscall) (k : ℕ) (c : Syscall) (i : ℕ)
    (v : SyscallVector) (ds : List Syscall) (j : ℕ)
    → Target s temp name w cs k c i v ds
    → Sorted cmp_syscall_by_syscall_num ds
    → number_position c.syscall_num ds ≡ some j
    → (t : State) × (u : SyscallVector) × (remove_syscall_from_vector temp w name s
        ≡ done (pos 0) t)
      × (u.blocked ≡ v.blocked)
      × Target t temp name w cs k c i u (erase_idx ds j)
      × Sorted cmp_syscall_by_syscall_num (erase_idx ds j)
      × (t.module_log ≡ module_put c.module_ptr ∷ s.module_log)
      × ((n : ℤ) (b : Bool)
          → is_syscall_blocked n v.blocked ≡ some b
          → get_syscall_fn w n t
            ≡ done (if b then enosys_fn else if c.syscall_num ==ℤ n then 0 else served n ds) t)
remove_syscall_from_vector-get_syscall_fn s temp name w cs k c i v ds j target sorted there =
    let (p, node, loaded) =
      Loads-get_elem? s.heap s.syscall_list cs k c target.registry.live target.record_at in
    let unlink : SyscallVector → SyscallVector =
      λ u. record u { syscall_num_list = remove_node u.syscall_num_list j } in
    let t : State = record s {
      lock = false;
      vector_list = modify s.vector_list i unlink;
      module_log = module_put c.module_ptr ∷ s.module_log;
    } in
    let found = position-modify unlink (λ u. refl) w s.vector_list i ∙ target.entry.found in
    let at = get_elem?-modify s.vector_list i unlink v target.entry.at in
    let live = Loads-remove_node s.heap v.syscall_num_list ds j target.entry.live in
    (
      t,
      unlink v,
      remove-some s temp name w cs k c i v ds target p node loaded j there,
      refl,
      record {
        temp_full = target.temp_full;
        fits = target.fits;
        registry = record {
          free = refl;
          live = target.registry.live;
          short = target.registry.short;
          sorted = target.registry.sorted;
        };
        entry = record {
          free = refl;
          found = found;
          at = at;
          bytes = target.entry.bytes;
          live = live;
        };
        named = target.named;
        record_at = target.record_at;
      },
      erase_idx-Sorted cmp_syscall_by_syscall_num ds j sorted,
      refl,
      λ n b bit.
          get_syscall_fn-served t refl w n i (unlink v) b _ found at bit live
          ∙ ap (λ r. done (if b then enosys_fn else r) t)
              (served-erase_idx ds j c.syscall_num n sorted there),
    )

-- remove_syscall_from_vector undoes add_syscall_to_vector: both return 0, get_syscall_fn of the vector
-- then returns for every number what the list before gave, and the module's reference is given back.
pub remove_syscall_from_vector-add :
    (s : State) (temp name : List ℕ) (w : ℤ) (cs : List Syscall) (k : ℕ) (c : Syscall) (i : ℕ)
    (v : SyscallVector) (ds : List Syscall)
    → Target s temp name w cs k c i v ds
    → Sorted cmp_syscall_by_syscall_num ds
    → number_position c.syscall_num ds ≡ none
    → (t : State) × (u : State) × (add_syscall_to_vector temp true w name s ≡ done (pos 0) t)
      × (remove_syscall_from_vector temp w name t ≡ done (pos 0) u)
      × (u.module_log ≡ module_put c.module_ptr ∷ module_get c.module_ptr ∷ s.module_log)
      × ((n : ℤ) (b : Bool)
          → is_syscall_blocked n v.blocked ≡ some b
          → get_syscall_fn w n u ≡ done (if b then enosys_fn else served n ds) u)
remove_syscall_from_vector-add s temp name w cs k c i v ds target sorted new =
    let (t, x, added, target', sorted', log, same, _) =
      add_syscall_to_vector-get_syscall_fn s temp name w cs k c i v ds target sorted new in
    let (j, found, _, rest) = number_position-insert c ds new in
    let (u, y, removed, kept, target'', _, log', _) =
      remove_syscall_from_vector-get_syscall_fn t temp name w cs k c i x _ j target' sorted'
        found in
    (
      t,
      u,
      added,
      removed,
      log' ∙ ap (λ l. module_put c.module_ptr ∷ l) log,
      λ n b bit.
          get_syscall_fn-served u target''.entry.free w n i y b _ target''.entry.found
            target''.entry.at (ap (is_syscall_blocked n) (kept ∙ same) ∙ bit) target''.entry.live
          ∙ ap (λ l. done (if b then enosys_fn else served n l) u) rest,
    )
