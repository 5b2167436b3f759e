-- ===== src/Mapping/Modules.antt =====
-- References of modules that syscall_module/syscall_tbl.c does not give back.
use perprocess_syscall_tbl.Prelude.{
  ℕ, zero, suc, none, ltb_ℤ, false, true, modify, get_elem?-modify, ◌≡◌, ◌≢◌, refl, ap, ◌∙◌, ℤ, pos,
  some, List, [], ◌∷◌, ◌==◌, arith, get_elem?, erase_idx, if◌then◌else◌,
}
use perprocess_syscall_tbl.Ring.Order.{Sorted}
use perprocess_syscall_tbl.Kernel.{
  Ptr, Syscall, SyscallVector, State, ModuleCall, module_get, module_put, done,
}
use perprocess_syscall_tbl.Dispatch.{cmp_syscall_by_syscall_num}
use perprocess_syscall_tbl.Dispatch.Lookup.{number_position}
use perprocess_syscall_tbl.Mapping.{add_syscall_to_vector, remove_syscall_from_vector}
use perprocess_syscall_tbl.Ring.Search.{Loads-get_elem?}
use perprocess_syscall_tbl.Ring.Insert.{add_node-insert}
use perprocess_syscall_tbl.Vectors.{remove_syscall_vector}
use perprocess_syscall_tbl.Vectors.Operations.{removed, remove_syscall_vector-some}
use perprocess_syscall_tbl.Assignment.Counts.{position-modify}
use perprocess_syscall_tbl.Mapping.Operations.{with_nums, Target, add-new}
use perprocess_syscall_tbl.Mapping.Effects.{remove_syscall_from_vector-get_syscall_fn}

-- How often module_put was called for a module.
unfoldable pub given_back : Ptr → List ModuleCall → ℕ
given_back m [] = 0
given_back m (module_get x ∷ log) = given_back m log
given_back m (module_put x ∷ log) = let rest = given_back m log in if x == m then suc rest else rest

given_back-put :
    (m x : Ptr) (log : List ModuleCall)
    → given_back m (module_put x ∷ log)
      ≡ (if x == m then suc (given_back m log) else given_back m log)
unfolding given_back
given_back-put m x log = refl

-- Where the vector holds another system call with the number of the named one, from another module,
-- remove_syscall_from_vector returns 0, takes that other record out, gives a reference of the named
-- one's module back, and none of the module whose record is gone.
pub remove_syscall_from_vector_wrong_module :
    (s : State) (temp name : List ℕ) (w : ℤ) (cs : List Syscall) (k : ℕ) (c : Syscall) (i : ℕ)
    (v : SyscallVector) (ds : List Syscall) (j : ℕ) (d : Syscall)
    → Target s temp name w cs k c i v ds
    → Sorted cmp_syscall_by_syscall_num ds
    → number_position c.syscall_num ds ≡ some j
    → get_elem? ds j ≡ some d
    → c.module_ptr ≢ d.module_ptr
    → (t : State) × (u : SyscallVector) × (remove_syscall_from_vector temp w name s
        ≡ done (pos 0) t)
      × Target t temp name w cs k c i u (erase_idx ds j)
      × (given_back d.module_ptr t.module_log ≡ given_back d.module_ptr s.module_log)
      × (given_back c.module_ptr t.module_log ≡ suc (given_back c.module_ptr s.module_log))
remove_syscall_from_vector_wrong_module s temp name w cs k c i v ds j d target sorted found at
      other =
    let (t, u, e, _, target', _, log, _) =
      remove_syscall_from_vector-get_syscall_fn s temp name w cs k c i v ds j target sorted found in
    (
      t,
      u,
      e,
      target',
      ap (given_back d.module_ptr) log
          ∙ given_back-put d.module_ptr c.module_ptr s.module_log
          ∙ ground arith,
      ap (given_back c.module_ptr) log
          ∙ given_back-put c.module_ptr c.module_ptr s.module_log
          ∙ ground arith,
    )

erase_idx-modify :
    (vs : List SyscallVector) (i : ℕ) (f : SyscallVector → SyscallVector)
    → erase_idx (modify vs i f) i ≡ erase_idx vs i
unfolding erase_idx modify
erase_idx-modify [] i f = refl
erase_idx-modify (v ∷ vs) zero f = refl
erase_idx-modify (v ∷ vs) (suc i) f = ap (λ l. v ∷ l) (erase_idx-modify vs i f)

-- How often try_module_get was called for a module.
unfoldable pub taken : Ptr → List ModuleCall → ℕ
taken m [] = 0
taken m (module_put x ∷ log) = taken m log
taken m (module_get x ∷ log) = let rest = taken m log in if x == m then suc rest else rest

-- Of a vector that no process uses, add_syscall_to_vector of a registered name whose number is new returns
-- 0 and takes a reference of the call's module, and remove_syscall_vector after it returns 0 and takes
-- the vector out of the ring, but gives no reference of that module back, where the module is not the
-- table's own.
pub remove_syscall_vector-add :
    (s : State) (temp name : List ℕ) (w : ℤ) (cs : List Syscall) (k : ℕ) (c : Syscall) (i : ℕ)
    (v : SyscallVector) (ds : List Syscall)
    → Target s temp name w cs k c i v ds
    → number_position c.syscall_num ds ≡ none
    → ltb_ℤ (pos 0) v.refcnt ≡ false
    → s.syscall_module ≢ c.module_ptr
    → (t r : State) × (add_syscall_to_vector temp true w name s ≡ done (pos 0) t)
      × (remove_syscall_vector w t ≡ done (pos 0) r)
      × (r.vector_list ≡ erase_idx s.vector_list i)
      × (taken c.module_ptr r.module_log ≡ suc (taken c.module_ptr s.module_log))
      × (given_back c.module_ptr r.module_log ≡ given_back c.module_ptr s.module_log)
unfolding taken given_back
remove_syscall_vector-add s temp name w cs k c i v ds target new idle other =
    let (p, node, loaded) =
      Loads-get_elem? s.heap s.syscall_list cs k c target.registry.live target.record_at in
    let (qs, linked, live) =
      add_node-insert s.heap cmp_syscall_by_syscall_num p c v.syscall_num_list ds loaded
        target.entry.live in
    let t : State = record s {
      lock = false;
      vector_list = modify s.vector_list i (with_nums qs);
      module_log = module_get c.module_ptr ∷ s.module_log;
    } in
    let found = position-modify (with_nums qs) (λ u. refl) w s.vector_list i ∙ target.entry.found in
    let at = get_elem?-modify s.vector_list i (with_nums qs) v target.entry.at in
    (
      t,
      removed i t,
      add-new s temp name w cs k c i v ds target p node loaded qs new linked,
      remove_syscall_vector-some w t refl i (with_nums qs v) found at ∙ rw idle refl,
      erase_idx-modify s.vector_list i (with_nums qs),
      ground arith,
      ground (arith, other),
    )
