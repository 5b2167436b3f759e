-- ===== src/Mapping/Operations.antt =====
-- add_syscall_to_vector and remove_syscall_from_vector, seen through get_syscall_fn.
use perprocess_syscall_tbl.Prelude.{
  ℕ, ◌≡◌, ap, ◌∙◌, ℤ, pos, negsuc, true, false, none, some, List, ◌∷◌, arith, length, get_elem?,
  modify,
}
use perprocess_syscall_tbl.Strings.{c_str}
use perprocess_syscall_tbl.Ring.{add_node, remove_node}
use perprocess_syscall_tbl.Kernel.{
  Ptr, Syscall, SyscallVector, State, module_get, module_put, done, and_then, lift, enoent,
}
use perprocess_syscall_tbl.Registry.{get_syscall}
use perprocess_syscall_tbl.Registry.Search.{IsShort, name_position, get_syscall-position}
use perprocess_syscall_tbl.Registry.Operations.{IsRegistry}
use perprocess_syscall_tbl.Vectors.{get_syscall_vector}
use perprocess_syscall_tbl.Vectors.Search.{get_syscall_vector-position}
use perprocess_syscall_tbl.Dispatch.{cmp_syscall_by_syscall_num, get_syscall_of_syscall_vector}
use perprocess_syscall_tbl.Dispatch.Lookup.{number_position, get_syscall_of_syscall_vector-position}
use perprocess_syscall_tbl.Dispatch.Blocked.{IsEntry}
use perprocess_syscall_tbl.Mapping.{link_num, add_syscall_to_vector, remove_syscall_from_vector}

-- A change of a vector's list.
abbrev pub with_nums : List Ptr → SyscallVector → SyscallVector
with_nums nums u = record u { syscall_num_list = nums }

link_num-some :
    (i : ℕ) (v : SyscallVector) (p : Ptr) (s : State) (qs : List Ptr)
    → add_node s.heap cmp_syscall_by_syscall_num p v.syscall_num_list ≡ some qs
    → link_num i v p s ≡ done tt (record s { vector_list = modify s.vector_list i (with_nums qs) })
unfolding link_num
link_num-some i v p s qs e =
    ap
      (λ r.
        and_then (lift r s)
          λ nums t. done tt (record t { vector_list = modify t.vector_list i (with_nums nums) }))
      e

-- A registered name and a vector, and what the two searches of both functions find.
pub record Target (s : State) (temp name : List ℕ) (w : ℤ) (cs : List Syscall) (k : ℕ) (c : Syscall)
    (i : ℕ) (v : SyscallVector) (ds : List Syscall) : Type 0 where
  pub temp_full : length temp ≡ 64
  pub fits : IsShort name
  pub registry : IsRegistry s cs
  pub entry : IsEntry s w i v ds
  pub named : name_position (c_str name) cs ≡ some k
  pub record_at : get_elem? cs k ≡ some c

module _ (s : State) (temp name : List ℕ) (w : ℤ) (cs : List Syscall) (k : ℕ) (c : Syscall) (i : ℕ)
    (v : SyscallVector) (ds : List Syscall) (target : Target s temp name w cs k c i v ds) where
  abbrev locked : State
  locked = record s { lock = true }

  found_name : get_syscall temp name locked ≡ done (some k) locked
  found_name =
      get_syscall-position temp name locked cs target.temp_full target.fits target.registry.short
        target.registry.live
      ∙ ap (λ r. done r locked) target.named

  found_vector : get_syscall_vector w locked ≡ done (some i) locked
  found_vector = get_syscall_vector-position w locked ∙ ap (λ r. done r locked) target.entry.found

  found_number :
      get_syscall_of_syscall_vector v.syscall_num_list c.syscall_num locked
      ≡ done (number_position c.syscall_num ds) locked
  found_number =
      get_syscall_of_syscall_vector-position v.syscall_num_list c.syscall_num locked ds
        target.entry.live

  module _ (p : Ptr) (node : get_elem? s.syscall_list k ≡ some p) (loaded : s.heap p ≡ some c) where
    -- The number is new to the vector.
    pub add-new :
        (qs : List Ptr)
        → number_position c.syscall_num ds ≡ none
        → add_node s.heap cmp_syscall_by_syscall_num p v.syscall_num_list ≡ some qs
        → add_syscall_to_vector temp true w name s
          ≡ done (pos 0) (record s {
            lock = false;
            vector_list = modify s.vector_list i (with_nums qs);
            module_log = module_get c.module_ptr ∷ s.module_log;
          })
    unfolding add_syscall_to_vector
    add-new qs new linked = ground (
      arith,
      found_name,
      found_vector,
      found_number,
      target.entry.free,
      target.entry.at,
      link_num-some i v p (record locked { module_log = module_get c.module_ptr ∷ s.module_log }) qs
          linked,
    )

    pub add-dup :
        (j : ℕ)
        → number_position c.syscall_num ds ≡ some j
        → add_syscall_to_vector temp true w name s ≡ done (negsuc 0) s
    unfolding add_syscall_to_vector
    add-dup j dup =
        ground (arith, found_name, found_vector, found_number, target.entry.free, target.entry.at)

    pub remove-some :
        (j : ℕ)
        → number_position c.syscall_num ds ≡ some j
        → remove_syscall_from_vector temp w name s
          ≡ done (pos 0) (record s {
            lock = false;
            vector_list =
                modify s.vector_list i
                  (λ u. record u { syscall_num_list = remove_node u.syscall_num_list j });
            module_log = module_put c.module_ptr ∷ s.module_log;
          })
    unfolding remove_syscall_from_vector
    remove-some j there =
        ground (arith, found_name, found_vector, found_number, target.entry.free, target.entry.at)

    pub remove-missing :
        number_position c.syscall_num ds ≡ none
        → remove_syscall_from_vector temp w name s ≡ done enoent s
    unfolding remove_syscall_from_vector
    remove-missing missing =
        ground (arith, found_name, found_vector, found_number, target.entry.free, target.entry.at)
