-- ===== src/Tests/Witnesses.antt =====
-- The theorems at the table of the fixture.
use perprocess_syscall_tbl.Prelude.{
  ℕ, ◌+◌, ◌<◌, ℤ, pos, ◌<ℤ◌, Bool, ◌==ℤ◌, true, false, none, some, [], ◌∷◌, ◌≡◌, ◌≢◌, ◌⊎◌, refl,
  All, arith, inl, inr, find_idx, get_elem?, if◌then◌else◌, ltb_ℤ,
}
use perprocess_syscall_tbl.Strings.{c_str}
use perprocess_syscall_tbl.Strings.Compare.{compare_names}
use perprocess_syscall_tbl.Kernel.{
  Ptr, State, SyscallVector, done, deadlock, module_get, enoent, ebusy,
}
use perprocess_syscall_tbl.Ring.Insert.{insert}
use perprocess_syscall_tbl.Registry.{get_syscall, register_syscall}
use perprocess_syscall_tbl.Registry.Search.{by_name}
use perprocess_syscall_tbl.Registry.Operations.{IsRegistry, registered, register_syscall-insert}
use perprocess_syscall_tbl.Vectors.{add_syscall_vector, remove_syscall_vector}
use perprocess_syscall_tbl.Vectors.Ids.{Ascending}
use perprocess_syscall_tbl.Vectors.Search.{position}
use perprocess_syscall_tbl.Vectors.Operations.{
  remove_syscall_vector_cases, add_syscall_vector-remove, removed,
}
use perprocess_syscall_tbl.Assignment.{reassign_syscall_vector, assign_syscall_vector}
use perprocess_syscall_tbl.Assignment.Users.{users}
use perprocess_syscall_tbl.Assignment.Invariant.{Tallied}
use perprocess_syscall_tbl.Assignment.Branches.{process, Switches}
use perprocess_syscall_tbl.Assignment.Reassign.{reassign_syscall_vector-Tallied}
use perprocess_syscall_tbl.Assignment.Assign.{assign_syscall_vector_leak}
use perprocess_syscall_tbl.Blocking.{
  block_syscall_num, unblock_syscall_num, is_syscall_blocked, test_bit,
}
use perprocess_syscall_tbl.Dispatch.{get_syscall_fn, enosys_fn}
use perprocess_syscall_tbl.Dispatch.Lookup.{served, get_syscall_fn-served}
use perprocess_syscall_tbl.Dispatch.Blocked.{IsEntry, block_syscall_num_keeps_lock}
use perprocess_syscall_tbl.Registry.{unregister_syscall}
use perprocess_syscall_tbl.Registry.Search.{name_position}
use perprocess_syscall_tbl.Registry.Unregister.{unregister_syscall_cases}
use perprocess_syscall_tbl.Kernel.{module_put, fault, ModuleCall, Syscall}
use perprocess_syscall_tbl.Mapping.{add_syscall_to_vector, remove_syscall_from_vector}
use perprocess_syscall_tbl.Mapping.Operations.{Target}
use perprocess_syscall_tbl.Mapping.Effects.{
  add_syscall_to_vector-get_syscall_fn, remove_syscall_from_vector-add,
}
use perprocess_syscall_tbl.Dispatch.{cmp_syscall_by_syscall_num}
use perprocess_syscall_tbl.Dispatch.Freed.{unregister_syscall_dangling}
use perprocess_syscall_tbl.Ring.Order.{Sorted}
use perprocess_syscall_tbl.Prelude.{List, erase_idx, List, ◌≤◌}
use perprocess_syscall_tbl.Tests.Fixture.{
  name_open, name_close, second_vector, name_read, filled, sys_open, sys_close, first_vector, table,
}

pub table-Tallied : Tallied table
unfolding users find_idx
table-Tallied = record {
  free = refl;
  ids = omega arith;
  counts = ((omega arith, refl), ((omega arith, refl), tt));
  placed = (inr refl, (inl refl, tt));
  few = omega arith;
}

reassign_syscall_vector-Tallied_example :
    Switches table
      (pos 2)
      (process (pos 1) table.tasks)
      (reassign_syscall_vector (pos 2) (pos 1) table)
reassign_syscall_vector-Tallied_example =
    reassign_syscall_vector-Tallied table (pos 2) (pos 1) table-Tallied

assign_syscall_vector_leak_example :
    (r : State) × (k : ℕ) × (u : SyscallVector) × (assign_syscall_vector (pos 2) (pos 1) table
      ≡ done (pos 0) r)
    × (get_elem? r.vector_list k ≡ some u)
    × (u.id ≡ pos 1)
    × (u.refcnt ≡ pos (users (pos 1) r.tasks + 1))
unfolding find_idx
assign_syscall_vector_leak_example =
    assign_syscall_vector_leak table (pos 2) (pos 1) 0 1 (record { pid = pos 1; vector_id = pos 1 })
      table-Tallied refl refl (λ e. cc e) (λ e. cc e) refl

add_syscall_vector-remove_example :
    (id : ℤ) × (t : State) × (u : State) × (add_syscall_vector true table ≡ done id t)
    × (pos 0 <ℤ id)
    × All (λ v. v.id ≢ id) table.vector_list
    × Ascending (pos 0) t.vector_list
    × (remove_syscall_vector id t ≡ done (pos 0) u)
    × (u.vector_list ≡ table.vector_list)
    × (u.lock ≡ false)
add_syscall_vector-remove_example = add_syscall_vector-remove table refl (omega arith) (omega arith)

remove_syscall_vector_cases_example :
    ((position (pos 2) table.vector_list ≡ none)
      × (remove_syscall_vector (pos 2) table ≡ done enoent table))
    ⊎ ((i : ℕ) × (v : SyscallVector) × (get_elem? table.vector_list i ≡ some v)
        × (v.id ≡ pos 2)
        × (remove_syscall_vector (pos 2) table ≡ (
            if ltb_ℤ (pos 0) v.refcnt then done ebusy table else done (pos 0) (removed i table))))
remove_syscall_vector_cases_example = remove_syscall_vector_cases (pos 2) table refl

pub table-IsRegistry : IsRegistry table (sys_close ∷ sys_open ∷ [])
unfolding c_str by_name compare_names
table-IsRegistry = record {
  free = refl;
  live = (refl, (refl, tt));
  short = (omega arith, (omega arith, tt));
  sorted = ((refl, tt), (tt, tt));
}

register_syscall-insert_example :
    (t : State) × (register_syscall
        (filled 64)
        (some (record { addr = 300; bytes = filled 64 }))
        name_read
        12288
        (pos 0)
        7
        table
      ≡ done (pos 0) t)
    × IsRegistry t (
        insert by_name
          (registered (filled 64) name_read 12288 (pos 0) 7)
          (sys_close ∷ sys_open ∷ []))
    × (t.heap 300 ≡ some (registered (filled 64) name_read 12288 (pos 0) 7))
    × (t.module_log ≡ module_get 9 ∷ table.module_log)
    × (t.vector_list ≡ table.vector_list)
    × (t.tasks ≡ table.tasks)
    × (k : ℕ) × (q : Ptr) × (get_syscall (filled 64) name_read t ≡ done (some k) t)
    × (get_elem? t.syscall_list k ≡ some q)
    × (t.heap q ≡ some (registered (filled 64) name_read 12288 (pos 0) 7))
unfolding c_str compare_names find_idx
register_syscall-insert_example =
    register_syscall-insert (filled 64) (filled 64) name_read 300 12288 (pos 0) 7 table
      (sys_close ∷ sys_open ∷ []) refl refl (omega arith) refl table-IsRegistry refl

table-IsEntry : IsEntry table (pos 1) 0 first_vector (sys_open ∷ sys_close ∷ [])
unfolding find_idx
table-IsEntry = record {
  free = refl;
  found = refl;
  at = refl;
  bytes = omega arith;
  live = (refl, (refl, tt));
}

get_syscall_fn-served_example :
    get_syscall_fn (pos 1) (pos 3) table
    ≡ done (if false then enosys_fn else served (pos 3) (sys_open ∷ sys_close ∷ [])) table
unfolding find_idx is_syscall_blocked test_bit
get_syscall_fn-served_example =
    get_syscall_fn-served table refl (pos 1) (pos 3) 0 first_vector false
      (sys_open ∷ sys_close ∷ []) refl refl refl (refl, (refl, tt))

block_syscall_num_keeps_lock_example :
    (t : State) × (block_syscall_num (pos 5) (pos 2) table ≡ done enoent t)
    × (unblock_syscall_num (pos 5) (pos 2) table ≡ done enoent t)
    × ((x m : ℤ) → get_syscall_fn x m t ≡ deadlock)
    × ((x : ℤ) → remove_syscall_vector x t ≡ deadlock)
    × (add_syscall_vector true t ≡ deadlock)
unfolding find_idx
block_syscall_num_keeps_lock_example = block_syscall_num_keeps_lock table (pos 5) (pos 2) refl refl

-- The vector 2 holds sys_open only.
pub open_Target :
    Target table
      (filled 64)
      name_close
      (pos 2)
      (sys_close ∷ sys_open ∷ [])
      0
      sys_close
      1
      second_vector
      (sys_open ∷ [])
unfolding c_str find_idx by_name compare_names
open_Target = record {
  temp_full = refl;
  fits = omega arith;
  registry = table-IsRegistry;
  entry = record { free = refl; found = refl; at = refl; bytes = omega arith; live = (refl, tt) };
  named = refl;
  record_at = refl;
}

pub both_Target :
    Target table
      (filled 64)
      name_close
      (pos 1)
      (sys_close ∷ sys_open ∷ [])
      0
      sys_close
      0
      first_vector
      (sys_open ∷ sys_close ∷ [])
unfolding c_str find_idx by_name compare_names
both_Target = record {
  temp_full = refl;
  fits = omega arith;
  registry = table-IsRegistry;
  entry = table-IsEntry;
  named = refl;
  record_at = refl;
}

add_syscall_to_vector-get_syscall_fn_example :
    (t : State) × (u : SyscallVector) × (add_syscall_to_vector
        (filled 64)
        true
        (pos 2)
        name_close
        table
      ≡ done (pos 0) t)
    × Target t
        (filled 64)
        name_close
        (pos 2)
        (sys_close ∷ sys_open ∷ [])
        0
        sys_close
        1
        u
        (insert cmp_syscall_by_syscall_num sys_close (sys_open ∷ []))
    × Sorted cmp_syscall_by_syscall_num
        (insert cmp_syscall_by_syscall_num sys_close (sys_open ∷ []))
    × (t.module_log ≡ module_get 7 ∷ table.module_log)
    × (u.blocked ≡ second_vector.blocked)
    × ((n : ℤ) (b : Bool)
        → is_syscall_blocked n second_vector.blocked ≡ some b
        → get_syscall_fn (pos 2) n t
          ≡ done
              (if b then enosys_fn else if pos 3 ==ℤ n then 8192 else served n (sys_open ∷ []))
              t)
unfolding find_idx
add_syscall_to_vector-get_syscall_fn_example =
    add_syscall_to_vector-get_syscall_fn table (filled 64) name_close (pos 2)
      (sys_close ∷ sys_open ∷ []) 0 sys_close 1 second_vector (sys_open ∷ []) open_Target (tt, tt)
      refl

remove_syscall_from_vector-add_example :
    (t : State) × (u : State) × (add_syscall_to_vector (filled 64) true (pos 2) name_close table
      ≡ done (pos 0) t)
    × (remove_syscall_from_vector (filled 64) (pos 2) name_close t ≡ done (pos 0) u)
    × (u.module_log ≡ module_put 7 ∷ module_get 7 ∷ table.module_log)
    × ((n : ℤ) (b : Bool)
        → is_syscall_blocked n second_vector.blocked ≡ some b
        → get_syscall_fn (pos 2) n u ≡ done (if b then enosys_fn else served n (sys_open ∷ [])) u)
unfolding find_idx
remove_syscall_from_vector-add_example =
    remove_syscall_from_vector-add table (filled 64) name_close (pos 2) (sys_close ∷ sys_open ∷ [])
      0 sys_close 1 second_vector (sys_open ∷ []) open_Target (tt, tt) refl

-- A module whose count is one reference whatever happened.
abbrev one_reference : Ptr → List ModuleCall → ℕ
one_reference m log = 1

unregister_syscall_cases_example :
    ((name_position (c_str name_open) (sys_close ∷ sys_open ∷ []) ≡ none)
      × (unregister_syscall one_reference (filled 64) name_open table ≡ done enoent table))
    ⊎ ((i : ℕ) × (c : Syscall) × (get_elem? (sys_close ∷ sys_open ∷ []) i ≡ some c)
        × (c_str name_open ≡ c_str c.name)
        × (((1 < one_reference c.module_ptr table.module_log)
              × (unregister_syscall one_reference (filled 64) name_open table ≡ done ebusy table))
            ⊎ ((t : State) × (one_reference c.module_ptr table.module_log ≤ 1)
                × (unregister_syscall one_reference (filled 64) name_open table ≡ done (pos 0) t)
                × IsRegistry t (erase_idx (sys_close ∷ sys_open ∷ []) i)
                × (get_syscall (filled 64) name_open t ≡ done none t)
                × (t.module_log ≡ module_put 9 ∷ table.module_log))))
unfolding c_str
unregister_syscall_cases_example =
    unregister_syscall_cases one_reference (filled 64) name_open table (sys_close ∷ sys_open ∷ [])
      refl (omega arith) table-IsRegistry

unregister_syscall_dangling_example :
    (t : State) × (unregister_syscall one_reference (filled 64) name_open table ≡ done (pos 0) t)
    × (get_syscall_fn (pos 1) (pos 2) t ≡ fault)
unfolding c_str find_idx by_name compare_names is_syscall_blocked test_bit
unregister_syscall_dangling_example =
    unregister_syscall_dangling one_reference (filled 64) name_open table
      (sys_close ∷ sys_open ∷ []) 1 sys_open 200 (pos 1) (pos 2) 0 first_vector (100 ∷ []) refl
      (omega arith) table-IsRegistry refl refl refl (omega arith) refl refl refl refl
