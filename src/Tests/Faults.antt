-- ===== src/Tests/Faults.antt =====
-- The theorems on overlapping calls and on references of modules, at the table of the fixture.
use perprocess_syscall_tbl.Prelude.{
  ℕ, ◌+◌, ◌*◌, ◌==◌, ◌<◌, ◌≡◌, ◌≢◌, refl, ℤ, pos, Bool, true, false, none, some, Option, List, [],
  ◌∷◌, ltb, suc, arith, get_elem?, find_idx, inr, if◌then◌else◌,
}
use perprocess_syscall_tbl.Strings.{c_str}
use perprocess_syscall_tbl.Strings.Compare.{compare_names}
use perprocess_syscall_tbl.Prelude.{length, is_some, Option-cases, inl}
use perprocess_syscall_tbl.Kernel.{Ptr, SyscallVector, State, done, ebusy}
use perprocess_syscall_tbl.Vectors.{remove_syscall_vector}
use perprocess_syscall_tbl.Vectors.Operations.{removed}
use perprocess_syscall_tbl.Assignment.Users.{users}
use perprocess_syscall_tbl.Assignment.Invariant.{Tallied}
use perprocess_syscall_tbl.Dispatch.{cmp_syscall_by_syscall_num}
use perprocess_syscall_tbl.Races.{begun, ended, schedule}
use perprocess_syscall_tbl.Races.Counts.{schedule_leaks, schedule_undercounts}
use perprocess_syscall_tbl.Kernel.{Syscall}
use perprocess_syscall_tbl.Prelude.{erase_idx, zero, sym, ap, some-inj, none}
use perprocess_syscall_tbl.Mapping.{add_syscall_to_vector, remove_syscall_from_vector}
use perprocess_syscall_tbl.Mapping.Operations.{Target}
use perprocess_syscall_tbl.Mapping.Modules.{
  given_back, taken, remove_syscall_from_vector_wrong_module, remove_syscall_vector-add,
}
use perprocess_syscall_tbl.Registry.Search.{by_name}
use perprocess_syscall_tbl.Tests.Fixture.{
  name_close, filled, sys_open, sys_close, first_vector, second_vector, table,
}
use perprocess_syscall_tbl.Tests.Witnesses.{open_Target, table-Tallied}

schedule_leaks_example :
    (r : State) × (m : ℕ) × (u : SyscallVector) × (schedule
        (true ∷ true ∷ false ∷ false ∷ true ∷ false ∷ [])
        (begun (pos 1) (pos 2))
        (begun (pos 2) (pos 2))
        table
      ≡ done (ended (pos 0), ended (pos 0)) r)
    × (get_elem? r.vector_list m ≡ some u)
    × (u.id ≡ pos 1)
    × (u.refcnt ≡ pos (users (pos 1) r.tasks + 1))
unfolding find_idx
schedule_leaks_example =
    schedule_leaks table (pos 2) (pos 1) (pos 2) 1 0 1 (record { pid = pos 2; vector_id = pos 0 })
      table-Tallied refl refl refl (λ e. cc e) (λ e. cc e) (λ e. cc e) refl refl

-- Three vectors; both processes use the first one.
abbrev shared : State
shared = record table {
  vector_list =
      record first_vector { refcnt = pos 2 }
      ∷ second_vector
      ∷ record second_vector { id = pos 3 }
      ∷ [];
  tasks =
      record { pid = pos 1; vector_id = pos 1 } ∷ record { pid = pos 2; vector_id = pos 1 } ∷ [];
}

shared-Tallied : Tallied shared
unfolding users find_idx
shared-Tallied = record {
  free = refl;
  ids = omega arith;
  counts = ((omega arith, refl), ((omega arith, refl), ((omega arith, refl), tt)));
  placed = (inr refl, (inr refl, tt));
  few = omega arith;
}

schedule_undercounts_example :
    (r : State) × (u : SyscallVector) × (schedule
        (true ∷ false ∷ true ∷ false ∷ [])
        (begun (pos 2) (pos 1))
        (begun (pos 3) (pos 1))
        shared
      ≡ done (ended (pos 0), ended (pos 0)) r)
    × (get_elem? r.vector_list 0 ≡ some u)
    × (u.refcnt ≡ pos 0)
    × (users (pos 1) r.tasks ≡ 1)
    × (remove_syscall_vector (pos 1) r
        ≡ (if ltb 0 0 then done ebusy r else done (pos 0) (removed 0 r)))
unfolding find_idx users
schedule_undercounts_example =
    schedule_undercounts shared (pos 1) (pos 2) (pos 3) 0 1 2 0 0
      (record { pid = pos 1; vector_id = pos 1 }) shared-Tallied refl refl (λ e. cc e) (λ e. cc e)
      (λ e. cc e) (λ e. cc e) (λ e. cc e) refl refl refl refl

-- The other module's close has the number of open.
abbrev odd_close : Syscall
odd_close = record sys_close { syscall_num = pos 2; module_ptr = 8 }

abbrev odd_heap : Ptr → Option Syscall
odd_heap p = if p == 100 then some odd_close else if p == 200 then some sys_open else none

abbrev odd : State
odd = record table {
  heap = odd_heap;
  vector_list = record first_vector { syscall_num_list = 200 ∷ [] } ∷ second_vector ∷ [];
}

odd-Target :
    Target odd
      (filled 64)
      name_close
      (pos 2)
      (odd_close ∷ sys_open ∷ [])
      0
      odd_close
      1
      second_vector
      (sys_open ∷ [])
unfolding c_str find_idx by_name compare_names
odd-Target = record {
  temp_full = refl;
  fits = omega arith;
  registry = record {
    free = refl;
    live = (refl, (refl, tt));
    short = (omega arith, (omega arith, tt));
    sorted = ((refl, tt), (tt, tt));
  };
  entry = record { free = refl; found = refl; at = refl; bytes = omega arith; live = (refl, tt) };
  named = refl;
  record_at = refl;
}

remove_syscall_from_vector_wrong_module_example :
    (t : State) × (u : SyscallVector) × (remove_syscall_from_vector
        (filled 64)
        (pos 2)
        name_close
        odd
      ≡ done (pos 0) t)
    × Target t
        (filled 64)
        name_close
        (pos 2)
        (odd_close ∷ sys_open ∷ [])
        0
        odd_close
        1
        u
        (erase_idx (sys_open ∷ []) 0)
    × (given_back 7 t.module_log ≡ given_back 7 odd.module_log)
    × (given_back 8 t.module_log ≡ suc (given_back 8 odd.module_log))
unfolding find_idx cmp_syscall_by_syscall_num perprocess_syscall_tbl.Prelude.◌-ℤ◌
remove_syscall_from_vector_wrong_module_example =
    remove_syscall_from_vector_wrong_module odd (filled 64) name_close (pos 2)
      (odd_close ∷ sys_open ∷ []) 0 odd_close 1 second_vector (sys_open ∷ []) 0 sys_open odd-Target
      (tt, tt) refl refl (λ e. absurd (omega (arith, e)))

-- close belongs to the module 7, and no process uses the second vector.
remove_syscall_vector-add_example :
    (t r : State) × (add_syscall_to_vector (filled 64) true (pos 2) name_close table
      ≡ done (pos 0) t)
    × (remove_syscall_vector (pos 2) t ≡ done (pos 0) r)
    × (r.vector_list ≡ erase_idx table.vector_list 1)
    × (taken 7 r.module_log ≡ suc (taken 7 table.module_log))
    × (given_back 7 r.module_log ≡ given_back 7 table.module_log)
unfolding find_idx
remove_syscall_vector-add_example =
    remove_syscall_vector-add table (filled 64) name_close (pos 2) (sys_close ∷ sys_open ∷ []) 0
      sys_close 1 second_vector (sys_open ∷ []) open_Target refl refl (omega arith)
