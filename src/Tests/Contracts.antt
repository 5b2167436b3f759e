-- ===== src/Tests/Contracts.antt =====
-- The theorems on the specification, at the table of the fixture and at a table that was just loaded.
use perprocess_syscall_tbl.Prelude.{ℕ, ◌*◌, ◌<◌, ◌≡◌, refl, ℤ, pos, true, arith}
use perprocess_syscall_tbl.Kernel.{State, done}
use perprocess_syscall_tbl.Vectors.{num_syscalls}
use perprocess_syscall_tbl.Vectors.Operations.{added, add_syscall_vector-added}
use perprocess_syscall_tbl.Dispatch.{get_syscall_fn}
use perprocess_syscall_tbl.Module.{empty_table}
use perprocess_syscall_tbl.System.{Call, add_vector, add_mapping, perform}
use perprocess_syscall_tbl.System.Invariant.{Sound}
use perprocess_syscall_tbl.System.Reach.{Reach, here, next}
use perprocess_syscall_tbl.Contract.{specified, dispatched}
use perprocess_syscall_tbl.Contract.View.{view}
use perprocess_syscall_tbl.Contract.Lookups.{get_syscall_fn-dispatched}
use perprocess_syscall_tbl.Contract.Refinement.{Chosen, perform-specified}
use perprocess_syscall_tbl.Contract.Runs.{Runs, trace, fresh_table, init-specified}
use perprocess_syscall_tbl.Tests.Fixture.{name_close, filled, heap, table}
use perprocess_syscall_tbl.Tests.Whole.{table-Sound, used_once, new_tasks}

abbrev close_in_second : Call
close_in_second = add_mapping (filled 64) true (pos 2) name_close

perform-specified_example :
    (id : ℤ) × (rc : ℤ) × (t : State) × Chosen close_in_second id (view table)
    × (perform used_once close_in_second table ≡ done rc t)
    × Sound t
    × ((rc, view t) ≡ specified used_once id close_in_second (view table))
unfolding perprocess_syscall_tbl.Strings.c_str
perform-specified_example =
    perform-specified used_once close_in_second table table-Sound (refl, omega arith)

get_syscall_fn-dispatched_example :
    get_syscall_fn (pos 2) (pos 3) table ≡ done (dispatched 3 ((view table).vectors (pos 2))) table
get_syscall_fn-dispatched_example =
    get_syscall_fn-dispatched table (pos 2) 3 table-Sound (omega arith)

-- The first add_syscall_vector.
one_call : Reach used_once (empty_table 9 heap new_tasks) (added (empty_table 9 heap new_tasks))
unfolding empty_table
one_call =
    next (add_vector true) _ here tt (add_syscall_vector-added (empty_table 9 heap new_tasks) refl)

init-specified_example :
    Sound (added (empty_table 9 heap new_tasks))
    × Runs used_once
        (fresh_table 9 new_tasks)
        (trace one_call)
        (view (added (empty_table 9 heap new_tasks)))
    × ((w : ℤ) (n : ℕ)
        → n < 8 * num_syscalls
        → get_syscall_fn w (pos n) (added (empty_table 9 heap new_tasks))
          ≡ done
              (dispatched n ((view (added (empty_table 9 heap new_tasks))).vectors w))
              (added (empty_table 9 heap new_tasks)))
init-specified_example =
    init-specified used_once 9 heap new_tasks (refl, (refl, tt)) (omega arith) one_call
