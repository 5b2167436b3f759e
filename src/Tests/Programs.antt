-- ===== src/Tests/Programs.antt =====
-- The programs of clone2 on a machine where every call succeeds, and the request numbers.
use mathlib.Core.Path.{fun_ext}
use perprocess_syscall_tbl.Kernel.{SyscallVector}
use perprocess_syscall_tbl.Assignment.{take_ref}
use perprocess_syscall_tbl.Assignment.Counts.{position-modify, take_ref-id}
use perprocess_syscall_tbl.Vectors.Search.{position}
use perprocess_syscall_tbl.Prelude.{Option, ap, ◌∙◌, get_elem?, modify}
use perprocess_syscall_tbl.Prelude.{
  ℕ, suc, ◌-◌, ◌*◌, ◌^◌, ◌<◌, ◌≡◌, refl, not, ◌||◌, ◌==ℤ◌, ℤ, pos, negsuc, pos_part, Bool, false,
  true, ltb, none, some, List, [], ◌∷◌, ◌++◌, find_idx, bit_or, arith, if◌then◌else◌,
}
use perprocess_syscall_tbl.Kernel.{Task, State, M, pure, done}
use perprocess_syscall_tbl.Assignment.{assign_syscall_vector}
use perprocess_syscall_tbl.Assignment.Branches.{process, is_known}
use perprocess_syscall_tbl.Clone.{CloneArgs, shares_syscalls}
use perprocess_syscall_tbl.Ioctl.{Answers, unblock}
use perprocess_syscall_tbl.Ioctl.Numbers.{request_number, selected, selected-request_number}
use perprocess_syscall_tbl.Demos.{Machine, send_arg, shared, test1_main, test2_main}
use perprocess_syscall_tbl.Demos.Vectors.{Uses, pids}
use perprocess_syscall_tbl.Demos.Starts.{given, known_in}
use perprocess_syscall_tbl.Demos.Reports.{Works}
use perprocess_syscall_tbl.Demos.Programs.{asked_vector, Prints, main-reports}
use perprocess_syscall_tbl.Tests.Fixture.{table}

abbrev highest : List ℤ → ℕ
highest [] = 0
highest (p ∷ ps) = if ltb (highest ps) (pos_part p) then pos_part p else highest ps

-- The vector of a process that starts another one.
abbrev vector_of : Option Task → ℤ
vector_of none = pos 0
vector_of (some t) = t.vector_id

abbrev task_at : List Task → Option ℕ → Option Task
task_at ts none = none
task_at ts (some i) = get_elem? ts i

abbrev parent_vector : ℤ → State → ℤ
parent_vector tid s = vector_of (task_at s.tasks (process tid s.tasks))

parent_vector-Uses : (s : State) (tid v : ℤ) → Uses s tid v → parent_vector tid s ≡ v
parent_vector-Uses s tid v it =
    ap (λ o. vector_of (task_at s.tasks o)) it.found ∙ ap vector_of it.at ∙ it.uses

abbrev counted_at : Option ℕ → List SyscallVector → List SyscallVector
counted_at none vs = vs
counted_at (some j) vs = modify vs j take_ref

abbrev counted : ℤ → List SyscallVector → List SyscallVector
counted v vs = counted_at (position v vs) vs

abbrev forked : ℤ → CloneArgs → State → State
forked v args s = record s {
  vector_list = counted (given shares_syscalls v args.clone_flags) s.vector_list;
  tasks =
      s.tasks
      ++ record {
        pid = pos (suc (highest (pids s.tasks)));
        vector_id = given shares_syscalls v args.clone_flags;
      }
        ∷ [];
}

-- Ids are given out in order; a process that shares system calls is on its parent's vector, and counted
-- there, and every other one on the default vector.
abbrev fork_next : ℤ → CloneArgs → M ℤ
fork_next tid args s =
    done (pos (suc (highest (pids s.tasks)))) (forked (parent_vector tid s) args s)

is_known-counted_at :
    (o : Option ℕ) (vs : List SyscallVector) (id : ℤ)
    → is_known id (counted_at o vs) ≡ is_known id vs
is_known-counted_at none vs id = refl
is_known-counted_at (some j) vs id = rw (position-modify take_ref take_ref-id id vs j) refl

known-forked : (v : ℤ) (args : CloneArgs) (s : State) → known_in (forked v args s) ≡ known_in s
known-forked v args s = fun_ext λ id.
    is_known-counted_at (position (given shares_syscalls v args.clone_flags) s.vector_list)
      s.vector_list id

abbrev room : List ℤ → ℕ
room ids = 2147483646 - highest ids

abbrev full_answers : Answers
full_answers = record {
  arglist_allocated = true;
  name_allocated = true;
  sys_allocated = true;
  node_allocated = true;
  name_left = 0;
  vector_id_left = 0;
  syscall_num_left = 0;
  pid_left = 0;
  result_left = 0;
  temp = [];
}

abbrev machine : Machine
machine = record {
  do_fork = fork_next;
  hook = some assign_syscall_vector;
  waitpid = λ pid. pure (pos (pos_part pid));
  libc = λ rc. rc;
  answers = λ tid. full_answers;
  behind_vector_id = λ tid. pos 3;
  fd = λ tid. pos 3;
  malloc = λ tid. 4096;
  child_fn = 1234;
  writable = λ p. true;
}

below_ne : (p : ℤ) (n : ℕ) → pos_part p < n → (pos n ==ℤ p) ≡ false
below_ne (pos k) n below = ground arith
below_ne (negsuc k) n below = refl

highest-bounds :
    (p : ℤ) (ps : List ℤ) (n : ℕ) → highest (p ∷ ps) < n → (pos_part p < n) × (highest ps < n)
highest-bounds p ps n above = ground arith

fresh_above : (ts : List Task) (n : ℕ) → highest (pids ts) < n → process (pos n) ts ≡ none
unfolding find_idx
fresh_above [] n above = refl
fresh_above (t ∷ ts) n above =
    let (own, rest) = highest-bounds t.pid (pids ts) n above in
    rw (below_ne t.pid n own, fresh_above ts n rest) refl

highest-append : (ids : List ℤ) (n : ℕ) → highest ids < n → highest (ids ++ pos n ∷ []) ≡ n
highest-append [] n above = ground arith
highest-append (p ∷ ps) n above =
    let (own, rest) = highest-bounds p ps n above in rw (highest-append ps n rest) (ground arith)

field_copied : (is_zero : Bool) → (not (not is_zero) || true) ≡ true
field_copied false = refl
field_copied true = refl

machine-Works : Works machine shares_syscalls room
unfolding send_arg
machine-Works = record {
  hooked = refl;
  opened = λ tid. refl;
  served = λ tid. field_copied (tid ==ℤ pos 0);
  memory = λ tid. refl;
  result_copied = λ tid. refl;
  stacks = λ tid. refl;
  behind = λ tid. refl;
  function_there = refl;
  passes = λ n. refl;
  waits = λ pid s. (pos (pos_part pid), s, refl, refl);
  forks = λ tid v args s it enough. (
    record {
      pid = suc (highest (pids s.tasks));
      small = omega arith;
      fresh = fresh_above s.tasks (suc (highest (pids s.tasks))) (omega arith);
      before = forked v args s;
      result =
          ap (λ w. done (pos (suc (highest (pids s.tasks)))) (forked w args s))
            (parent_vector-Uses s tid v it);
      free = it.free;
      appended = refl;
      known = known-forked v args s;
    },
    rw (highest-append (pids s.tasks) (suc (highest (pids s.tasks))) (omega arith)) (omega arith),
  );
}

first_Uses : Uses table (pos 1) (pos 1)
unfolding find_idx
first_Uses = record {
  free = refl;
  index = 0;
  task = record { pid = pos 1; vector_id = pos 1 };
  found = refl;
  at = refl;
  uses = refl;
}

main-reports_example :
    Prints (test1_main machine) (pos 1) table (
      pos 1
      ∷ asked_vector shares_syscalls table (pos 1) (pos 1)
      ∷ asked_vector shares_syscalls table
          (asked_vector shares_syscalls table (pos 1) (pos 1))
          (pos 2)
      ∷ [])
    × Prints (test2_main machine) (pos 1) table (
        pos 1
        ∷ given shares_syscalls (pos 1) shared
        ∷ asked_vector shares_syscalls table (given shares_syscalls (pos 1) shared) (pos 255)
        ∷ [])
main-reports_example =
    main-reports machine shares_syscalls room table (pos 1) (pos 1) machine-Works first_Uses
      (1, refl, omega arith) (omega arith)

-- The fields of a request number side by side.
abbrev iowr : ℕ → ℕ → ℕ
iowr type number = bit_or (bit_or (bit_or (3 * 2 ^ 30) (8 * 2 ^ 16)) (type * 2 ^ 8)) number

selected-request_number_example : selected iowr 3221808384 ≡ unblock
unfolding request_number
selected-request_number_example =
    selected-request_number iowr unblock 3221808384 (λ type number. refl) refl
