-- ===== src/Command/Requests.antt =====
-- Which request each command line sends.
use perprocess_syscall_tbl.Prelude.{
  ℕ, ◌≡◌, refl, ℤ, pos, ◌==ℤ◌, true, false, none, some, Option, List, [], ◌∷◌, ◌≤◌, if◌then◌else◌,
  arith,
}
use perprocess_syscall_tbl.Clone.{to_pid}
use perprocess_syscall_tbl.Ioctl.{
  Command, add_vector, remove_vector, assign_vector_to_process, add_syscall_to_vector_cmd,
  remove_syscall_from_vector_cmd, block, unblock, MyArgs,
}
use perprocess_syscall_tbl.Command.{
  Flags, Parsed, help, crash, parsed, scan, select, manipulate, one_operand, two_operands,
  getcommandlineargs, read_command_line, requests,
}

-- The table that the help prints for `-c`.
abbrev pub documented : ℤ → Option Command
documented value =
    if value ==ℤ pos 1
    then some add_vector
    else if value ==ℤ pos 2
    then some remove_vector
    else if value ==ℤ pos 4
    then some add_syscall_to_vector_cmd
    else if value ==ℤ pos 8
    then some remove_syscall_from_vector_cmd
    else if value ==ℤ pos 16
    then some assign_vector_to_process
    else if value ==ℤ pos 32
    then some block
    else if value ==ℤ pos 64
    then some unblock
    else none

-- The commands of a result.
abbrev pub sent : Parsed → Option (List Command)
sent (parsed f a) = some (requests f)
sent help = none
sent crash = none

abbrev pub one : Option Command → Option (List Command)
one none = none
one (some cmd) = some (cmd ∷ [])

select-documented :
    (strtol : List ℕ → ℤ) (argc : ℕ) (value : ℤ) (v w : List ℕ) (rest : List (List ℕ)) (f : Flags)
    (a : MyArgs)
    → 5 ≤ argc
    → f.list_all_syscall_vectors ≡ false
    → f.list_vector_id_of_given_ps ≡ false
    → sent (select strtol argc value (v ∷ w ∷ rest) f a) ≡ one (documented value)
unfolding select one_operand two_operands requests
select-documented strtol argc value v w rest f a enough all ps = ground arith

-- `-c value` with two operands sends just the request that the help names for the value, and for any
-- other value none.
pub read_command_line-documented :
    (strtol : List ℕ → ℤ) (argc : ℕ) (num : ℤ) (value v w : List ℕ) (rest : List (List ℕ))
    → 5 ≤ argc
    → sent (read_command_line strtol argc num (b'c' ∷ []) (value ∷ v ∷ w ∷ rest))
      ≡ one (documented (to_pid (strtol value)))
unfolding read_command_line getcommandlineargs scan manipulate
read_command_line-documented strtol argc num value v w rest enough = ground (
  arith,
  select-documented strtol argc (to_pid (strtol value)) v w rest
      (record {
        manipulate_syscalls = true;
        list_vector_id_of_given_ps = false;
        list_all_syscall_vectors = false;
        command = none;
      })
      (record { vector_id = pos 0; syscall_num = num; name = none; pid = pos 0 }) enough refl refl,
)
