-- ===== src/Tests/Devices.antt =====
-- The theorems on the device, the report, the module's start and the command line, at the table
-- of the fixture.
use perprocess_syscall_tbl.Prelude.{
  ℕ, ◌<ℤ◌, ◌≡◌, refl, ◌⊎◌, inl, ℤ, pos, true, false, not, ◌-◌, ◌+◌, ◌*◌, find_idx, ltb, none, some,
  List, [], ◌∷◌, arith, length, if◌then◌else◌,
}
use perprocess_syscall_tbl.Strings.{c_str, strlen}
use perprocess_syscall_tbl.Kernel.{State, Task, pure, done, fault}
use perprocess_syscall_tbl.Assignment.{assign_syscall_vector, unassign_syscall_vector}
use perprocess_syscall_tbl.Assignment.Invariant.{Tallied}
use perprocess_syscall_tbl.Report.{get_syscall_tbl_info}
use perprocess_syscall_tbl.Report.Entries.{entries, get_syscall_tbl_info-entries}
use perprocess_syscall_tbl.Ioctl.{
  MyArgs, Answers, Reply, reply, dispatch, manipulate_syscalls, assign_vector_to_process,
}
use perprocess_syscall_tbl.Ioctl.Copies.{copied, manipulate_syscalls-copied}
use perprocess_syscall_tbl.Ioctl.Invariant.{manipulate_syscalls-Tallied}
use perprocess_syscall_tbl.Clone.{to_pid}
use perprocess_syscall_tbl.Module.{Globals}
use perprocess_syscall_tbl.Command.{read_command_line}
use perprocess_syscall_tbl.Command.Requests.{sent, one, documented, read_command_line-documented}
use perprocess_syscall_tbl.Kernel.{einval}
use perprocess_syscall_tbl.Assignment.{reassign_syscall_vector}
use perprocess_syscall_tbl.Ioctl.Operations.{answered, manipulate_syscalls-operation}
use perprocess_syscall_tbl.Samples.{
  rename2, rmdir2, rename2_protects, Protected, enot_supported, wrapped,
}
use perprocess_syscall_tbl.Samples.Files.{
  Files, VfsRead, copied_bytes, open_file, read2, After, read2_keeps_limit,
}
use perprocess_syscall_tbl.Report.Entries.{names}
use perprocess_syscall_tbl.Report.Show.{
  vectors_title, calls_title, mapping_title, newline, printed_ids, printed_names, one_line, Printk,
  show_syscall_tbl, show_syscall_tbl_test, show_syscall_tbl-test,
}
use perprocess_syscall_tbl.Prelude.{◌==ℤ◌, Bool-cases, ◌++◌, ltb_ℤ, inr, negsuc}
use perprocess_syscall_tbl.Prelude.{suc}
use perprocess_syscall_tbl.Tests.Fixture.{sys_open, sys_close, table}
use perprocess_syscall_tbl.Tests.Witnesses.{table-Tallied}

get_syscall_tbl_info-entries_example : get_syscall_tbl_info table ≡ (
    if ltb 10 (length table.vector_list)
    then fault
    else done
        (
          pos 0,
          record {
            size = length table.vector_list;
            syscall_vector_info =
                entries table.vector_list ((sys_open ∷ sys_close ∷ []) ∷ (sys_open ∷ []) ∷ []);
          },
        )
        table)
unfolding strlen c_str
get_syscall_tbl_info-entries_example =
    get_syscall_tbl_info-entries table ((sys_open ∷ sys_close ∷ []) ∷ (sys_open ∷ []) ∷ []) (
      (refl, (refl, tt)),
      omega arith,
      (omega arith, (omega arith, tt)),
      ((refl, tt), omega arith, (omega arith, tt), tt),
    )

-- Every answer is good.
abbrev answers : Answers
answers = record {
  arglist_allocated = true;
  name_allocated = true;
  sys_allocated = true;
  node_allocated = true;
  name_left = 0;
  vector_id_left = 0;
  syscall_num_left = 0;
  pid_left = 0;
  result_left = 0;
  temp = [];
}

-- Process 1 shall use the vector 2.
abbrev to_second : MyArgs
to_second = record { vector_id = pos 2; syscall_num = pos 0; name = none; pid = pos 1 }

manipulate_syscalls-copied_example :
    ((copied answers to_second ≡ false)
      × ((rc : ℤ) × (rc <ℤ pos 0)
          × (manipulate_syscalls answers assign_vector_to_process to_second table
              ≡ done (reply rc) table)))
    ⊎ ((copied answers to_second ≡ true)
        × (manipulate_syscalls answers assign_vector_to_process to_second table
            ≡ (if not answers.sys_allocated
                  then pure (reply (pos 0))
                  else dispatch answers assign_vector_to_process to_second)
                table))
manipulate_syscalls-copied_example =
    manipulate_syscalls-copied answers assign_vector_to_process to_second table

manipulate_syscalls-Tallied_example :
    (r : Reply) × (t : State) × (manipulate_syscalls answers assign_vector_to_process to_second
        table
      ≡ done r t)
    × Tallied t
manipulate_syscalls-Tallied_example =
    manipulate_syscalls-Tallied answers to_second table table-Tallied (omega arith)
      assign_vector_to_process refl

abbrev no_globals : Globals
no_globals = record {
  _assign_syscall_vector = none;
  _unassign_syscall_vector = none;
  _get_syscall_fn = none;
  syscall_module = none;
  syscall_tbl = none;
}

abbrev two_tasks : List Task
two_tasks =
    record { pid = pos 1; vector_id = pos 0 } ∷ record { pid = pos 2; vector_id = pos 0 } ∷ []

-- strtol on one digit.
abbrev digit : List ℕ → ℤ
digit [] = pos 0
digit (c ∷ cs) = pos (c - 48)

read_command_line-documented_example :
    sent (
      read_command_line digit 5 (pos 77) (b'c' ∷ []) ((b'4' ∷ []) ∷ (b'1' ∷ []) ∷ (b'x' ∷ []) ∷ []))
    ≡ one (documented (to_pid (digit (b'4' ∷ []))))
read_command_line-documented_example =
    read_command_line-documented digit 5 (pos 77) (b'4' ∷ []) (b'1' ∷ []) (b'x' ∷ []) []
      (omega arith)

-- No process has the id 9.
abbrev to_nobody : MyArgs
to_nobody = record { vector_id = pos 2; syscall_num = pos 0; name = none; pid = pos 9 }

manipulate_syscalls-operation_example :
    manipulate_syscalls answers assign_vector_to_process to_nobody table
    ≡ done (answered einval) table
unfolding reassign_syscall_vector perprocess_syscall_tbl.Assignment.get_process_by_pid find_idx
manipulate_syscalls-operation_example =
    manipulate_syscalls-operation answers assign_vector_to_process to_nobody
      (reassign_syscall_vector (pos 2) (pos 9)) table einval table refl refl refl refl

-- a.protect
abbrev protected_path : List ℕ
protected_path = b'a' ∷ b'.' ∷ b'p' ∷ b'r' ∷ b'o' ∷ b't' ∷ b'e' ∷ b'c' ∷ b't' ∷ []

abbrev copy_all : List ℕ → ℤ × List ℕ
copy_all path = (pos 0, path)

rename2_protects_example :
    (rename2 true copy_all protected_path [] ≡ rmdir2 true copy_all protected_path)
    × ((Protected (c_str protected_path)
          × (rename2 true copy_all protected_path [] ≡ some enot_supported))
        ⊎ (¬ (Protected (c_str protected_path))
            × (rename2 true copy_all protected_path [] ≡ some wrapped)))
unfolding strlen c_str
rename2_protects_example = rename2_protects copy_all protected_path [] (omega arith) refl

show_syscall_tbl-test_example :
    (lines : List Printk) × (show_syscall_tbl_test (record {
      size = length table.vector_list;
      syscall_vector_info =
          entries table.vector_list ((sys_open ∷ sys_close ∷ []) ∷ (sys_open ∷ []) ∷ []);
    })
      ≡ some (pos 0, lines))
    × (show_syscall_tbl table
        ≡ done
            (
              pos 0,
              vectors_title
                  ∷ (printed_ids table.vector_list
                      ++ (newline
                          ∷ calls_title
                          ∷ (printed_names (names (sys_close ∷ sys_open ∷ []))
                              ++ (newline ∷ mapping_title ∷ (one_line lines ++ (newline ∷ [])))))),
            )
            table)
unfolding strlen c_str
show_syscall_tbl-test_example =
    show_syscall_tbl-test table (sys_close ∷ sys_open ∷ [])
      ((sys_open ∷ sys_close ∷ []) ∷ (sys_open ∷ []) ∷ []) (refl, (refl, tt))
      (
        (refl, (refl, tt)),
        omega arith,
        (omega arith, (omega arith, tt)),
        ((refl, tt), omega arith, (omega arith, tt), tt),
      )

-- The C library gives -1 for every error.
abbrev ioctl_result : ℤ → ℤ
ioctl_result rc = if ltb_ℤ rc (pos 0) then negsuc 0 else rc

-- strtol on "16" and on one digit.
abbrev short_number : List ℕ → ℤ
short_number [] = pos 0
short_number (c ∷ []) = pos (c - 48)
short_number (c ∷ d ∷ cs) = pos (10 * (c - 48) + (d - 48))

-- default_file.txt is open, and vfs_read gives -EIO.
abbrev one_file : Files
one_file = record { filp = open_file; f_pos = 0; kernel_ds = false; blocks = 0; user = [] }

abbrev bad_read : ℕ → VfsRead
bad_read position = record { value = negsuc 4; position = position; bytes = [] }

read2_keeps_limit_example :
    ((ltb_ℤ (bad_read 0).value (pos 0) ≡ false)
      × (read2 true bad_read 0 one_file
          ≡ some (
            (bad_read 0).value,
            record one_file {
              f_pos = (bad_read 0).position;
              user = copied_bytes 0 (bad_read 0).bytes ∷ one_file.user;
            },
          )))
    ⊎ ((ltb_ℤ (bad_read 0).value (pos 0) ≡ true)
        × (t : Files) × (read2 true bad_read 0 one_file ≡ some (wrapped, t))
        × (t.blocks ≡ suc one_file.blocks)
        × (t.user ≡ one_file.user)
        × ((u : Files) → After t u → u.kernel_ds ≡ true))
read2_keeps_limit_example = read2_keeps_limit bad_read 0 one_file refl
