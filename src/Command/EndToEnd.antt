-- ===== src/Command/EndToEnd.antt =====
-- A command line, the device and the table together.
use perprocess_syscall_tbl.Prelude.{ℕ, ℤ, pos, true, false, none, some, List, to_short}
use perprocess_syscall_tbl.Kernel.{M, pure, ◌>>=◌}
use perprocess_syscall_tbl.Ioctl.{
  Command, add_vector, remove_vector, assign_vector_to_process, add_syscall_to_vector_cmd,
  remove_syscall_from_vector_cmd, MyArgs, Answers, manipulate_syscalls,
}
use perprocess_syscall_tbl.Clone.{to_pid}
use perprocess_syscall_tbl.Command.{Flags}

-- The C library's ioctl on the device: `result` is what it makes of the value of the system call.
abbrev pub through : (ℤ → ℤ) → Answers → Command → MyArgs → M (ℤ × MyArgs)
through result k cmd a = do
  r ← manipulate_syscalls k cmd a
  pure
      (result r.rc, record a { vector_id = elim r.vector_id [ none ↦ a.vector_id | some id ↦ id ] })

-- The fields that a command line with the operands `v` and `w` fills in.
abbrev pub fields : (List ℕ → ℤ) → ℤ → Command → List ℕ → List ℕ → MyArgs
fields strtol num add_vector v w = record {
  vector_id = pos 0;
  syscall_num = num;
  name = none;
  pid = pos 0;
}
fields strtol num remove_vector v w = record {
  vector_id = to_short (strtol v);
  syscall_num = num;
  name = none;
  pid = pos 0;
}
fields strtol num add_syscall_to_vector_cmd v w = record {
  vector_id = to_short (strtol v);
  syscall_num = num;
  name = some w;
  pid = pos 0;
}
fields strtol num remove_syscall_from_vector_cmd v w = record {
  vector_id = to_short (strtol v);
  syscall_num = num;
  name = some w;
  pid = pos 0;
}
fields strtol num assign_vector_to_process v w = record {
  vector_id = to_short (strtol v);
  syscall_num = num;
  name = none;
  pid = to_pid (strtol w);
}
fields strtol num cmd v w = record {
  vector_id = to_short (strtol v);
  syscall_num = to_short (strtol w);
  name = none;
  pid = pos 0;
}

abbrev flags : Command → Flags
flags cmd = record {
  manipulate_syscalls = true;
  list_vector_id_of_given_ps = false;
  list_all_syscall_vectors = false;
  command = some cmd;
}

abbrev before : Flags
before = record {
  manipulate_syscalls = true;
  list_vector_id_of_given_ps = false;
  list_all_syscall_vectors = false;
  command = none;
}
