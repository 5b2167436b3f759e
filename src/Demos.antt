-- ===== src/Demos.antt =====
-- The programs that show clone2 (clone2/test1_clone2.c, clone2/test2_clone2.c): each process of a
-- program asks the device for its vector, prints it, and starts the next process with clone2. The next
-- process runs while the one that started it sleeps, and ends before it wakes. The kernel and the C
-- library are arguments.
pub mod Vectors
pub mod Starts
pub mod Reports
pub mod Programs
use perprocess_syscall_tbl.Prelude.{
  ℕ, ◌+◌, ◌-◌, ◌^◌, Bool, ◌==◌, ℤ, pos, negsuc, ◌==ℤ◌, ltb_ℤ, Option, none, List, [], ◌∷◌,
  if◌then◌else◌,
}
use perprocess_syscall_tbl.Kernel.{Ptr, M, pure, ◌>>=◌}
use perprocess_syscall_tbl.Ioctl.{MyArgs, Answers, get_vector_id_of_process}
use perprocess_syscall_tbl.Clone.{CloneArgs, clone2, sys_clone2_wrapper}
use perprocess_syscall_tbl.Command.EndToEnd.{through}

-- What a process meets, by its id where it can be another one for each: _do_fork of the process, the
-- hook of clone2, waitpid, the C library's value of a system call's value, the answers to the device's
-- handler, the two bytes behind `vector_id` (see `send_arg`), the values of open and malloc, the
-- address of the function that the next process runs, and where eight bytes can be stored. A stack ends
-- with the block of malloc, and the wrapper stores the function behind it.
pub record Machine : Type 0 where
  pub do_fork : ℤ → CloneArgs → M ℤ
  pub hook : Option (ℤ → ℤ → M ℤ)
  pub waitpid : ℤ → M ℤ
  pub libc : ℤ → ℤ
  pub answers : ℤ → Answers
  pub behind_vector_id : ℤ → ℤ
  pub fd : ℤ → ℤ
  pub malloc : ℤ → Ptr
  pub child_fn : Ptr
  pub writable : Ptr → Bool

-- The lines "Vector id of process id = …" of the process and of those below it, with the status of the
-- process.
pub record Ended : Type 0 where
  pub reports : List (ℤ × ℤ)
  pub status : ℤ

-- struct myargs of these programs has no `syscall_num`: the device reads it from the padding, which the
-- programs never write.
unfoldable pub send_arg : Machine → ℤ → MyArgs
send_arg m tid = record {
  vector_id = pos 0;
  syscall_num = m.behind_vector_id tid;
  name = none;
  pid = tid;
}

abbrev pub stack_size : ℕ
stack_size = 1048576

abbrev pub eacces : ℤ
eacces = negsuc 12

-- An int as an unsigned long.
abbrev pub to_ulong : ℤ → ℕ
to_ulong (pos n) = n
to_ulong (negsuc n) = 2 ^ 64 - 1 - n

-- clone2 behind the C library's syscall.
unfoldable pub call_clone2 : Machine → ℤ → ℤ → Ptr → ℤ → M ℤ
unfolding clone2
call_clone2 m tid flags stack_top vector_id = do
  pid ←
      clone2 (m.do_fork tid) m.hook
        (record {
          clone_flags = to_ulong flags;
          newsp = stack_top;
          parent_tidptr = 0;
          child_tidptr = 0;
          tls_val = 0;
        })
        vector_id
  pure (m.libc pid)

unfoldable pub start : Machine → ℕ → ℤ → ℤ → M ℤ
unfolding call_clone2 sys_clone2_wrapper
start m flags vector_id tid = do
  result ←
      sys_clone2_wrapper m.writable (call_clone2 m tid) m.child_fn (m.malloc tid + stack_size)
        (pos flags) vector_id
  pure result.rc

-- childFunclevel1: it reports its vector and ends.
unfoldable pub last_process : Machine → ℤ → M Ended
unfolding send_arg
last_process m tid =
    if ltb_ℤ (m.fd tid) (pos 0) then pure (record { reports = []; status = eacces }) else do
      (rc, arg) ← through m.libc (m.answers tid) get_vector_id_of_process (send_arg m tid)
      pure (record { reports = (tid, arg.vector_id) ∷ []; status = pos 0 })

-- What childFunclevel0 and main do: report, start `child` on a new stack, and wait for it.
unfoldable pub starting_process : Machine → (ℤ → M Ended) → ℕ → ℤ → ℤ → M Ended
unfolding send_arg start
starting_process m child flags vector_id tid =
    if ltb_ℤ (m.fd tid) (pos 0) then pure (record { reports = []; status = eacces }) else do
      (rc, arg) ← through m.libc (m.answers tid) get_vector_id_of_process (send_arg m tid)
      if m.malloc tid == 0
          then pure (record { reports = (tid, arg.vector_id) ∷ []; status = pos 1 })
          else do
            pid ← start m flags vector_id tid
            if pid ==ℤ negsuc 0
                then pure (record { reports = (tid, arg.vector_id) ∷ []; status = pos 1 })
                else do
                  ended ← child pid
                  waited ← m.waitpid pid
                  pure (record {
                    reports = (tid, arg.vector_id) ∷ ended.reports;
                    status = if waited ==ℤ negsuc 0 then pos 1 else pos 0;
                  })

-- SIGCHLD, and with the system calls of the parent.
abbrev pub sigchld : ℕ
sigchld = 17

abbrev pub shared : ℕ
shared = 4113

-- test1_clone2.c: each process with a vector of its own.
unfoldable pub test1_child : Machine → ℤ → M Ended
unfolding starting_process last_process
test1_child m = starting_process m (last_process m) sigchld (pos 2)

unfoldable pub test1_main : Machine → ℤ → M Ended
unfolding starting_process test1_child
test1_main m = starting_process m (test1_child m) sigchld (pos 1)

-- test2_clone2.c: the first child shares, and the second asks for a vector 255.
unfoldable pub test2_grandchild : Machine → ℤ → M Ended
unfolding last_process
test2_grandchild = last_process

unfoldable pub test2_child : Machine → ℤ → M Ended
unfolding starting_process test2_grandchild
test2_child m = starting_process m (test2_grandchild m) sigchld (pos 255)

unfoldable pub test2_main : Machine → ℤ → M Ended
unfolding starting_process test2_child
test2_main m = starting_process m (test2_child m) shared (pos 1)
