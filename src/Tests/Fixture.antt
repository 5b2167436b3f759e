-- ===== src/Tests/Fixture.antt =====
-- A table with two system calls and two vectors. Process 1 uses the vector 1, process 2 the default.
use perprocess_syscall_tbl.Prelude.{
  ℕ, pos, false, Option, none, some, List, [], ◌∷◌, ◌==◌, if◌then◌else◌,
}
use perprocess_syscall_tbl.Kernel.{Ptr, Syscall, SyscallVector, State, module_get}

abbrev pub name_open : List ℕ
name_open = b'o' ∷ b'p' ∷ b'e' ∷ b'n' ∷ []

abbrev pub name_close : List ℕ
name_close = b'c' ∷ b'l' ∷ b'o' ∷ b's' ∷ b'e' ∷ []

abbrev pub name_read : List ℕ
name_read = b'r' ∷ b'e' ∷ b'a' ∷ b'd' ∷ []

abbrev pub zeros : ℕ → List ℕ
zeros ℕ.zero = []
zeros (ℕ.suc n) = 0 ∷ zeros n

-- What stands in memory that was not cleared.
abbrev pub filled : ℕ → List ℕ
filled ℕ.zero = []
filled (ℕ.suc n) = 165 ∷ filled n

abbrev pub buffer : List ℕ → List ℕ
buffer [] = zeros 59
buffer (c ∷ cs) = c ∷ buffer cs

abbrev pub sys_open : Syscall
sys_open = record { name = buffer name_open; fptr = 4096; syscall_num = pos 2; module_ptr = 7 }

abbrev pub sys_close : Syscall
sys_close = record { name = buffer name_close; fptr = 8192; syscall_num = pos 3; module_ptr = 7 }

abbrev pub heap : Ptr → Option Syscall
heap p = if p == 100 then some sys_close else if p == 200 then some sys_open else none

abbrev pub first_vector : SyscallVector
first_vector = record {
  id = pos 1;
  refcnt = pos 1;
  blocked = zeros 76;
  syscall_num_list = 200 ∷ 100 ∷ [];
}

abbrev pub second_vector : SyscallVector
second_vector = record {
  id = pos 2;
  refcnt = pos 0;
  blocked = zeros 76;
  syscall_num_list = 200 ∷ [];
}

abbrev pub table : State
table = record {
  lock = false;
  vector_list = first_vector ∷ second_vector ∷ [];
  syscall_list = 100 ∷ 200 ∷ [];
  heap = heap;
  syscall_module = 9;
  module_log =
      module_get 7
      ∷ module_get 7
      ∷ module_get 7
      ∷ module_get 9
      ∷ module_get 9
      ∷ module_get 9
      ∷ module_get 9
      ∷ [];
  tasks =
      record { pid = pos 1; vector_id = pos 1 } ∷ record { pid = pos 2; vector_id = pos 0 } ∷ [];
}
