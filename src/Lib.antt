-- ===== src/Lib.antt =====
-- Verification of the per-process system call table, a Linux kernel module: modules register system
-- calls by name, an administrator groups them in numbered vectors, and each process uses one vector,
-- in which the kernel looks up the function that serves a system call number.
--
-- The model, with the files of the repository that each part stands for:
--   Prelude     signed integers, Boolean tests, lists; shared lemmas.
--   Strings     strlen, strncpy and strncmp of the C library, as the module uses them.
--   Ring        syscall_module/list.c. A ring is the list of its nodes, a node pointer a position.
--   Kernel      the state of syscall_module/syscall_tbl.h and the commands on it: spin lock, memory of
--               the registered records, module references, tasks.
--   Registry    syscall_module/syscall_tbl.c: get_syscall, register_syscall, unregister_syscall.
--   Vectors     there: get_syscall_vector, __add_syscall_vector (find_gap is its loop, place_vector the
--               whole), add_syscall_vector, remove_syscall_vector.
--   Assignment  there: get_process_by_pid, get_vector_by_pid, assign_, unassign_ and
--               reassign_syscall_vector (assign_task, unassign_task and move_task are their parts
--               under the lock).
--   Blocking    there: is_syscall_blocked, block_syscall_num, unblock_syscall_num.
--   Dispatch    there: get_syscall_of_syscall_vector and get_syscall_fn.
--   Mapping     there: add_syscall_to_vector and remove_syscall_from_vector; Modules counts the module
--               references that they and remove_syscall_vector give back.
--   Report      there: get_syscall_tbl_info, and in Show show_syscall_tbl and show_syscall_tbl_test.
--   Module      there: init_syscall_tbl and exit_syscall_tbl.
--   Ioctl       syscall_module/hw3_ioctl.c: manipulate_syscalls (dispatch is its switch), init_ and
--               exit_ioctl_module; in Numbers the request numbers of ioctl_module/user_ioctl.h and the labels
--               of the switch.
--   Clone       clone2/sys_clone2.c and clone2/sys_clone2_lib.c.
--   Command     ioctl_module/user_ioctl.c: getcommandlineargs and main; EndToEnd composes
--               main with the device and the table.
--   Samples     syscall_module/test_syscalls.c: rename2, rmdir2 and the four calls that return a constant, in
--               Files open2, read2 and close2, in Load init_test_syscalls, in Unload exit_test_syscalls, in
--               Roundtrip one after the other.
--   System      the operations of syscall_tbl.c as one type of calls, what a caller has to observe
--               (Allowed), the invariant of the whole table (Sound), the states that calls reach, and what
--               a call changes in the lookups of the whole table (OnlyAt).
--   Contract    what the operations promise, over an abstract table of maps (names to entries, vector ids to
--               blocked numbers and entries, the processes): specified computes a call's value and effect,
--               View says which abstract table a state stands for, the other modules go through the calls.
--   Races       reassign_syscall_vector split at the spin_lock, for two calls that overlap.
--   Demos       clone2/test1_clone2.c and clone2/test2_clone2.c: starting_process is the body of main and of
--               childFunclevel0, last_process and test2_grandchild are childFunclevel1; a started process
--               runs while the one that started it sleeps.
--   Tests       a table in use and the theorems at its values.
--
-- How the code is modelled. A function is a command on the record State and ends in a result and a new
-- state, in a fault (a read of dead memory, an access outside an array) or in a deadlock (the spin lock
-- was held). A registered record lives on a heap and the lists hold its address, so a vector can point
-- at a record that was freed; vectors are held by value, since only their list points to them. A C int
-- or short is an integer; an assignment to a short wraps by to_short. A name is a list of bytes, and the
-- buffers of 64 bytes start with arbitrary content. What the code takes from the kernel is an argument:
-- what kmalloc and the copies from the user return, _do_fork, uninitialised bytes, module_refcount as
-- a function of the log of references, and whether the eight bytes behind a child's stack, where the
-- wrapper stores the function, can be written. Output by printk and printf is left out, except in the two
-- functions whose purpose it is and for the vectors that the programs of Demos report. Every loop is a recursion on the list that it walks, so no fuel is used.
--
-- Not modelled: the kernel's own change of clone and of the system call entry (not in the repository), and
-- the test programs but for the two of Demos.
pub mod Prelude
pub mod Strings
pub mod Ring
pub mod Kernel
pub mod Registry
pub mod Vectors
pub mod Assignment
pub mod Blocking
pub mod Dispatch
pub mod Mapping
pub mod Report
pub mod Ioctl
pub mod Clone
pub mod Module
pub mod Command
pub mod Samples
pub mod System
pub mod Races
pub mod Contract
pub mod Demos
pub mod Tests
