-- ===== src/Contract.antt =====
-- What syscall_module/syscall_tbl.c promises, without rings, nodes, bitmaps, counts and the lock: maps
-- from names, vector ids and numbers, and the value and the effect of each call on them.
pub mod Entries
pub mod View
pub mod Promise
pub mod Vectors
pub mod Registering
pub mod Mapped
pub mod Blocks
pub mod Processes
pub mod Lookups
pub mod Refinement
pub mod Runs
use perprocess_syscall_tbl.Prelude.{
  ℕ, ◌*◌, ltb, ℤ, pos, negsuc, ◌==ℤ◌, Bool, true, false, ◌||◌, Option, none, some, is_some, List,
  ◌∷◌, ◌==◌, modify, if◌then◌else◌,
}
use perprocess_syscall_tbl.Strings.{c_str}
use perprocess_syscall_tbl.Strings.Compare.{compare_names}
use perprocess_syscall_tbl.Kernel.{
  Ptr, ModuleCall, module_get, module_put, Task, enoent, enomem, einval, ebusy,
}
use perprocess_syscall_tbl.Registry.{Block}
use perprocess_syscall_tbl.Assignment.Users.{users}
use perprocess_syscall_tbl.Assignment.Branches.{process}
use perprocess_syscall_tbl.Assignment.Counts.{set_vector_id}
use perprocess_syscall_tbl.Dispatch.{enoent_fn, enosys_fn}
use perprocess_syscall_tbl.System.{
  Call, register, unregister, add_vector, remove_vector, add_mapping, remove_mapping, assign,
  unassign, reassign, block, unblock,
}

-- A registered system call but for its name.
pub record Entry : Type 0 where
  pub fptr : ℕ
  pub syscall_num : ℤ
  pub module_ptr : Ptr

-- The blocked numbers and the system call of each number.
pub record Vector : Type 0 where
  pub blocked : ℕ → Bool
  pub entries : ℤ → Option Entry

-- The processes are the kernel's, and so are the references of modules.
pub record Table : Type 0 where
  pub registered : List ℕ → Option Entry
  pub vectors : ℤ → Option Vector
  pub tasks : List Task
  pub log : List ModuleCall
  pub self : Ptr

-- Changes of a map at one place.
abbrev pub put_name : List ℕ → Option Entry → (List ℕ → Option Entry) → List ℕ → Option Entry
put_name name e f x = if compare_names x name ==ℤ pos 0 then e else f x

abbrev pub put_id : ℤ → Option Vector → (ℤ → Option Vector) → ℤ → Option Vector
put_id id v f x = if x ==ℤ id then v else f x

abbrev pub put_number : ℤ → Option Entry → (ℤ → Option Entry) → ℤ → Option Entry
put_number num e f x = if num ==ℤ x then e else f x

abbrev pub put_bit : ℤ → Bool → (ℕ → Bool) → ℕ → Bool
put_bit (pos n) b f m = if m == n then b else f m
put_bit (negsuc n) b f m = f m

-- register_syscall of a name with this entry so far.
abbrev pub registering : Option Block → List ℕ → Entry → Option Entry → Table → ℤ × Table
registering none name e old a = (enomem, a)
registering (some b) name e (some old) a = (einval, a)
registering (some b) name e none a = (
  pos 0,
  record a {
    registered = put_name (c_str name) (some e) a.registered;
    log = module_get a.self ∷ a.log;
  },
)

abbrev pub unregistering : (Ptr → List ModuleCall → ℕ) → List ℕ → Option Entry → Table → ℤ × Table
unregistering count name none a = (enoent, a)
unregistering count name (some e) a = if ltb 1 (count e.module_ptr a.log) then (ebusy, a) else (
  pos 0,
  record a {
    registered = put_name (c_str name) none a.registered;
    log = module_put a.self ∷ a.log;
  },
)

-- A new vector blocks nothing and has no system calls; `id` is the one that is chosen.
abbrev pub adding_vector : ℤ → Bool → Table → ℤ × Table
adding_vector id false a = (enomem, a)
adding_vector id true a = (
  id,
  record a {
    vectors = put_id id (some (record { blocked = λ n. false; entries = λ n. none })) a.vectors;
    log = module_get a.self ∷ a.log;
  },
)

-- remove_syscall_vector refuses a vector that a process uses.
abbrev pub removing_vector : ℤ → Option Vector → Table → ℤ × Table
removing_vector id none a = (enoent, a)
removing_vector id (some v) a =
    if ltb 0 (users id a.tasks)
    then (ebusy, a)
    else (pos 0, record a { vectors = put_id id none a.vectors; log = module_put a.self ∷ a.log })

-- The system call of a number in a vector, and of the registered name.
abbrev pub adding : ℤ → Entry → Vector → Option Entry → Table → ℤ × Table
adding id e v (some old) a = (negsuc 0, a)
adding id e v none a = (
  pos 0,
  record a {
    vectors =
        put_id id (some (record v { entries = put_number e.syscall_num (some e) v.entries }))
          a.vectors;
    log = module_get e.module_ptr ∷ a.log;
  },
)

abbrev pub removing : ℤ → Entry → Vector → Option Entry → Table → ℤ × Table
removing id e v none a = (enoent, a)
removing id e v (some old) a = (
  pos 0,
  record a {
    vectors =
        put_id id (some (record v { entries = put_number e.syscall_num none v.entries })) a.vectors;
    log = module_put e.module_ptr ∷ a.log;
  },
)

abbrev pub mapping :
    (ℤ → Entry → Vector → Option Entry → Table → ℤ × Table)
    → ℤ
    → Option Entry
    → Option Vector
    → Table
    → ℤ × Table
mapping change id none v a = (enoent, a)
mapping change id (some e) none a = (enoent, a)
mapping change id (some e) (some v) a = change id e v (v.entries e.syscall_num) a

-- assign_, unassign_ and reassign_syscall_vector: the process uses the vector, or the default one.
abbrev pub switching : ℤ → Option ℕ → Table → ℤ × Table
switching id none a = (einval, a)
switching id (some i) a =
    if (id ==ℤ pos 0) || is_some (a.vectors id)
    then (pos 0, record a { tasks = set_vector_id a.tasks i id })
    else (enoent, a)

abbrev pub marking : Bool → ℤ → ℤ → Option Vector → Table → ℤ × Table
marking b id num none a = (enoent, a)
marking b id num (some v) a = (
  pos 0,
  record a {
    vectors = put_id id (some (record v { blocked = put_bit num b v.blocked })) a.vectors;
  },
)

-- The value of a call and the table after it; a new vector gets the id `id`.
abbrev pub specified : (Ptr → List ModuleCall → ℕ) → ℤ → Call → Table → ℤ × Table
specified count id (register temp memory name fptr num m) a =
    registering memory name (record { fptr = fptr; syscall_num = num; module_ptr = m })
      (a.registered (c_str name)) a
specified count id (unregister temp name) a = unregistering count name (a.registered (c_str name)) a
specified count id (add_vector allocated) a = adding_vector id allocated a
specified count id (remove_vector w) a = removing_vector w (a.vectors w) a
specified count id (add_mapping temp false w name) a = (enomem, a)
specified count id (add_mapping temp true w name) a =
    mapping adding w (a.registered (c_str name)) (a.vectors w) a
specified count id (remove_mapping temp w name) a =
    mapping removing w (a.registered (c_str name)) (a.vectors w) a
specified count id (assign w pid) a = switching w (process pid a.tasks) a
specified count id (unassign pid) a = switching (pos 0) (process pid a.tasks) a
specified count id (reassign w pid) a = switching w (process pid a.tasks) a
specified count id (block w num) a = marking true w num (a.vectors w) a
specified count id (unblock w num) a = marking false w num (a.vectors w) a

-- What the kernel calls for a number.
abbrev pub function_of : Option Entry → ℕ
function_of none = 0
function_of (some e) = e.fptr

abbrev pub dispatched : ℕ → Option Vector → ℕ
dispatched n none = enoent_fn
dispatched n (some v) = if v.blocked n then enosys_fn else function_of (v.entries (pos n))
