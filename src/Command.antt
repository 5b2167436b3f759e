-- ===== src/Command.antt =====
-- The command line of ioctl_module/user_ioctl.c: getcommandlineargs, and the requests that main sends
-- to the device. What getopt made of the options is an argument (the characters it returned, and the
-- operands from `optind` on), and so is strtol. Reading an operand that is not there is a crash: strtol
-- gets the NULL behind the last argument.
pub mod Requests
pub mod Main
pub mod EndToEnd
use perprocess_syscall_tbl.Prelude.{
  ℕ, not, ℤ, pos, ◌==ℤ◌, Bool, true, false, ◌&&◌, ◌||◌, Option, none, some, List, [], ◌∷◌, ◌++◌,
  ◌==◌, ltb, to_short, if◌then◌else◌,
}
use perprocess_syscall_tbl.Clone.{to_pid}
use perprocess_syscall_tbl.Ioctl.{
  Command, add_vector, remove_vector, assign_vector_to_process, get_vector_id_of_process,
  add_syscall_to_vector_cmd, remove_syscall_from_vector_cmd, get_info, block, unblock, MyArgs,
}

-- The global flags. Of those of a command the switch sets at most one.
pub record Flags : Type 0 where
  pub manipulate_syscalls : Bool
  pub list_vector_id_of_given_ps : Bool
  pub list_all_syscall_vectors : Bool
  pub command : Option Command

-- The function prints its help and returns -1, reads behind the arguments, or returns 0.
pub data Parsed : Type 0 where
  help crash : Parsed
  parsed : Flags → MyArgs → Parsed

-- The loop over getopt.
unfoldable pub scan : List ℕ → Flags → Option Flags
scan [] f = some f
scan (c ∷ cs) f =
    if c == b'c'
    then scan cs (record f { manipulate_syscalls = true })
    else if c == b'p'
    then scan cs (record f { list_vector_id_of_given_ps = true })
    else if (c == b'h') || (c == b'?')
    then none
    else scan cs (record f { list_all_syscall_vectors = true })

abbrev pub conflicting : Flags → Bool
conflicting f =
    (f.list_vector_id_of_given_ps && f.manipulate_syscalls)
    || (f.list_vector_id_of_given_ps && f.list_all_syscall_vectors)
    || (f.manipulate_syscalls && f.list_all_syscall_vectors)

abbrev pub set_flag : Command → Flags → Flags
set_flag cmd f = record f { command = some cmd }

module _ (strtol : List ℕ → ℤ) (argc : ℕ) where
  -- Commands with a vector id and one more operand, which `store` stores; none is a crash.
  unfoldable pub two_operands :
      (List (List ℕ) → MyArgs → Option MyArgs) → Command → List (List ℕ) → Flags → MyArgs → Parsed
  two_operands store cmd (v ∷ rest) f a =
      if ltb argc 5
      then help
      else elim (store rest (record a { vector_id = to_short (strtol v) })) [
        | none ↦ crash
        | some b ↦ parsed (set_flag cmd f) b
      ]
  two_operands store cmd [] f a = if ltb argc 5 then help else crash

  unfoldable pub one_operand : List (List ℕ) → Flags → MyArgs → Parsed
  one_operand (v ∷ rest) f a =
      if ltb argc 4
      then help
      else parsed (set_flag remove_vector f) (record a { vector_id = to_short (strtol v) })
  one_operand [] f a = if ltb argc 4 then help else crash

  -- A name that is not there is the NULL at the end of argv; strtol of NULL is a crash.
  abbrev pub store_name : List (List ℕ) → MyArgs → Option MyArgs
  store_name [] a = some (record a { name = none })
  store_name (w ∷ rest) a = some (record a { name = some w })

  abbrev pub store_pid : List (List ℕ) → MyArgs → Option MyArgs
  store_pid [] a = none
  store_pid (w ∷ rest) a = some (record a { pid = to_pid (strtol w) })

  abbrev pub store_syscall_num : List (List ℕ) → MyArgs → Option MyArgs
  store_syscall_num [] a = none
  store_syscall_num (w ∷ rest) a = some (record a { syscall_num = to_short (strtol w) })

  -- The switch on the number of the command, an `int`.
  unfoldable pub select : ℤ → List (List ℕ) → Flags → MyArgs → Parsed
  unfolding one_operand two_operands to_pid
  select value rest f a =
      if value ==ℤ pos 1
      then parsed (set_flag add_vector f) a
      else if value ==ℤ pos 2
      then one_operand rest f a
      else if value ==ℤ pos 4
      then two_operands store_name add_syscall_to_vector_cmd rest f a
      else if value ==ℤ pos 8
      then two_operands store_name remove_syscall_from_vector_cmd rest f a
      else if value ==ℤ pos 16
      then two_operands store_pid assign_vector_to_process rest f a
      else if value ==ℤ pos 32
      then two_operands store_syscall_num block rest f a
      else if value ==ℤ pos 64
      then two_operands store_syscall_num unblock rest f a
      else help

  unfoldable pub manipulate : List (List ℕ) → Flags → MyArgs → Parsed
  unfolding select to_pid
  manipulate [] f a = if ltb argc 3 then help else crash
  manipulate (v ∷ rest) f a = if ltb argc 3 then help else select (to_pid (strtol v)) rest f a

  unfoldable pub list_ps : List (List ℕ) → Flags → MyArgs → Parsed
  unfolding to_pid
  list_ps [] f a = if ltb argc 3 then help else crash
  list_ps (v ∷ rest) f a =
      if ltb argc 3 then help else parsed f (record a { pid = to_pid (strtol v) })

  unfoldable pub getcommandlineargs : List ℕ → List (List ℕ) → Flags → MyArgs → Parsed
  unfolding scan manipulate list_ps
  getcommandlineargs options operands before a = elim (scan options before) [
    | none ↦ help
    | some f ↦
        if conflicting f
        then help
        else if f.list_all_syscall_vectors && ltb 1 argc
        then help
        else if f.list_vector_id_of_given_ps
        then list_ps operands f a
        else if f.manipulate_syscalls
        then manipulate operands f a
        else parsed f a
  ]

  -- main up to the requests: the flag that it sets before, and the fields that it clears; it leaves
  -- `syscall_num` as the stack had it.
  unfoldable pub read_command_line : ℤ → List ℕ → List (List ℕ) → Parsed
  unfolding getcommandlineargs
  read_command_line stack_num options operands =
      getcommandlineargs options operands
        (record {
          manipulate_syscalls = false;
          list_vector_id_of_given_ps = false;
          list_all_syscall_vectors = argc == 1;
          command = none;
        })
        (record { vector_id = pos 0; syscall_num = stack_num; name = none; pid = pos 0 })

-- block and unblock stand behind the two lists in main, the other commands before them.
abbrev pub is_late : Command → Bool
is_late block = true
is_late unblock = true
is_late cmd = false

abbrev pub request : (Command → Bool) → Option Command → List Command
request wanted none = []
request wanted (some cmd) = if wanted cmd then cmd ∷ [] else []

-- The requests that main sends, in its order, where each is answered without an error.
unfoldable pub requests : Flags → List Command
requests f =
    request (λ cmd. not (is_late cmd)) f.command
    ++ ((if f.list_all_syscall_vectors then get_info ∷ [] else [])
        ++ ((if f.list_vector_id_of_given_ps then get_vector_id_of_process ∷ [] else [])
            ++ request is_late f.command))
