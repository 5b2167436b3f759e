-- ===== src/Command/Main.antt =====
-- main of ioctl_module/user_ioctl.c behind its command line. The C library's ioctl on the open device is
-- an argument: its value, and the request with the fields that the device wrote. The table of `-c`
-- requests and lists is printed from these; the printing is left out.
use perprocess_syscall_tbl.Prelude.{
  ℕ, ℤ, pos, negsuc, ltb_ℤ, Bool, true, false, ◌&&◌, Option, none, some, List, [], ◌∷◌,
  if◌then◌else◌,
}
use perprocess_syscall_tbl.Kernel.{M, pure, ◌>>=◌}
use perprocess_syscall_tbl.Ioctl.{Command, get_vector_id_of_process, get_info, MyArgs}
use perprocess_syscall_tbl.Command.{Parsed, help, crash, parsed, requests, read_command_line}

-- main ends on a negative value, but for the two requests that list.
abbrev pub is_checked : Command → Bool
is_checked get_info = false
is_checked get_vector_id_of_process = false
is_checked cmd = true

-- The requests from some point on, with the last value.
unfoldable pub send : (Command → MyArgs → M (ℤ × MyArgs)) → List Command → MyArgs → ℤ → M ℤ
send ioctl [] a rc = pure rc
send ioctl (cmd ∷ rest) a rc = do
  (value, a') ← ioctl cmd a
  if is_checked cmd && ltb_ℤ value (pos 0) then pure value else send ioctl rest a' value

-- The status that the program exits with; none where it crashed.
unfoldable pub run_parsed : (Command → MyArgs → M (ℤ × MyArgs)) → Bool → Parsed → M (Option ℤ)
unfolding send requests
run_parsed ioctl opened help = pure (some (negsuc 0))
run_parsed ioctl opened crash = pure none
run_parsed ioctl opened (parsed f a) =
    if opened
    then (do rc ← send ioctl (requests f) a (pos 0); pure (some rc))
    else pure (some (negsuc 0))

-- `opened` says whether open of the device gave a descriptor.
unfoldable pub user_main :
    (Command → MyArgs → M (ℤ × MyArgs))
    → Bool
    → (List ℕ → ℤ)
    → ℕ
    → ℤ
    → List ℕ
    → List (List ℕ)
    → M (Option ℤ)
unfolding run_parsed read_command_line
user_main ioctl opened strtol argc stack_num options operands =
    run_parsed ioctl opened (read_command_line strtol argc stack_num options operands)
