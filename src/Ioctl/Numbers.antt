-- ===== src/Ioctl/Numbers.antt =====
-- The request numbers: those that user_ioctl.c sends (ioctl_module/user_ioctl.h) and the labels of the
-- switch of manipulate_syscalls (syscall_module/hw3_ioctl.h, hw3_ioctl.c). The macro _IOWR of
-- linux/ioctl.h, for the type `char *`, is an argument.
use mathlib.Core.Path.{fun_ext}
use perprocess_syscall_tbl.Prelude.{
  sym, ap, ◌∙◌, some-inj, ℕ, ◌*◌, ◌^◌, ◌≡◌, refl, Option, none, some, bit_or, ◌==◌, if◌then◌else◌,
}
use perprocess_syscall_tbl.Ioctl.{
  Command, add_vector, remove_vector, add_syscall_to_vector_cmd, remove_syscall_from_vector_cmd,
  assign_vector_to_process, get_vector_id_of_process, get_info, block, unblock, other,
}

abbrev pub major_num : ℕ
major_num = 229

-- The requests of the command line; none for the number of no request.
unfoldable pub request_number : (ℕ → ℕ → ℕ) → Command → Option ℕ
request_number iowr add_vector = some (iowr major_num 1)
request_number iowr remove_vector = some (iowr major_num 2)
request_number iowr add_syscall_to_vector_cmd = some (iowr major_num 4)
request_number iowr remove_syscall_from_vector_cmd = some (iowr major_num 8)
request_number iowr assign_vector_to_process = some (iowr major_num 16)
request_number iowr get_vector_id_of_process = some (iowr major_num 32)
request_number iowr get_info = some (iowr major_num 64)
request_number iowr block = some (iowr major_num 128)
request_number iowr unblock = some (iowr major_num 256)
request_number iowr other = none

-- The case of the switch that a number selects.
unfoldable pub selected : (ℕ → ℕ → ℕ) → ℕ → Command
selected iowr cmd =
    if cmd == iowr major_num 1
    then add_vector
    else if cmd == iowr major_num 2
    then remove_vector
    else if cmd == iowr major_num 4
    then add_syscall_to_vector_cmd
    else if cmd == iowr major_num 8
    then remove_syscall_from_vector_cmd
    else if cmd == iowr major_num 16
    then assign_vector_to_process
    else if cmd == iowr major_num 32
    then get_vector_id_of_process
    else if cmd == iowr major_num 64
    then get_info
    else if cmd == iowr major_num 128
    then block
    else if cmd == iowr major_num 256
    then unblock
    else other

-- What linux/ioctl.h documents: the number is the or of the directions, the size of a pointer, the type
-- and the number, shifted to their fields of 2, 14, 8 and 8 bits, none of which is cut.
abbrev pub IsIowr : (ℕ → ℕ → ℕ) → Type 0
IsIowr iowr =
    (type number : ℕ)
    → iowr type number ≡ bit_or (bit_or (bit_or (3 * 2 ^ 30) (8 * 2 ^ 16)) (type * 2 ^ 8)) number

abbrev fields_of : ℕ → ℕ → ℕ
fields_of type number = bit_or (bit_or (bit_or (3 * 2 ^ 30) (8 * 2 ^ 16)) (type * 2 ^ 8)) number

-- The switch for one macro and for the fields.
selected-fields_of :
    (iowr : ℕ → ℕ → ℕ) (cmd : ℕ) → IsIowr iowr → selected iowr cmd ≡ selected fields_of cmd
selected-fields_of iowr cmd fields =
    ap (λ (f : ℕ → ℕ → ℕ). selected f cmd) (fun_ext λ type. fun_ext λ number. fields type number)

sent_number :
    (iowr : ℕ → ℕ → ℕ) (cmd : Command) (n number : ℕ)
    → IsIowr iowr
    → some (iowr major_num n) ≡ some number
    → selected fields_of (fields_of major_num n) ≡ cmd
    → selected iowr number ≡ cmd
sent_number iowr cmd n number fields e own =
    selected-fields_of iowr number fields
    ∙ ap (selected fields_of) (sym (some-inj _ number e) ∙ fields major_num n)
    ∙ own

-- A request of the command line selects its own case of the switch: the nine numbers are different, also
-- that of `unblock`, whose 256 does not fit the field of 8 bits.
pub selected-request_number :
    (iowr : ℕ → ℕ → ℕ) (cmd : Command) (number : ℕ)
    → IsIowr iowr
    → request_number iowr cmd ≡ some number
    → selected iowr number ≡ cmd
unfolding request_number selected
selected-request_number iowr add_vector number fields e =
    sent_number iowr add_vector 1 number fields e refl
selected-request_number iowr remove_vector number fields e =
    sent_number iowr remove_vector 2 number fields e refl
selected-request_number iowr add_syscall_to_vector_cmd number fields e =
    sent_number iowr add_syscall_to_vector_cmd 4 number fields e refl
selected-request_number iowr remove_syscall_from_vector_cmd number fields e =
    sent_number iowr remove_syscall_from_vector_cmd 8 number fields e refl
selected-request_number iowr assign_vector_to_process number fields e =
    sent_number iowr assign_vector_to_process 16 number fields e refl
selected-request_number iowr get_vector_id_of_process number fields e =
    sent_number iowr get_vector_id_of_process 32 number fields e refl
selected-request_number iowr get_info number fields e =
    sent_number iowr get_info 64 number fields e refl
selected-request_number iowr block number fields e = sent_number iowr block 128 number fields e refl
selected-request_number iowr unblock number fields e =
    sent_number iowr unblock 256 number fields e refl
selected-request_number iowr other number fields e = cc e
