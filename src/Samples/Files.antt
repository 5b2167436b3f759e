-- ===== src/Samples/Files.antt =====
-- The sample system calls of syscall_module/test_syscalls.c on the module's one file: open2, read2 and
-- close2. What kmalloc, filp_open, vfs_read, copy_to_user and filp_close return is an argument; vfs_read and
-- filp_close follow the pointer that they get.
use perprocess_syscall_tbl.Prelude.{
  ℕ, zero, suc, List, [], ◌∷◌, ◌-◌, ◌≡◌, refl, ap, ◌∙◌, sym, ℤ, pos, ltb_ℤ, Bool, true, false,
  Option, none, some, arith, if◌then◌else◌, Bool-cases, inl, inr, ◌⊎◌,
}
use perprocess_syscall_tbl.Samples.{wrapped}

-- What `filp` points to.
pub data Filp : Type 0 where
  null error_pointer open_file closed_file : Filp

-- `filp`, its position, whether the address limit of the process is KERNEL_DS, how many blocks of kmalloc
-- are held, and what the calls stored in the user's buffer, the newest first.
pub record Files : Type 0 where
  pub filp : Filp
  pub f_pos : ℕ
  pub kernel_ds : Bool
  pub blocks : ℕ
  pub user : List (List ℕ)

-- What vfs_read gives at a position: its value, the position behind it, and the first 30 bytes of `kbuf`.
pub record VfsRead : Type 0 where
  pub value : ℤ
  pub position : ℕ
  pub bytes : List ℕ

abbrev pub is_open : Filp → Bool
is_open open_file = true
is_open f = false

-- None is a fault.
unfoldable pub open2 : Filp → Files → Option (ℤ × Files)
open2 opened s =
    if is_open opened
    then some (pos 1, record s { filp = opened; f_pos = 0 })
    else some (wrapped, record s { filp = opened })

abbrev pub first_bytes : ℕ → List ℕ → List ℕ
first_bytes zero bytes = []
first_bytes (suc n) [] = []
first_bytes (suc n) (b ∷ bytes) = b ∷ first_bytes n bytes

-- The bytes that a copy of 30 stores where it leaves some out.
unfoldable pub copied_bytes : ℕ → List ℕ → List ℕ
copied_bytes left bytes = first_bytes (30 - left) bytes

-- `left` is what copy_to_user returns: the number of bytes that it did not copy.
unfoldable pub read2 : Bool → (ℕ → VfsRead) → ℕ → Files → Option (ℤ × Files)
unfolding copied_bytes
read2 allocated vfs_read left s =
    let got = vfs_read s.f_pos in
    let copied = copied_bytes left got.bytes ∷ s.user in
    if allocated
    then (if is_open s.filp
        then (if ltb_ℤ got.value (pos 0)
            then some (
              wrapped,
              record s { f_pos = got.position; kernel_ds = true; blocks = suc s.blocks },
            )
            else if ltb_ℤ (pos left) (pos 0)
            then some
                (wrapped, record s { f_pos = got.position; blocks = suc s.blocks; user = copied })
            else some (
              got.value,
              record s { f_pos = got.position; blocks = suc s.blocks - 1; user = copied },
            ))
        else none)
    else some (wrapped, s)

unfoldable pub close2 : ℤ → Files → Option (ℤ × Files)
close2 filp_close s =
    if is_open s.filp
    then (if ltb_ℤ filp_close (pos 0)
        then some (wrapped, record s { filp = closed_file })
        else some (pos 1, record s { filp = closed_file }))
    else none

-- A call with what the kernel answers.
pub data FileCall : Type 0 where
  opening : Filp → FileCall
  reading : Bool → (ℕ → VfsRead) → ℕ → FileCall
  closing : ℤ → FileCall

abbrev pub perform_file_call : FileCall → Files → Option (ℤ × Files)
perform_file_call (opening f) s = open2 f s
perform_file_call (reading allocated r left) s = read2 allocated r left s
perform_file_call (closing r) s = close2 r s

-- The state behind some calls, as long as none is a fault.
pub data After (s : Files) : Files → Type 0 where
  start : After s s
  step :
      {t u : Files} (call : FileCall) (rc : ℤ)
      → After s t
      → perform_file_call call t ≡ some (rc, u)
      → After s u

-- The address limit behind a call; a fault has none.
abbrev limit : Option (ℤ × Files) → Bool
limit none = true
limit (some r) = r.1.kernel_ds

limit-perform_file_call :
    (call : FileCall) (s : Files) → s.kernel_ds ≡ true → limit (perform_file_call call s) ≡ true
unfolding open2 read2 close2
limit-perform_file_call (opening f) s high = ground arith
limit-perform_file_call (reading allocated r left) s high = ground arith
limit-perform_file_call (closing r) s high = ground arith

stays_high : {s t : Files} → s.kernel_ds ≡ true → After s t → t.kernel_ds ≡ true
stays_high high start = high
stays_high high (step {t} {u} call rc before e) =
    sym (ap limit e) ∙ limit-perform_file_call call t (stays_high high before)

-- With an open file and a block, read2 whose vfs_read at the file's position succeeds returns its value,
-- moves the position, and stores in the user's buffer the bytes that copy_to_user did not leave out, with
-- the same value whether or not it left some; nothing else changes. Where vfs_read fails, read2 returns
-- WRAPPED with nothing stored for the user, the block held and the address limit at KERNEL_DS, where it
-- stays whatever calls of the three follow.
pub read2_keeps_limit :
    (vfs_read : ℕ → VfsRead) (left : ℕ) (s : Files)
    → s.filp ≡ open_file
    → ((ltb_ℤ (vfs_read s.f_pos).value (pos 0) ≡ false)
        × (read2 true vfs_read left s
            ≡ some (
              (vfs_read s.f_pos).value,
              record s {
                f_pos = (vfs_read s.f_pos).position;
                user = copied_bytes left (vfs_read s.f_pos).bytes ∷ s.user;
              },
            )))
      ⊎ ((ltb_ℤ (vfs_read s.f_pos).value (pos 0) ≡ true)
          × (t : Files) × (read2 true vfs_read left s ≡ some (wrapped, t))
          × (t.blocks ≡ suc s.blocks)
          × (t.user ≡ s.user)
          × ((u : Files) → After t u → u.kernel_ds ≡ true))
unfolding read2
read2_keeps_limit vfs_read left s opened =
    elim (Bool-cases (ltb_ℤ (vfs_read s.f_pos).value (pos 0))) [
      | inl fails ↦ inr (
        fails,
        record s { f_pos = (vfs_read s.f_pos).position; kernel_ds = true; blocks = suc s.blocks },
        rw (opened, fails) refl,
        refl,
        refl,
        λ u after. stays_high refl after,
      )
      | inr reads ↦ inl (reads, ground (arith, opened))
    ]
