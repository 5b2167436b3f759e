-- ===== src/Strings.antt =====
-- The C string functions that syscall_module/syscall_tbl.c calls on names, over lists of bytes.
-- A `char *` is the bytes from the pointer on; what stands behind the list is read as NUL.
pub mod Compare
pub mod Copy
use perprocess_syscall_tbl.Prelude.{
  ℕ, zero, suc, ℤ, pos, negsuc, Bool, true, false, List, [], ◌∷◌, ltb, ◌==◌, if◌then◌else◌, length,
}

-- The bytes in front of the first NUL.
unfoldable pub c_str : List ℕ → List ℕ
c_str [] = []
c_str (c ∷ cs) = if c == 0 then [] else c ∷ c_str cs

unfoldable pub strlen : List ℕ → ℕ
strlen s = length (c_str s)

-- strncpy(dst, src, n): the string, padded with NULs to `n` bytes; the rest of `dst` stays.
unfoldable pub strncpy : List ℕ → List ℕ → ℕ → List ℕ
strncpy [] src n = []
strncpy (d ∷ ds) src zero = d ∷ ds
strncpy (d ∷ ds) [] (suc n) = 0 ∷ strncpy ds [] n
strncpy (d ∷ ds) (c ∷ cs) (suc n) = if c == 0 then 0 ∷ strncpy ds [] n else c ∷ strncpy ds cs n

-- strncmp(a, b, n): bytes compared as unsigned, up to a difference, a NUL or `n` bytes.
unfoldable pub strncmp : List ℕ → List ℕ → ℕ → ℤ
strncmp xs ys zero = pos 0
strncmp [] [] (suc n) = pos 0
strncmp [] (y ∷ ys) (suc n) = if y == 0 then pos 0 else negsuc 0
strncmp (x ∷ xs) [] (suc n) = if x == 0 then pos 0 else pos 1
strncmp (x ∷ xs) (y ∷ ys) (suc n) =
    if ltb x y
    then negsuc 0
    else if ltb y x
    then pos 1
    else if x == 0
    then pos 0
    else strncmp xs ys n
