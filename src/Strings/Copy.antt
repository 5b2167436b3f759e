-- ===== src/Strings/Copy.antt =====
-- `strncpy` into a buffer, and the string that the buffer then holds.
use perprocess_syscall_tbl.Prelude.{ℕ, zero, suc, ◌<◌, ◌≤◌, ◌≡◌, refl, List, [], ◌∷◌, arith, length}
use perprocess_syscall_tbl.Strings.{c_str, strncpy}

pub length-strncpy : (dst src : List ℕ) (n : ℕ) → length (strncpy dst src n) ≡ length dst
unfolding strncpy
length-strncpy [] src n = refl
length-strncpy (d ∷ ds) src zero = refl
length-strncpy (d ∷ ds) [] (suc n) = ground (arith, length-strncpy ds [] n)
length-strncpy (d ∷ ds) (c ∷ cs) (suc n) =
    ground (arith, length-strncpy ds [] n, length-strncpy ds cs n)

-- A string shorter than the count, and than the buffer, arrives whole and terminated.
pub c_str-strncpy :
    (dst src : List ℕ) (n : ℕ)
    → length (c_str src) < n
    → n ≤ length dst
    → c_str (strncpy dst src n) ≡ c_str src
unfolding strncpy c_str
c_str-strncpy [] src n h k = absurd (omega arith)
c_str-strncpy (d ∷ ds) src zero h k = absurd (omega arith)
c_str-strncpy (d ∷ ds) [] (suc n) h k = refl
c_str-strncpy (d ∷ ds) (c ∷ cs) (suc n) h k = ground (arith, c_str-strncpy ds cs n)
