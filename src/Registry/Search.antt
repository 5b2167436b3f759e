-- ===== src/Registry/Search.antt =====
-- get_syscall as a search by name, for names that fit the buffers with their NUL.
use perprocess_syscall_tbl.Prelude.{
  ℕ, ◌<◌, ◌≡◌, refl, ap, ◌∙◌, ℤ, pos, ◌==ℤ◌, leb_ℤ, false, Option, some, List, [], ◌∷◌, All, arith,
  length, find_idx, ltb,
}
use perprocess_syscall_tbl.Strings.{c_str, strncpy}
use perprocess_syscall_tbl.Strings.Compare.{
  compare_names, strncmp-c_str, compare_names_trans, compare_names-flip, compare_names-one,
  compare_names_refl, compare_names-eq,
}
use perprocess_syscall_tbl.Strings.Copy.{c_str-strncpy}
use perprocess_syscall_tbl.Ring.Order.{IsComparator, Loads}
use perprocess_syscall_tbl.Ring.Search.{get_node-find_idx}
use perprocess_syscall_tbl.Kernel.{Syscall, State, done, lift}
use perprocess_syscall_tbl.Registry.{cmp_syscall_by_name, named, get_syscall}

-- A name that fits in 63 bytes with its NUL. (A name of exactly 63 bytes passes the code's check too,
-- but its last byte, the NUL, is never written.)
abbrev pub IsShort : List ℕ → Type 0
IsShort name = length (c_str name) < 63

-- The order that cmp_syscall_by_name gives such names.
unfoldable pub by_name : Syscall → Syscall → ℤ
by_name first second = compare_names (c_str second.name) (c_str first.name)

pub cmp_syscall_by_name-by_name :
    (c d : Syscall) → IsShort c.name → IsShort d.name → cmp_syscall_by_name c d ≡ by_name c d
unfolding cmp_syscall_by_name by_name
cmp_syscall_by_name-by_name c d h k = strncmp-c_str d.name c.name 64 (omega arith) (omega arith)

pub by_name-IsComparator : IsComparator by_name
unfolding by_name
by_name-IsComparator = record {
  trans = λ x y z h k. ap (leb_ℤ (pos 1)) (
      compare_names_trans (c_str z.name) (c_str y.name) (c_str x.name) (compare_names-one _ _ k)
        (compare_names-one _ _ h));
  connex = λ x y h k. ap (leb_ℤ (pos 1)) (
      compare_names-flip (c_str y.name) (c_str x.name)
        (λ e. cc (
          k,
          ap (λ r. r ==ℤ pos 0)
              (ap (compare_names (c_str x.name)) (compare_names-eq _ _ e)
                ∙ compare_names_refl (c_str x.name)),
        ))
        (λ e. cc));
}

-- The position of the record with a name.
abbrev pub name_position : List ℕ → List Syscall → Option ℕ
name_position name cs = find_idx (λ c. compare_names name (c_str c.name) ==ℤ pos 0) cs

find_idx-by_name :
    (find : Syscall) (name : List ℕ) (cs : List Syscall)
    → c_str find.name ≡ name
    → length name < 63
    → All (λ c. IsShort c.name) cs
    → find_idx (λ c. cmp_syscall_by_name c find ==ℤ pos 0) cs ≡ name_position name cs
unfolding find_idx by_name
find_idx-by_name find name [] e h short = refl
find_idx-by_name find name (c ∷ cs) e h short = rw (
  cmp_syscall_by_name-by_name c find short.0 (rw e h),
  find_idx-by_name find name cs e h short.1,
  e,
)

-- get_syscall only looks, and finds the first record with the name.
pub get_syscall-position :
    (temp name : List ℕ) (s : State) (cs : List Syscall)
    → length temp ≡ 64
    → IsShort name
    → All (λ c. IsShort c.name) cs
    → Loads s.heap s.syscall_list cs
    → get_syscall temp name s ≡ done (name_position (c_str name) cs) s
unfolding get_syscall
get_syscall-position temp name s cs full h short live = rw (check) (
    ap (λ r. lift r s)
      (get_node-find_idx s.heap cmp_syscall_by_name (named (strncpy temp name 63)) s.syscall_list cs
          live
        ∙ ap some (
            find_idx-by_name (named (strncpy temp name 63)) (c_str name) cs
              (c_str-strncpy temp name 63 h (omega arith)) h short)))
  where
    check : ltb 63 (length (c_str name)) ≡ false
    check = ground arith
