-- ===== src/Report/Entries.antt =====
-- What get_syscall_tbl_info writes, and where it leaves the arrays.
use perprocess_syscall_tbl.Prelude.{
  dec_lt, ltb, ℕ, suc, ◌+◌, ◌≤◌, ◌<◌, ◌≡◌, refl, ap, pos, Option, none, some, List, [], ◌∷◌, All,
  arith, length, if◌then◌else◌,
}
use perprocess_syscall_tbl.Strings.{c_str, strlen}
use perprocess_syscall_tbl.Ring.Order.{Loads}
use perprocess_syscall_tbl.Kernel.{Ptr, Syscall, SyscallVector, State, done, fault}
use perprocess_syscall_tbl.Report.{
  SyscallVectorInfo, info_names, info_vectors, get_syscall_tbl_info,
}

-- The names of a vector's records.
abbrev pub names : List Syscall → List (List ℕ)
names [] = []
names (c ∷ cs) = c_str c.name ∷ names cs

-- One entry for each vector.
abbrev pub entries : List SyscallVector → List (List Syscall) → List SyscallVectorInfo
entries [] css = []
entries (v ∷ vs) [] = []
entries (v ∷ vs) (cs ∷ css) =
    record { vector_id = v.id; size = length cs; syscalls = names cs } ∷ entries vs css

-- The records behind the vectors' lists, each small enough for its array.
abbrev pub Fitting : (Ptr → Option Syscall) → List SyscallVector → List (List Syscall) → Type 0
Fitting heap [] [] = Unit
Fitting heap [] (cs ∷ css) = Unit {0} → ⊥
Fitting heap (v ∷ vs) [] = Unit {0} → ⊥
Fitting heap (v ∷ vs) (cs ∷ css) =
    (Loads heap v.syscall_num_list cs)
    × (length cs ≤ 20)
    × All (λ c. strlen c.name ≤ 63) cs
    × Fitting heap vs css

length-names : (cs : List Syscall) → length (names cs) ≡ length cs
length-names [] = refl
length-names (c ∷ cs) = ap suc (length-names cs)

info_names-names :
    (heap : Ptr → Option Syscall) (ps : List Ptr) (cs : List Syscall) (j : ℕ)
    → Loads heap ps cs
    → All (λ c. strlen c.name ≤ 63) cs
    → j + length cs ≤ 20
    → info_names heap ps j ≡ some (names cs)
unfolding info_names
info_names-names heap [] [] j h short room = refl
info_names-names heap [] (c ∷ cs) j h short room = absurd (h tt)
info_names-names heap (p ∷ ps) [] j h short room = absurd (h tt)
info_names-names heap (p ∷ ps) (c ∷ cs) j (e, h) (s, short) room =
    rw (e, info_names-names heap ps cs (suc j) h short (omega arith)) (ground arith)

info_vectors-entries :
    (heap : Ptr → Option Syscall) (vs : List SyscallVector) (css : List (List Syscall)) (i : ℕ)
    → Fitting heap vs css
    → i + length vs ≤ 10
    → info_vectors heap vs i ≡ some (entries vs css)
unfolding info_vectors
info_vectors-entries heap [] [] i h room = refl
info_vectors-entries heap [] (cs ∷ css) i h room = absurd (h tt)
info_vectors-entries heap (v ∷ vs) [] i h room = absurd (h tt)
info_vectors-entries heap (v ∷ vs) (cs ∷ css) i (live, few, short, h) room =
    rw
      (
        info_names-names heap v.syscall_num_list cs 0 live short (omega arith),
        info_vectors-entries heap vs css (suc i) h (omega arith),
        length-names cs,
      )
      (ground arith)

info_vectors-overrun :
    (heap : Ptr → Option Syscall) (v : SyscallVector) (vs : List SyscallVector) (i : ℕ)
    → 10 ≤ i + length vs
    → info_vectors heap (v ∷ vs) i ≡ none
unfolding info_vectors
info_vectors-overrun heap v [] i many = ground arith
info_vectors-overrun heap v (x ∷ vs) i many =
    ground (arith, info_vectors-overrun heap x vs (suc i) (omega arith))

length-entries :
    (heap : Ptr → Option Syscall) (vs : List SyscallVector) (css : List (List Syscall))
    → Fitting heap vs css
    → length (entries vs css) ≡ length vs
length-entries heap [] css h = refl
length-entries heap (v ∷ vs) [] h = absurd (h tt)
length-entries heap (v ∷ vs) (cs ∷ css) (_, _, _, h) = ap suc (length-entries heap vs css h)

report_fits :
    (s : State) (css : List (List Syscall))
    → Fitting s.heap s.vector_list css
    → length s.vector_list ≤ 10
    → get_syscall_tbl_info s
      ≡ done
          (
            pos 0,
            record { size = length s.vector_list; syscall_vector_info = entries s.vector_list css },
          )
          s
unfolding get_syscall_tbl_info
report_fits s css fits few =
    rw
      (
        info_vectors-entries s.heap s.vector_list css 0 fits (omega arith),
        length-entries s.heap s.vector_list css fits,
      )
      refl

overrun :
    (heap : Ptr → Option Syscall) (vs : List SyscallVector)
    → 10 < length vs
    → info_vectors heap vs 0 ≡ none
overrun heap [] many = ground arith
overrun heap (v ∷ vs) many = info_vectors-overrun heap v vs 0 (omega arith)

report_overruns : (s : State) → 10 < length s.vector_list → get_syscall_tbl_info s ≡ fault
unfolding get_syscall_tbl_info
report_overruns s many = rw (overrun s.heap s.vector_list many) refl

-- With at most 10 vectors of at most 20 live system calls, whose names have at most 63 characters,
-- get_syscall_tbl_info returns 0 and one entry for each vector in the order of the ring, with its id
-- and its names in order, and changes nothing; with more than 10 vectors it writes behind the array.
pub get_syscall_tbl_info-entries :
    (s : State) (css : List (List Syscall))
    → Fitting s.heap s.vector_list css
    → get_syscall_tbl_info s ≡ (
        if ltb 10 (length s.vector_list)
        then fault
        else done
            (
              pos 0,
              record {
                size = length s.vector_list;
                syscall_vector_info = entries s.vector_list css;
              },
            )
            s)
get_syscall_tbl_info-entries s css fits = elim (dec_lt 10 (length s.vector_list)) [
  | yes many ↦ ground (arith, report_overruns s many)
  | no few ↦ ground (arith, report_fits s css fits (omega arith))
]
