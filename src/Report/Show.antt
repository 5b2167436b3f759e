-- ===== src/Report/Show.antt =====
-- What syscall_module/syscall_tbl.c prints: show_syscall_tbl from the rings, and show_syscall_tbl_test
-- from the arrays that get_syscall_tbl_info filled. The calls of printk are a list, one constructor for
-- each format.
use perprocess_syscall_tbl.Prelude.{
  ℕ, zero, suc, map, ◌≡◌, refl, sym, ap, ℤ, pos, Option, none, some, List, [], ◌∷◌, ◌++◌, length,
}
use perprocess_syscall_tbl.Strings.{c_str}
use perprocess_syscall_tbl.Ring.Order.{Loads}
use perprocess_syscall_tbl.Kernel.{Ptr, Syscall, SyscallVector, State, M, done, read}
use perprocess_syscall_tbl.Report.{SyscallVectorInfo, SyscallTblInfo}
use perprocess_syscall_tbl.Report.Entries.{names, entries, Fitting}

pub data Printk : Type 0 where
  vectors_title calls_title mapping_title newline : Printk
  id : ℤ → Printk  -- "%d "
  name : List ℕ → Printk  -- "%s "
  vector : ℤ → Printk  -- "Syscall Vector : %d - "

infixl 5 ◌>>=◌
abbrev ◌>>=◌ : {A B : Type 0} → Option A → (A → Option B) → Option B
none >>= f = none
some a >>= f = f a

-- The loops of show_syscall_tbl.
unfoldable pub show_ids : List SyscallVector → List Printk
show_ids [] = []
show_ids (v ∷ vs) = id v.id ∷ show_ids vs

unfoldable pub show_names : (Ptr → Option Syscall) → List Ptr → Option (List Printk)
show_names heap [] = some []
show_names heap (p ∷ ps) = do
  c ← heap p
  rest ← show_names heap ps
  some (name (c_str c.name) ∷ rest)

unfoldable pub show_vectors : (Ptr → Option Syscall) → List SyscallVector → Option (List Printk)
unfolding show_names
show_vectors heap [] = some []
show_vectors heap (v ∷ vs) = do
  calls ← show_names heap v.syscall_num_list
  rest ← show_vectors heap vs
  some (vector v.id ∷ (calls ++ rest))

unfoldable pub show_syscall_tbl : M (ℤ × List Printk)
unfolding show_ids show_names show_vectors
show_syscall_tbl = read λ s. do
  calls ← show_names s.heap s.syscall_list
  vectors ← show_vectors s.heap s.vector_list
  some (
    pos 0,
    vectors_title
        ∷ (show_ids s.vector_list
            ++ (newline
                ∷ calls_title
                ∷ (calls ++ (newline ∷ mapping_title ∷ (vectors ++ (newline ∷ [])))))),
  )

-- The loops of show_syscall_tbl_test, bounded by the two `size` fields; none is a read of an entry that was
-- not filled in.
unfoldable pub show_info_names : ℕ → List (List ℕ) → Option (List Printk)
show_info_names zero ns = some []
show_info_names (suc size) [] = none
show_info_names (suc size) (n ∷ ns) = do rest ← show_info_names size ns; some (name n ∷ rest)

unfoldable pub show_infos : ℕ → List SyscallVectorInfo → Option (List Printk)
unfolding show_info_names
show_infos zero vs = some []
show_infos (suc size) [] = none
show_infos (suc size) (v ∷ vs) = do
  calls ← show_info_names v.size v.syscalls
  rest ← show_infos size vs
  some (vector v.vector_id ∷ (calls ++ (newline ∷ rest)))

unfoldable pub show_syscall_tbl_test : SyscallTblInfo → Option (ℤ × List Printk)
unfolding show_infos
show_syscall_tbl_test info = do
  lines ← show_infos info.size info.syscall_vector_info
  some (pos 0, lines)

-- The calls but those that end a line.
abbrev pub one_line : List Printk → List Printk
one_line [] = []
one_line (newline ∷ ps) = one_line ps
one_line (vectors_title ∷ ps) = vectors_title ∷ one_line ps
one_line (calls_title ∷ ps) = calls_title ∷ one_line ps
one_line (mapping_title ∷ ps) = mapping_title ∷ one_line ps
one_line (id x ∷ ps) = id x ∷ one_line ps
one_line (name x ∷ ps) = name x ∷ one_line ps
one_line (vector x ∷ ps) = vector x ∷ one_line ps

-- The ids of the ring, and names.
abbrev pub printed_ids : List SyscallVector → List Printk
printed_ids vs = map (λ (v : SyscallVector). id v.id) vs

abbrev pub printed_names : List (List ℕ) → List Printk
printed_names ns = map name ns

show_ids-map : (vs : List SyscallVector) → show_ids vs ≡ printed_ids vs
unfolding show_ids
show_ids-map [] = refl
show_ids-map (v ∷ vs) = ap (λ l. id v.id ∷ l) (show_ids-map vs)

show_names-names :
    (heap : Ptr → Option Syscall) (ps : List Ptr) (cs : List Syscall)
    → Loads heap ps cs
    → show_names heap ps ≡ some (printed_names (names cs))
unfolding show_names
show_names-names heap [] [] h = refl
show_names-names heap [] (c ∷ cs) h = absurd (h tt)
show_names-names heap (p ∷ ps) [] h = absurd (h tt)
show_names-names heap (p ∷ ps) (c ∷ cs) (e, h) = rw (e, show_names-names heap ps cs h) refl

show_info_names-all :
    (cs : List Syscall) → show_info_names (length cs) (names cs) ≡ some (printed_names (names cs))
unfolding show_info_names
show_info_names-all [] = refl
show_info_names-all (c ∷ cs) = rw (show_info_names-all cs) refl

one_line-names :
    (ns : List (List ℕ)) (ps : List Printk)
    → one_line (printed_names ns ++ (newline ∷ ps)) ≡ printed_names ns ++ one_line ps
one_line-names [] ps = refl
one_line-names (n ∷ ns) ps = ap (λ l. name n ∷ l) (one_line-names ns ps)

show_vectors-infos :
    (heap : Ptr → Option Syscall) (vs : List SyscallVector) (css : List (List Syscall))
    → Fitting heap vs css
    → (lines : List Printk) × (show_infos (length vs) (entries vs css) ≡ some lines)
      × (show_vectors heap vs ≡ some (one_line lines))
unfolding show_vectors show_infos
show_vectors-infos heap [] [] h = ([], refl, refl)
show_vectors-infos heap [] (cs ∷ css) h = absurd (h tt)
show_vectors-infos heap (v ∷ vs) [] h = absurd (h tt)
show_vectors-infos heap (v ∷ vs) (cs ∷ css) (live, _, _, h) =
    let (lines, of_infos, of_ring) = show_vectors-infos heap vs css h in
    (
      vector v.id ∷ (printed_names (names cs) ++ (newline ∷ lines)),
      rw (show_info_names-all cs, of_infos) refl,
      rw (show_names-names heap v.syscall_num_list cs live, of_ring)
          (ap (λ l. some (vector v.id ∷ l)) (sym (one_line-names (names cs) lines))),
    )

-- With at most 20 live system calls in each vector, with names that fit, and live registered calls,
-- show_syscall_tbl_test of the report with one entry for each vector returns 0 and prints some lines, and
-- show_syscall_tbl returns 0, changes nothing and prints every id of the ring in order, the name of every
-- registered call in order, and the same lines, but on one.
pub show_syscall_tbl-test :
    (s : State) (cs : List Syscall) (css : List (List Syscall))
    → Loads s.heap s.syscall_list cs
    → Fitting s.heap s.vector_list css
    → (lines : List Printk) × (show_syscall_tbl_test
          (record { size = length s.vector_list; syscall_vector_info = entries s.vector_list css })
        ≡ some (pos 0, lines))
      × (show_syscall_tbl s
          ≡ done
              (
                pos 0,
                vectors_title
                    ∷ (printed_ids s.vector_list
                        ++ (newline
                            ∷ calls_title
                            ∷ (printed_names (names cs)
                                ++ (newline
                                    ∷ mapping_title
                                    ∷ (one_line lines ++ (newline ∷ [])))))),
              )
              s)
unfolding show_syscall_tbl show_syscall_tbl_test
show_syscall_tbl-test s cs css live fits =
    let (lines, of_infos, of_ring) = show_vectors-infos s.heap s.vector_list css fits in
    (
      lines,
      rw of_infos refl,
      rw (show_names-names s.heap s.syscall_list cs live, of_ring, show_ids-map s.vector_list) refl,
    )
