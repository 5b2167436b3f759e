-- ===== src/Dispatch/Lookup.antt =====
-- get_syscall_fn against the lookup in the records that the vector's nodes carry.
use perprocess_syscall_tbl.Prelude.{
  ℕ, zero, suc, ◌≡◌, refl, ap, ◌∙◌, ℤ, pos, ◌==ℤ◌, -ℤ_eq_zero, Bool, true, false, Option, none,
  some, List, [], ◌∷◌, arith, get_elem?, find_idx, if◌then◌else◌, inl, inr, Option-cases,
  find_idx-eq_some,
}
use perprocess_syscall_tbl.Ring.Order.{Loads}
use perprocess_syscall_tbl.Ring.Search.{get_node-find_idx, Loads-get_elem?}
use perprocess_syscall_tbl.Kernel.{Ptr, Syscall, SyscallVector, State, done, lift}
use perprocess_syscall_tbl.Vectors.Search.{position, get_syscall_vector-position}
use perprocess_syscall_tbl.Blocking.{is_syscall_blocked}
use perprocess_syscall_tbl.Dispatch.{
  cmp_syscall_by_syscall_num, numbered, get_syscall_of_syscall_vector, enoent_fn, enosys_fn,
  get_syscall_fn,
}

-- The position of the first record with a number.
abbrev pub number_position : ℤ → List Syscall → Option ℕ
number_position n ds = find_idx (λ d. d.syscall_num ==ℤ n) ds

-- The function of the first record with a number, and 0 where there is none.
unfoldable pub served : ℤ → List Syscall → ℕ
served n [] = 0
served n (d ∷ ds) = if d.syscall_num ==ℤ n then d.fptr else served n ds

find_idx-cmp :
    (n : ℤ) (ds : List Syscall)
    → find_idx (λ d. cmp_syscall_by_syscall_num d (numbered n) ==ℤ pos 0) ds ≡ number_position n ds
unfolding find_idx cmp_syscall_by_syscall_num
find_idx-cmp n [] = refl
find_idx-cmp n (d ∷ ds) = rw (-ℤ_eq_zero n d.syscall_num, find_idx-cmp n ds)

-- The search through a vector's nodes is the search through their records.
pub get_syscall_of_syscall_vector-position :
    (nums : List Ptr) (n : ℤ) (s : State) (ds : List Syscall)
    → Loads s.heap nums ds
    → get_syscall_of_syscall_vector nums n s ≡ done (number_position n ds) s
unfolding get_syscall_of_syscall_vector
get_syscall_of_syscall_vector-position nums n s ds live =
    ap (λ r. lift r s)
      (get_node-find_idx s.heap cmp_syscall_by_syscall_num (numbered n) nums ds live
        ∙ ap some (find_idx-cmp n ds))

served-none : (n : ℤ) (ds : List Syscall) → number_position n ds ≡ none → served n ds ≡ 0
unfolding served find_idx
served-none n [] e = refl
served-none n (d ∷ ds) e = ground (arith, served-none n ds)

served-some :
    (n : ℤ) (ds : List Syscall) (k : ℕ) (d : Syscall)
    → number_position n ds ≡ some k
    → get_elem? ds k ≡ some d
    → served n ds ≡ d.fptr
unfolding served find_idx
served-some n [] k d e at = ground arith
served-some n (c ∷ ds) zero d e at = ground arith
served-some n (c ∷ ds) (suc k) d e at = ground (arith, served-some n ds k d)

module _ (s : State) (free : s.lock ≡ false) (w n : ℤ) where
  pub get_syscall_fn-none :
      position w s.vector_list ≡ none → get_syscall_fn w n s ≡ done enoent_fn s
  unfolding get_syscall_fn
  get_syscall_fn-none e = ground (arith, get_syscall_vector-position w (record s { lock = true }))

  -- get_syscall_fn of a vector that there is, whose nodes carry the records `ds`, for a number of the
  -- bitmap: -ENOSYS where the number is blocked, else the function of the record with that number, or
  -- 0. It changes nothing.
  pub get_syscall_fn-served :
      (i : ℕ) (v : SyscallVector) (b : Bool) (ds : List Syscall)
      → position w s.vector_list ≡ some i
      → get_elem? s.vector_list i ≡ some v
      → is_syscall_blocked n v.blocked ≡ some b
      → Loads s.heap v.syscall_num_list ds
      → get_syscall_fn w n s ≡ done (if b then enosys_fn else served n ds) s
  unfolding get_syscall_fn
  get_syscall_fn-served i v b ds e at bit live = elim (Option-cases (number_position n ds)) [
    | inl missing ↦ ground (
      arith,
      get_syscall_vector-position w (record s { lock = true }),
      get_syscall_of_syscall_vector-position v.syscall_num_list n (record s { lock = true }) ds
          live,
      served-none n ds,
    )
    | inr (k, found) ↦
        let (d, there, _) = find_idx-eq_some _ ds k found in
        let (p, node, loaded) = Loads-get_elem? s.heap v.syscall_num_list ds k d live there in
        ground (
          arith,
          get_syscall_vector-position w (record s { lock = true }),
          get_syscall_of_syscall_vector-position v.syscall_num_list n (record s { lock = true }) ds
              live,
          served-some n ds k d found there,
        )
  ]
