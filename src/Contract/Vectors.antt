-- ===== src/Contract/Vectors.antt =====
-- add_syscall_vector and remove_syscall_vector follow the specification.
use mathlib.Core.Path.{fun_ext}
use native.Mathlib.Nat.{zero-div}
use perprocess_syscall_tbl.Prelude.{
  ℕ, zero, suc, ◌*◌, ◌/◌, ◌%◌, ◌^◌, ltb, ltb_ℤ, ◌<ℤ◌, ◌≡◌, ◌≢◌, refl, sym, ap, ◌∙◌, subst, ℤ, pos,
  Bool, true, false, none, some, List, [], All, All-get_elem?, arith, length, replicate, get_elem?,
  get_elem?_lt, Option-cases, Bool-cases, inl, inr,
}
use perprocess_syscall_tbl.Kernel.{
  Ptr, SyscallVector, ModuleCall, State, done, enoent, enomem, ebusy,
}
use perprocess_syscall_tbl.Vectors.{
  num_syscalls, empty_vector, place_vector, add_syscall_vector, remove_syscall_vector,
}
use perprocess_syscall_tbl.Vectors.Ids.{
  Ascending-above, place_vector-Ascending, place_vector-get_elem?,
}
use perprocess_syscall_tbl.Vectors.Search.{
  position, position-eq_some, position-get_elem?, erase_idx-ne,
}
use perprocess_syscall_tbl.Vectors.Operations.{
  added, removed, add_syscall_vector-added, remove_syscall_vector-none, remove_syscall_vector-some,
}
use perprocess_syscall_tbl.Assignment.Users.{users}
use perprocess_syscall_tbl.Assignment.Counts.{Counted}
use perprocess_syscall_tbl.Blocking.{test_bit}
use perprocess_syscall_tbl.Blocking.Bitmap.{is_syscall_blocked-some}
use perprocess_syscall_tbl.Contract.{removing_vector}
use perprocess_syscall_tbl.Contract.Entries.{find_entry}
use perprocess_syscall_tbl.Contract.View.{
  blocked_of, vector_of, view, view-none, view-some, view-put_id, view-parts,
}
use perprocess_syscall_tbl.Contract.Promise.{Follows, call_end, unchanged}
use perprocess_syscall_tbl.System.{add_vector, remove_vector}
use perprocess_syscall_tbl.System.Invariant.{Sound}
use perprocess_syscall_tbl.System.Mapped.{entry}
use perprocess_syscall_tbl.System.Retire.{position-above, position-erase_idx}

-- The id that add_syscall_vector finds.
abbrev pub next_id : State → ℤ
next_id s = (place_vector empty_vector s.vector_list).1

abbrev zeros : ℕ → List ℕ
zeros n = replicate n 0

abbrev clear : List ℕ
clear = zeros num_syscalls

clear-All : (n : ℕ) → All (λ c. c ≡ 0) (zeros n)
unfolding replicate
clear-All zero = tt
clear-All (suc n) = (refl, clear-All n)

length-zeros : (n : ℕ) → length (zeros n) ≡ n
unfolding replicate
length-zeros zero = refl
length-zeros (suc n) = ap suc (length-zeros n)

test_bit-zero : (k : ℕ) → test_bit 0 k ≡ false
unfolding test_bit
test_bit-zero k = rw (zero-div (2 ^ k)) refl

blocked_of-clear : blocked_of clear ≡ (λ n. false)
unfolding blocked_of
blocked_of-clear = fun_ext λ n. at n
  where
    at : (n : ℕ) → blocked_of clear n ≡ false
    at n = elim (Bool-cases (ltb n (8 * num_syscalls))) [
      | inl inside ↦
          let (c, there) =
            get_elem?_lt clear (n / 8) (ground (arith, inside, length-zeros num_syscalls)) in
          rw
            (
              is_syscall_blocked-some clear n c there,
              All-get_elem? (λ x. x ≡ 0) clear (n / 8) c (clear-All num_syscalls) there,
              test_bit-zero (n % 8),
            )
            (ground arith)
      | inr outside ↦ rw outside refl
    ]

empty_Vector : vector_of clear [] ≡ record { blocked = λ n. false; entries = λ n. none }
unfolding find_entry
empty_Vector = ap (λ f. record { blocked = f; entries = λ n. none }) blocked_of-clear

module _ (count : Ptr → List ModuleCall → ℕ) (s : State) (sound : Sound s) where
  module _ (room : All (λ v. v.id <ℤ pos 32767) s.vector_list) where
    -- The id is new and positive.
    pub next_id-fresh : (pos 0 <ℤ next_id s) × ((view s).vectors (next_id s) ≡ none)
    unfolding empty_vector
    next_id-fresh =
        let ring : List SyscallVector = (place_vector empty_vector s.vector_list).2 in
        let (i, here, rest) = place_vector-get_elem? empty_vector s.vector_list in
        let sorted = place_vector-Ascending empty_vector s.vector_list sound.tallied.ids room in
        (
          All-get_elem? (λ v. pos 0 <ℤ v.id) ring i _ (Ascending-above (pos 0) ring sorted) here,
          view-none s (next_id s) (
              position-above (next_id s) s.vector_list (
                subst (All λ v. v.id ≢ next_id s) rest
                  (erase_idx-ne (pos 0) ring i _ sorted here))),
        )

    pub add_vector-Follows : (allocated : Bool) → Follows count (next_id s) (add_vector allocated) s
    unfolding add_syscall_vector empty_vector
    add_vector-Follows false = unchanged count (next_id s) (add_vector false) s enomem refl refl
    add_vector-Follows true =
        let ring : List SyscallVector = (place_vector empty_vector s.vector_list).2 in
        let (i, here, rest) = place_vector-get_elem? empty_vector s.vector_list in
        let sorted = place_vector-Ascending empty_vector s.vector_list sound.tallied.ids room in
        let e = add_syscall_vector-added s sound.tallied.free in
        let (_, spares) = call_end count (add_vector true) s (added s) (next_id s) sound room e in
        let now =
          view-some (added s) (next_id s) i (record empty_vector { id = next_id s }) []
            (position-get_elem? (pos 0) ring i _ sorted here) here tt in
        (
          next_id s,
          added s,
          e,
          ap (λ a. (next_id s, a))
              (view-parts (added s) refl
                (view-put_id s (added s) (next_id s) _ sound spares (now ∙ ap some empty_Vector))
                refl refl refl),
        )

  refuses :
      (id : ℤ) (i : ℕ) (v : SyscallVector)
      → get_elem? s.vector_list i ≡ some v
      → v.id ≡ id
      → ltb_ℤ (pos 0) v.refcnt ≡ ltb 0 (users id s.tasks)
  refuses id i v at same =
      let (_, counts) = All-get_elem? (Counted s.tasks) s.vector_list i v sound.tallied.counts at in
      rw (counts, same) (ground arith)

  pub remove_vector-Follows : (x id : ℤ) → Follows count x (remove_vector id) s
  remove_vector-Follows x id = elim (Option-cases (position id s.vector_list)) [
    | inl gone ↦
        unchanged count x (remove_vector id) s enoent
          (remove_syscall_vector-none id s sound.tallied.free gone)
          (ap (λ o. removing_vector id o (view s)) (view-none s id gone))
    | inr (i, found) ↦
        let (v, at, same) = position-eq_some id s.vector_list i found in
        let (v', at', m, _) = entry s sound id i found in
        let was =
          ap (λ o. removing_vector id o (view s)) (view-some s id i v' m.calls found at' m.live) in
        let e = remove_syscall_vector-some id s sound.tallied.free i v found at in
        let test = refuses id i v at same in
        elim (Bool-cases (ltb 0 (users id s.tasks))) [
          | inl used ↦
              unchanged count x (remove_vector id) s ebusy (e ∙ rw (test ∙ used) refl)
                (was ∙ rw used refl)
          | inr idle ↦
              let e' : remove_syscall_vector id s ≡ done (pos 0) (removed i s) =
                e ∙ rw (test ∙ idle) refl in
              let (_, spares) =
                call_end count (remove_vector id) s (removed i s) (pos 0) sound tt e' in
              (
                pos 0,
                removed i s,
                e',
                ap (λ a. (pos 0, a))
                      (view-parts (removed i s) refl
                        (view-put_id s (removed i s) id none sound spares (
                          view-none (removed i s) id (
                            position-erase_idx id (pos 0) s.vector_list i sound.tallied.ids found)))
                        refl refl refl)
                    ∙ sym (was ∙ rw idle refl),
              )
        ]
  ]
