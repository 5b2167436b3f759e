-- ===== src/Contract/Blocks.antt =====
-- block_syscall_num and unblock_syscall_num follow the specification.
use mathlib.Core.Path.{fun_ext}
use perprocess_syscall_tbl.Prelude.{
  ℕ, ◌*◌, ◌/◌, ◌%◌, ◌<◌, ltb, ◌≡◌, refl, sym, ap, ◌∙◌, subst, ℤ, pos, Bool, true, false, some,
  is_some, List, arith, length, modify, get_elem?-modify, Option-cases, Bool-cases, inl, inr,
}
use perprocess_syscall_tbl.Kernel.{Ptr, ModuleCall, State, done}
use perprocess_syscall_tbl.Vectors.{num_syscalls}
use perprocess_syscall_tbl.Vectors.Search.{position}
use perprocess_syscall_tbl.Assignment.Counts.{position-modify}
use perprocess_syscall_tbl.Blocking.{
  set_bit, clear_bit, update_blocked, block_syscall_num, unblock_syscall_num,
}
use perprocess_syscall_tbl.Blocking.Bits.{IsBitWrite, set_bit-IsBitWrite, clear_bit-IsBitWrite}
use perprocess_syscall_tbl.Blocking.Bitmap.{IsBytes, is_syscall_blocked-update}
use perprocess_syscall_tbl.Dispatch.Blocked.{after, update_blocked-after, with_blocked}
use perprocess_syscall_tbl.Contract.{put_bit, marking}
use perprocess_syscall_tbl.Contract.View.{
  blocked_of, vector_of, view, view-some, view-put_id, view-parts,
}
use perprocess_syscall_tbl.Contract.Promise.{Follows, call_end}
use perprocess_syscall_tbl.System.{Call, InRange, Allowed, named, perform, block, unblock}
use perprocess_syscall_tbl.System.Invariant.{Sound}
use perprocess_syscall_tbl.System.Spares.{Spares}
use perprocess_syscall_tbl.System.Mapped.{entry}

blocked_of-update :
    (g : ℕ → ℕ → ℕ) (b : Bool)
    → IsBitWrite g b
    → (bits : List ℕ) (n : ℕ) → IsBytes bits
    → length bits ≡ num_syscalls
    → n < 8 * num_syscalls
    → blocked_of (modify bits (n / 8) (λ c. g c (n % 8))) ≡ put_bit (pos n) b (blocked_of bits)
unfolding blocked_of
blocked_of-update g b bw bits n bytes whole small = fun_ext λ m. at m
  where
    at :
        (m : ℕ)
        → blocked_of (modify bits (n / 8) (λ c. g c (n % 8))) m
          ≡ put_bit (pos n) b (blocked_of bits) m
    at m = elim (Bool-cases (ltb m (8 * num_syscalls))) [
      | inl inside ↦
          let lt : m < 8 * num_syscalls = ground (arith, inside) in
          rw
            (is_syscall_blocked-update g b bw bits bytes n (omega (arith, whole)) m
              (omega (arith, whole)))
            (ground (arith, inside))
      | inr outside ↦ ground (arith, outside)
    ]

module _ (count : Ptr → List ModuleCall → ℕ) (s : State) (sound : Sound s) where
  marked :
      (call : Call) (g : ℕ → ℕ → ℕ) (b : Bool)
      → IsBitWrite g b
      → (w : ℤ) (n : ℕ) → perform count call s ≡ update_blocked g w (pos n) s
      → Allowed call s
      → ((rc : ℤ) → named call rc ≡ some w)
      → (i : ℕ) → position w s.vector_list ≡ some i
      → n < 8 * num_syscalls
      → (rc : ℤ) × (t : State) × (perform count call s ≡ done rc t)
        × ((rc, view t) ≡ marking b w (pos n) ((view s).vectors w) (view s))
  marked call g b bw w n op allowed about i found small =
      let (v, at, m, there) = entry s sound w i found in
      let inside : n < 8 * length v.blocked = omega (arith, m.whole) in
      let bits : List ℕ = modify v.blocked (n / 8) (λ c. g c (n % 8)) in
      let t : State = after g b bw s w i v m.calls there n inside in
      let e = op ∙ update_blocked-after g b bw s w i v m.calls there n inside in
      let (_, spares) = call_end count call s t (pos 0) sound allowed e in
      let now =
        view-some t w i (with_blocked bits v) m.calls
          (position-modify (with_blocked bits) (λ u. refl) w s.vector_list i ∙ found)
          (get_elem?-modify s.vector_list i (with_blocked bits) v at) m.live in
      let new =
        ap (λ f. some (record (vector_of v.blocked m.calls) { blocked = f }))
          (blocked_of-update g b bw v.blocked n m.bytes m.whole small) in
      let was = view-some s w i v m.calls found at m.live in
      (
        pos 0,
        t,
        e,
        ap (λ a. (pos 0, a))
              (view-parts t refl
                (view-put_id s t w _ sound (subst (λ x. Spares x s t) (about (pos 0)) spares)
                  (now ∙ new))
                refl refl refl)
            ∙ sym (ap (λ o. marking b w (pos n) o (view s)) was),
      )

  in_range :
      (call : Call) (g : ℕ → ℕ → ℕ) (b : Bool)
      → IsBitWrite g b
      → (w num : ℤ) → perform count call s ≡ update_blocked g w num s
      → Allowed call s
      → ((rc : ℤ) → named call rc ≡ some w)
      → InRange w num s
      → (rc : ℤ) × (t : State) × (perform count call s ≡ done rc t)
        × ((rc, view t) ≡ marking b w num ((view s).vectors w) (view s))
  in_range call g b bw w num op allowed about (there, n, e, small) =
      elim (Option-cases (position w s.vector_list)) [
        | inl gone ↦ cc (ap is_some gone, there)
        | inr (i, found) ↦
            subst
              (λ x.
                (rc : ℤ) × (t : State) × (perform count call s ≡ done rc t)
                × ((rc, view t) ≡ marking b w x ((view s).vectors w) (view s)))
              (sym e)
              (marked call g b bw w n (op ∙ ap (λ x. update_blocked g w x s) e) allowed about i
                found small)
      ]

  pub block-Follows : (id w num : ℤ) → InRange w num s → Follows count id (block w num) s
  unfolding block_syscall_num
  block-Follows id w num range =
      in_range (block w num) set_bit true set_bit-IsBitWrite w num refl range (λ rc. refl) range

  pub unblock-Follows : (id w num : ℤ) → InRange w num s → Follows count id (unblock w num) s
  unfolding unblock_syscall_num
  unblock-Follows id w num range =
      in_range (unblock w num) clear_bit false clear_bit-IsBitWrite w num refl range (λ rc. refl)
        range
