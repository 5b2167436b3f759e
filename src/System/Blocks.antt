-- ===== src/System/Blocks.antt =====
-- block_syscall_num and unblock_syscall_num keep the invariant of the whole table.
use perprocess_syscall_tbl.Prelude.{
  ℕ, ◌*◌, ◌/◌, ◌%◌, ◌<◌, ◌≡◌, refl, sym, ◌∙◌, subst, ℤ, pos, Bool, true, false, some, arith, length,
  length-modify, Option-cases, inl, inr, modify,
}
use perprocess_syscall_tbl.Kernel.{State, Outcome}
use perprocess_syscall_tbl.Vectors.{num_syscalls}
use perprocess_syscall_tbl.Vectors.Search.{position}
use perprocess_syscall_tbl.Blocking.{
  set_bit, clear_bit, update_blocked, block_syscall_num, unblock_syscall_num,
}
use perprocess_syscall_tbl.Blocking.Bits.{IsBitWrite, set_bit-IsBitWrite, clear_bit-IsBitWrite}
use perprocess_syscall_tbl.Blocking.Bitmap.{modify-IsBytes}
use perprocess_syscall_tbl.Dispatch.Blocked.{after, update_blocked-after, with_blocked}
use perprocess_syscall_tbl.System.{InRange}
use perprocess_syscall_tbl.System.Invariant.{Sound, Ends, just}
use perprocess_syscall_tbl.System.Spares.{modify-Spares}
use perprocess_syscall_tbl.System.Mapped.{revised, entry}

module _ (s : State) (sound : Sound s) where
  update-Ends :
      (g : ℕ → ℕ → ℕ) (b : Bool)
      → IsBitWrite g b
      → (w : ℤ) (i n : ℕ) → position w s.vector_list ≡ some i
      → n < 8 * num_syscalls
      → Ends (just w) s (update_blocked g w (pos n) s)
  update-Ends g b bw w i n found small =
      let (v, at, m, there) = entry s sound w i found in
      let inside : n < 8 * length v.blocked = omega (arith, m.whole) in
      (
        pos 0,
        after g b bw s w i v m.calls there n inside,
        update_blocked-after g b bw s w i v m.calls there n inside,
        revised s sound _ (with_blocked (modify v.blocked (n / 8) (λ c. g c (n % 8)))) i v
            (λ u. refl) (λ u. refl) at refl refl refl refl refl
            (record {
              calls = m.calls;
              live = m.live;
              sorted = m.sorted;
              bytes = modify-IsBytes g b bw v.blocked (n / 8) (n % 8) (omega arith) m.bytes;
              whole = length-modify v.blocked (n / 8) _ ∙ m.whole;
            }),
        modify-Spares s _ (with_blocked (modify v.blocked (n / 8) (λ c. g c (n % 8)))) (λ u. refl) w
            i found refl refl,
      )

  in_range :
      (m : ℤ → ℤ → State → Outcome ℤ) (w num : ℤ)
      → InRange w num s
      → ((i n : ℕ)
          → position w s.vector_list ≡ some i
          → n < 8 * num_syscalls
          → Ends (just w) s (m w (pos n) s))
      → Ends (just w) s (m w num s)
  in_range m w num (known, n, e, small) k = elim (Option-cases (position w s.vector_list)) [
    | inl gone ↦ cc (gone, known)
    | inr (i, found) ↦ subst (λ x. Ends (just w) s (m w x s)) (sym e) (k i n found small)
  ]

  pub block-Ends : (w num : ℤ) → InRange w num s → Ends (just w) s (block_syscall_num w num s)
  unfolding block_syscall_num
  block-Ends w num range =
      in_range (update_blocked set_bit) w num range
        λ i n found small. update-Ends set_bit true set_bit-IsBitWrite w i n found small

  pub unblock-Ends : (w num : ℤ) → InRange w num s → Ends (just w) s (unblock_syscall_num w num s)
  unfolding unblock_syscall_num
  unblock-Ends w num range =
      in_range (update_blocked clear_bit) w num range
        λ i n found small. update-Ends clear_bit false clear_bit-IsBitWrite w i n found small
