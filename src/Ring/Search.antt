-- ===== src/Ring/Search.antt =====
-- `get_node` and `remove_node` over nodes whose data is live.
use perprocess_syscall_tbl.Prelude.{
  ℕ, zero, suc, ◌≡◌, refl, ℤ, pos, ◌∙◌, Option, some, List, [], ◌∷◌, arith, ◌==ℤ◌, get_elem?,
  find_idx, erase_idx,
}
use perprocess_syscall_tbl.Ring.{get_node, remove_node}
use perprocess_syscall_tbl.Ring.Order.{Loads}

module _ {ℓ κ} {A : Type ℓ} {B : Type κ} (load : A → Option B) where
  -- The walk is the search over the data, and reads no dead memory.
  pub get_node-find_idx :
      (fn : B → B → ℤ) (find : B) (ps : List A) (bs : List B)
      → Loads load ps bs
      → get_node load fn find ps ≡ some (find_idx (λ b. fn b find ==ℤ pos 0) bs)
  unfolding get_node find_idx
  get_node-find_idx fn find [] [] h = refl
  get_node-find_idx fn find [] (b ∷ bs) h = absurd (h tt)
  get_node-find_idx fn find (p ∷ ps) [] h = absurd (h tt)
  get_node-find_idx fn find (p ∷ ps) (b ∷ bs) h =
      rw (h.0, get_node-find_idx fn find ps bs h.1) (ground arith)

  pub Loads-get_elem? :
      (ps : List A) (bs : List B) (i : ℕ) (b : B)
      → Loads load ps bs
      → get_elem? bs i ≡ some b
      → (p : A) × (get_elem? ps i ≡ some p) × (load p ≡ some b)
  Loads-get_elem? [] [] i b h e = ground arith
  Loads-get_elem? [] (c ∷ bs) i b h e = absurd (h tt)
  Loads-get_elem? (p ∷ ps) [] i b h e = absurd (h tt)
  Loads-get_elem? (p ∷ ps) (c ∷ bs) zero b h e = (p, refl, h.0 ∙ e)
  Loads-get_elem? (p ∷ ps) (c ∷ bs) (suc i) b h e = Loads-get_elem? ps bs i b h.1 e

  pub Loads-remove_node :
      (ps : List A) (bs : List B) (i : ℕ)
      → Loads load ps bs
      → Loads load (remove_node ps i) (erase_idx bs i)
  unfolding remove_node erase_idx
  Loads-remove_node [] [] i h = tt
  Loads-remove_node [] (b ∷ bs) i h = absurd (h tt)
  Loads-remove_node (p ∷ ps) [] i h = absurd (h tt)
  Loads-remove_node (p ∷ ps) (b ∷ bs) zero h = h.1
  Loads-remove_node (p ∷ ps) (b ∷ bs) (suc i) h = (h.0, Loads-remove_node ps bs i h.1)
