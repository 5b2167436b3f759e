-- ===== src/Ring/Insert.antt =====
-- `add_node` over nodes whose data is live: a sorted insertion.
use perprocess_syscall_tbl.Prelude.{
  ℕ, zero, suc, ◌≡◌, refl, inl, inr, ℤ, pos, false, Option, some, List, [], ◌∷◌, ◌==ℤ◌, leb_ℤ,
  if◌then◌else◌, All, All-map, Bool-cases, get_elem?, erase_idx, ap,
}
use perprocess_syscall_tbl.Ring.{add_node, add_node_end}
use perprocess_syscall_tbl.Ring.Order.{Before, IsComparator, Sorted, Loads}

module _ {κ} {B : Type κ} (fn : B → B → ℤ) where
  -- The reference definition: insertion of a value in front of the first one behind it.
  unfoldable pub insert : B → List B → List B
  insert b [] = b ∷ []
  insert b (x ∷ xs) = if leb_ℤ (pos 1) (fn b x) then b ∷ x ∷ xs else x ∷ insert b xs

  pub All-insert {μ} : (P : B → Type μ) (b : B) (xs : List B) → P b → All P xs → All P (insert b xs)
  unfolding insert
  All-insert P b [] p h = (p, tt)
  All-insert P b (x ∷ xs) p h = elim (Bool-cases (leb_ℤ (pos 1) (fn b x))) [
    | inl e ↦ rw e (p, h)
    | inr e ↦ rw e (h.0, All-insert P b xs p h.1)
  ]

  -- Insertion of a value that the comparator tells from all the others keeps the order.
  pub insert-Sorted :
      IsComparator fn
      → (b : B) (xs : List B) → All (λ x. (fn x b ==ℤ pos 0) ≡ false) xs
      → Sorted fn xs
      → Sorted fn (insert b xs)
  unfolding insert
  insert-Sorted c b [] new s = (tt, tt)
  insert-Sorted c b (x ∷ xs) new s = elim (Bool-cases (leb_ℤ (pos 1) (fn b x))) [
    | inl e ↦ rw e ((e, All-map xs (λ y h. c.trans b x y e h) s.0), s)
    | inr e ↦
        rw e
          (All-insert (Before fn x) b xs (c.connex b x e new.0) s.0, insert-Sorted c b xs new.1 s.1)
  ]

module _ {ℓ κ} {A : Type ℓ} {B : Type κ} (load : A → Option B) (fn : B → B → ℤ) where
  -- The walk of `add_node` puts the node where the reference puts its data, and reads no dead
  -- memory.
  pub add_node-insert :
      (p : A) (b : B) (ps : List A) (bs : List B)
      → load p ≡ some b
      → Loads load ps bs
      → (qs : List A) × (add_node load fn p ps ≡ some qs) × Loads load qs (insert fn b bs)
  unfolding add_node insert
  add_node-insert p b [] [] e h = (p ∷ [], refl, (e, tt))
  add_node-insert p b [] (c ∷ bs) e h = absurd (h tt)
  add_node-insert p b (q ∷ ps) [] e h = absurd (h tt)
  add_node-insert p b (q ∷ ps) (c ∷ bs) e h = elim (Bool-cases (leb_ℤ (pos 1) (fn b c))) [
    | inl t ↦ (p ∷ q ∷ ps, rw (e, h.0, t) refl, rw t (e, h))
    | inr f ↦
        let (rs, found, live) = add_node-insert p b ps bs e h.1 in
        (q ∷ rs, rw (e, h.0, f, found) refl, rw f (h.0, live))
  ]

-- `add_node_end` adds the node at one position and moves nothing else.
pub add_node_end-get_elem? {ℓ} :
    {A : Type ℓ} (node : A) (xs : List A) (at : ℕ)
    → (i : ℕ) × (get_elem? (add_node_end node xs at) i ≡ some node)
      × (erase_idx (add_node_end node xs at) i ≡ xs)
unfolding add_node_end erase_idx
add_node_end-get_elem? node [] at = (0, refl, refl)
add_node_end-get_elem? node (x ∷ xs) zero = (0, refl, refl)
add_node_end-get_elem? node (x ∷ xs) (suc at) =
    let (i, here, rest) = add_node_end-get_elem? node xs at in (suc i, here, ap (λ t. x ∷ t) rest)

pub All-erase_idx {κ μ} :
    {B : Type κ} (P : B → Type μ) (xs : List B) (i : ℕ) → All P xs → All P (erase_idx xs i)
unfolding erase_idx
All-erase_idx P [] i h = tt
All-erase_idx P (x ∷ xs) zero h = h.1
All-erase_idx P (x ∷ xs) (suc i) h = (h.0, All-erase_idx P xs i h.1)

-- Taking a value out keeps the order.
pub erase_idx-Sorted {κ} :
    {B : Type κ} (fn : B → B → ℤ) (xs : List B) (i : ℕ) → Sorted fn xs → Sorted fn (erase_idx xs i)
unfolding erase_idx
erase_idx-Sorted fn [] i s = tt
erase_idx-Sorted fn (x ∷ xs) zero s = s.1
erase_idx-Sorted fn (x ∷ xs) (suc i) s =
    (All-erase_idx (Before fn x) xs i s.0, erase_idx-Sorted fn xs i s.1)
