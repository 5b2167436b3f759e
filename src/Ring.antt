-- ===== src/Ring.antt =====
-- syscall_module/list.c: the walks over a kernel list ring.
-- A ring is the list of its nodes from the head on, and a pointer to a node is its position.
-- `load` follows a node's `data` pointer, and is `none` where that memory is not live: reading it is
-- a fault, which the walks pass on as `none`.
pub mod Order
pub mod Search
pub mod Insert
use perprocess_syscall_tbl.Prelude.{
  ℕ, zero, suc, ℤ, pos, Option, none, some, List, [], ◌∷◌, ◌++◌, ◌==ℤ◌, leb_ℤ, if◌then◌else◌,
  erase_idx,
}

infixl 5 ◌>>=◌
abbrev ◌>>=◌ {ℓ κ} : {A : Type ℓ} {B : Type κ} → Option A → (A → Option B) → Option B
none >>= f = none
some a >>= f = f a

module _ {ℓ κ} {A : Type ℓ} {B : Type κ} (load : A → Option B) (fn : B → B → ℤ) where
  -- Inserts before the first node at which `fn` reaches 1, or at the end.
  unfoldable pub add_node : A → List A → Option (List A)
  add_node node [] = some (node ∷ [])
  add_node node (x ∷ xs) = do
    new ← load node
    here ← load x
    if leb_ℤ (pos 1) (fn new here)
        then some (node ∷ x ∷ xs)
        else (do rest ← add_node node xs; some (x ∷ rest))

  -- The first node whose data `fn` finds equal to `find`, or none.
  unfoldable pub get_node : B → List A → Option (Option ℕ)
  get_node find [] = some none
  get_node find (x ∷ xs) = do
    here ← load x
    if fn here find ==ℤ pos 0
        then some (some 0)
        else (do rest ← get_node find xs; some (elim rest [ none ↦ none | some i ↦ some (suc i) ]))

module _ {ℓ} {A : Type ℓ} where
  -- `list_add_tail` behind the node at the position `i`, which is before the one that follows it.
  unfoldable pub add_node_end : A → List A → ℕ → List A
  add_node_end node [] i = node ∷ []
  add_node_end node (x ∷ xs) zero = node ∷ x ∷ xs
  add_node_end node (x ∷ xs) (suc i) = x ∷ add_node_end node xs i

  unfoldable pub remove_node : List A → ℕ → List A
  unfolding erase_idx
  remove_node xs i = erase_idx xs i
