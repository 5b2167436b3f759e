-- ===== src/Ring/Order.antt =====
-- What a comparator of the rings promises, and the lists that it sorts.
use perprocess_syscall_tbl.Prelude.{
  ℤ, pos, ◌≡◌, true, false, Option, some, List, [], ◌∷◌, ◌==ℤ◌, leb_ℤ, All,
}

-- `fn first second` is 1 or more where `second` comes behind `first`.
abbrev pub Before {κ} : {B : Type κ} → (B → B → ℤ) → B → B → Type 0
Before fn x y = leb_ℤ (pos 1) (fn x y) ≡ true

-- The interface between list.c and its callers: `fn` is a strict order, and 0 where it separates
-- nothing.
pub record IsComparator {κ} {B : Type κ} (fn : B → B → ℤ) : Type κ where
  pub trans : (x y z : B) → Before fn x y → Before fn y z → Before fn x z
  pub connex :
      (x y : B) → leb_ℤ (pos 1) (fn x y) ≡ false → (fn y x ==ℤ pos 0) ≡ false → Before fn y x

abbrev pub Sorted {κ} : {B : Type κ} → (B → B → ℤ) → List B → Type κ
Sorted fn [] = Unit
Sorted fn (x ∷ xs) = All (Before fn x) xs × Sorted fn xs

-- The nodes `ps` carry the data `bs`, all of it live.
abbrev pub Loads {ℓ κ} : {A : Type ℓ} {B : Type κ} → (A → Option B) → List A → List B → Type κ
Loads load [] [] = Unit
Loads load [] (b ∷ bs) = Unit {κ} → ⊥
Loads load (p ∷ ps) [] = Unit {κ} → ⊥
Loads load (p ∷ ps) (b ∷ bs) = (load p ≡ some b) × Loads load ps bs
