-- ===== src/Prelude/Lists.antt =====
-- Lists measured and indexed by native numbers, under the library's names, with the updates at a
-- position that the rings use.
use perprocess_syscall_tbl.Prelude.Tests.{if◌then◌else◌}
use Prim.Native.Nat.{ℕ, zero, suc, ◌+◌, ◌<◌}
use mathlib.Core.Path.{◌≡◌, refl, ap, subst}
use mathlib.Core.Logic.{◌≢◌}
use mathlib.Core.List.{List, [], ◌∷◌, ◌++◌}
use mathlib.Core.Bool.{Bool, true, false}
use mathlib.Core.Option.{Option, none, some}
use native.Mathlib.Omega.{arith}

module _ {ℓ} {A : Type ℓ} where
  abbrev pub length : List A → ℕ
  length [] = 0
  length (x ∷ xs) = suc (length xs)

  abbrev pub get_elem? : List A → ℕ → Option A
  get_elem? [] i = none
  get_elem? (x ∷ xs) zero = some x
  get_elem? (x ∷ xs) (suc i) = get_elem? xs i

  -- An update out of range changes nothing.
  unfoldable pub modify : List A → ℕ → (A → A) → List A
  modify [] i f = []
  modify (x ∷ xs) zero f = f x ∷ xs
  modify (x ∷ xs) (suc i) f = x ∷ modify xs i f

  unfoldable pub erase_idx : List A → ℕ → List A
  erase_idx [] i = []
  erase_idx (x ∷ xs) zero = xs
  erase_idx (x ∷ xs) (suc i) = x ∷ erase_idx xs i

  unfoldable pub replicate : ℕ → A → List A
  replicate zero a = []
  replicate (suc n) a = a ∷ replicate n a

  abbrev pub is_some : Option A → Bool
  is_some none = false
  is_some (some a) = true

  -- The position of the first element that passes the test.
  unfoldable pub find_idx : (A → Bool) → List A → Option ℕ
  find_idx p [] = none
  find_idx p (x ∷ xs) =
      if p x then some 0 else elim (find_idx p xs) [ none ↦ none | some i ↦ some (suc i) ]

  pub length-append : (xs ys : List A) → length (xs ++ ys) ≡ length xs + length ys
  length-append [] ys = omega arith
  length-append (x ∷ xs) ys = omega (arith, length-append xs ys)

  pub length-modify : (xs : List A) (i : ℕ) (f : A → A) → length (modify xs i f) ≡ length xs
  unfolding modify
  length-modify [] i f = refl
  length-modify (x ∷ xs) zero f = refl
  length-modify (x ∷ xs) (suc i) f = ap suc (length-modify xs i f)

  pub modify-modify :
      (xs : List A) (i : ℕ) (f g : A → A) → modify (modify xs i f) i g ≡ modify xs i (λ a. g (f a))
  unfolding modify
  modify-modify [] i f g = refl
  modify-modify (x ∷ xs) zero f g = refl
  modify-modify (x ∷ xs) (suc i) f g = ap (λ t. x ∷ t) (modify-modify xs i f g)

  -- What a search found is there, and passes the test.
  pub find_idx-eq_some :
      (p : A → Bool) (xs : List A) (i : ℕ)
      → find_idx p xs ≡ some i
      → (a : A) × (get_elem? xs i ≡ some a) × (p a ≡ true)
  unfolding find_idx
  find_idx-eq_some p [] i h = ground arith
  find_idx-eq_some p (x ∷ xs) zero h = (x, refl, ground arith)
  find_idx-eq_some p (x ∷ xs) (suc i) h = find_idx-eq_some p xs i (ground arith)

pub some-inj {ℓ} : {A : Type ℓ} (x y : A) → some x ≡ some y → x ≡ y
some-inj x y e = cc

abbrev pub All {ℓ κ} : {A : Type ℓ} → (A → Type κ) → List A → Type κ
All P [] = Unit
All P (x ∷ xs) = P x × All P xs

pub All-map {ℓ κ κ'} :
    {A : Type ℓ} {P : A → Type κ} {Q : A → Type κ'} (xs : List A)
    → ((a : A) → P a → Q a)
    → All P xs
    → All Q xs
All-map [] f h = tt
All-map (x ∷ xs) f h = (f x h.0, All-map xs f h.1)

pub All-get_elem? {ℓ κ} :
    {A : Type ℓ} (P : A → Type κ) (xs : List A) (i : ℕ) (a : A)
    → All P xs
    → get_elem? xs i ≡ some a
    → P a
All-get_elem? P [] i a h e = ground arith
All-get_elem? P (x ∷ xs) zero a h e = subst P (some-inj x a e) h.0
All-get_elem? P (x ∷ xs) (suc i) a h e = All-get_elem? P xs i a h.1 e

pub get_elem?-modify {ℓ} :
    {A : Type ℓ} (xs : List A) (i : ℕ) (f : A → A) (a : A)
    → get_elem? xs i ≡ some a
    → get_elem? (modify xs i f) i ≡ some (f a)
unfolding modify
get_elem?-modify [] i f a e = ground arith
get_elem?-modify (x ∷ xs) zero f a e = ap (λ r. some (f r)) (some-inj x a e)
get_elem?-modify (x ∷ xs) (suc i) f a e = get_elem?-modify xs i f a e

pub get_elem?-modify_ne {ℓ} :
    {A : Type ℓ} (xs : List A) (i j : ℕ) (f : A → A)
    → i ≢ j
    → get_elem? (modify xs j f) i ≡ get_elem? xs i
unfolding modify
get_elem?-modify_ne [] i j f n = refl
get_elem?-modify_ne (x ∷ xs) zero zero f n = absurd (n refl)
get_elem?-modify_ne (x ∷ xs) zero (suc j) f n = refl
get_elem?-modify_ne (x ∷ xs) (suc i) zero f n = refl
get_elem?-modify_ne (x ∷ xs) (suc i) (suc j) f n = get_elem?-modify_ne xs i j f λ e. n (ap suc e)

pub get_elem?_lt {ℓ} :
    {A : Type ℓ} (xs : List A) (i : ℕ) → i < length xs → (a : A) × (get_elem? xs i ≡ some a)
get_elem?_lt [] i h = elim h [ ]
get_elem?_lt (x ∷ xs) zero h = (x, refl)
get_elem?_lt (x ∷ xs) (suc i) h = get_elem?_lt xs i (omega arith)
