-- ===== src/Strings/Compare.antt =====
-- `strncmp` against the lexicographic order of the strings.
use perprocess_syscall_tbl.Prelude.{
  ◌⊎◌, inl, inr, ℕ, zero, suc, ◌<◌, ◌≡◌, refl, ◌≢◌, leb_ℤ, true, ℤ, pos, negsuc, List, [], ◌∷◌,
  arith, ltb, if◌then◌else◌, length,
}
use perprocess_syscall_tbl.Strings.{c_str, strncmp}

-- Three-way comparison of strings: -1, 0 or 1.
unfoldable pub compare_names : List ℕ → List ℕ → ℤ
compare_names [] [] = pos 0
compare_names [] (y ∷ ys) = negsuc 0
compare_names (x ∷ xs) [] = pos 1
compare_names (x ∷ xs) (y ∷ ys) =
    if ltb x y then negsuc 0 else if ltb y x then pos 1 else compare_names xs ys

-- Where both strings end within `n` bytes, `strncmp` compares the whole strings.
pub strncmp-c_str :
    (xs ys : List ℕ) (n : ℕ)
    → length (c_str xs) < n
    → length (c_str ys) < n
    → strncmp xs ys n ≡ compare_names (c_str xs) (c_str ys)
unfolding strncmp c_str compare_names
strncmp-c_str xs ys zero h k = absurd (omega arith)
strncmp-c_str [] [] (suc n) h k = refl
strncmp-c_str [] (y ∷ ys) (suc n) h k = ground arith
strncmp-c_str (x ∷ xs) [] (suc n) h k = ground arith
strncmp-c_str (x ∷ xs) (y ∷ ys) (suc n) h k = ground (arith, strncmp-c_str xs ys n)

pub compare_names-eq : (xs ys : List ℕ) → compare_names xs ys ≡ pos 0 → xs ≡ ys
unfolding compare_names
compare_names-eq [] [] h = refl
compare_names-eq [] (y ∷ ys) h = ground arith
compare_names-eq (x ∷ xs) [] h = ground arith
compare_names-eq (x ∷ xs) (y ∷ ys) h = ground (arith, compare_names-eq xs ys)

pub compare_names_refl : (xs : List ℕ) → compare_names xs xs ≡ pos 0
unfolding compare_names
compare_names_refl [] = refl
compare_names_refl (x ∷ xs) = ground (arith, compare_names_refl xs)

pub compare_names_trans :
    (xs ys zs : List ℕ)
    → compare_names xs ys ≡ pos 1
    → compare_names ys zs ≡ pos 1
    → compare_names xs zs ≡ pos 1
unfolding compare_names
compare_names_trans [] [] zs h k = ground arith
compare_names_trans [] (y ∷ ys) zs h k = ground arith
compare_names_trans (x ∷ xs) [] [] h k = ground arith
compare_names_trans (x ∷ xs) [] (z ∷ zs) h k = ground arith
compare_names_trans (x ∷ xs) (y ∷ ys) [] h k = refl
compare_names_trans (x ∷ xs) (y ∷ ys) (z ∷ zs) h k = ground (arith, compare_names_trans xs ys zs)

pub compare_names-flip :
    (xs ys : List ℕ)
    → compare_names xs ys ≢ pos 0
    → compare_names xs ys ≢ pos 1
    → compare_names ys xs ≡ pos 1
unfolding compare_names
compare_names-flip [] [] h k = absurd (h refl)
compare_names-flip [] (y ∷ ys) h k = refl
compare_names-flip (x ∷ xs) [] h k = absurd (k refl)
compare_names-flip (x ∷ xs) (y ∷ ys) h k = ground (arith, compare_names-flip xs ys)

pub compare_names_range :
    (xs ys : List ℕ)
    → (compare_names xs ys ≡ pos 0)
      ⊎ ((compare_names xs ys ≡ pos 1) ⊎ (compare_names xs ys ≡ negsuc 0))
unfolding compare_names
compare_names_range [] [] = inl refl
compare_names_range [] (y ∷ ys) = inr (inr refl)
compare_names_range (x ∷ xs) [] = inr (inl refl)
compare_names_range (x ∷ xs) (y ∷ ys) = ground (arith, compare_names_range xs ys)

-- A comparison of 1 or more is 1.
pub compare_names-one :
    (xs ys : List ℕ) → leb_ℤ (pos 1) (compare_names xs ys) ≡ true → compare_names xs ys ≡ pos 1
compare_names-one xs ys h = one (compare_names xs ys) (compare_names_range xs ys) h
  where
    one :
        (q : ℤ) → (q ≡ pos 0) ⊎ ((q ≡ pos 1) ⊎ (q ≡ negsuc 0)) → leb_ℤ (pos 1) q ≡ true → q ≡ pos 1
    one (pos n) r k = ground arith
    one (negsuc n) r k = ground arith
