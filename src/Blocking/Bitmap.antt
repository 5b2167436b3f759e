-- ===== src/Blocking/Bitmap.antt =====
-- The bitmap as a set of numbers: what is blocked after one number was blocked or unblocked.
use perprocess_syscall_tbl.Prelude.{
  ℕ, zero, suc, ◌*◌, ◌<◌, ◌/◌, ◌%◌, ◌≡◌, ◌≢◌, ap, ◌∙◌, pos, Bool, some, List, [], ◌∷◌, All,
  All-get_elem?, arith, ◌==◌, if◌then◌else◌, get_elem?, modify, length, get_elem?-modify,
  get_elem?-modify_ne, get_elem?_lt, ℕ-eq-cases, inl, inr,
}
use perprocess_syscall_tbl.Blocking.{test_bit, is_syscall_blocked, update_bit}
use perprocess_syscall_tbl.Blocking.Bits.{IsBitWrite}

abbrev pub IsBytes : List ℕ → Type 0
IsBytes bs = All (λ c. c < 256) bs

pub is_syscall_blocked-some :
    (bs : List ℕ) (n c : ℕ)
    → get_elem? bs (n / 8) ≡ some c
    → is_syscall_blocked (pos n) bs ≡ some (test_bit c (n % 8))
unfolding is_syscall_blocked
is_syscall_blocked-some bs n c at = rw (at, is_syscall_blocked)

module _ (g : ℕ → ℕ → ℕ) (b : Bool) (w : IsBitWrite g b) (bs : List ℕ) (bytes : IsBytes bs)
    (n : ℕ) where
  -- Within the bitmap the write takes place.
  pub update_bit-some :
      n < 8 * length bs → update_bit g (pos n) bs ≡ some (modify bs (n / 8) (λ c. g c (n % 8)))
  unfolding update_bit
  update_bit-some h = let (c, at) = get_elem?_lt bs (n / 8) (omega arith) in rw (at, update_bit)

  -- Exactly the bit of that number is written.
  pub is_syscall_blocked-update :
      n < 8 * length bs
      → (m : ℕ) → m < 8 * length bs
      → is_syscall_blocked (pos m) (modify bs (n / 8) (λ c. g c (n % 8)))
        ≡ (if m == n then some b else is_syscall_blocked (pos m) bs)
  is_syscall_blocked-update h m k =
      let (c, at) = get_elem?_lt bs (n / 8) (omega arith) in
      elim (ℕ-eq-cases (m / 8) (n / 8)) [
        | inl same ↦
            is_syscall_blocked-some _ m (g c (n % 8))
              (rw same (get_elem?-modify bs (n / 8) (λ c. g c (n % 8)) c at))
            ∙ ap some (
                w.bit c (n % 8) (m % 8) (All-get_elem? _ bs _ c bytes at) (omega arith)
                  (omega arith))
            ∙ in_byte c at same
        | inr other ↦
            let (d, there) = get_elem?_lt bs (m / 8) (omega arith) in
            is_syscall_blocked-some _ m d
              (get_elem?-modify_ne bs (m / 8) (n / 8) (λ c. g c (n % 8)) other ∙ there)
            ∙ elsewhere d there other
      ]
    where
      in_byte :
          (c : ℕ)
          → get_elem? bs (n / 8) ≡ some c
          → m / 8 ≡ n / 8
          → some (if m % 8 == n % 8 then b else test_bit c (m % 8))
            ≡ (if m == n then some b else is_syscall_blocked (pos m) bs)
      in_byte c at same = ground (arith, is_syscall_blocked-some bs m c (rw same at))

      elsewhere :
          (d : ℕ)
          → get_elem? bs (m / 8) ≡ some d
          → m / 8 ≢ n / 8
          → some (test_bit d (m % 8)) ≡ (if m == n then some b else is_syscall_blocked (pos m) bs)
      elsewhere d there other = ground (arith, is_syscall_blocked-some bs m d there)

pub modify-IsBytes :
    (g : ℕ → ℕ → ℕ) (b : Bool)
    → IsBitWrite g b
    → (bs : List ℕ) (i k : ℕ) → k < 8
    → IsBytes bs
    → IsBytes (modify bs i (λ c. g c k))
unfolding modify
modify-IsBytes g b w [] i k h bytes = tt
modify-IsBytes g b w (c ∷ bs) zero k h bytes = (w.byte c k bytes.0 h, bytes.1)
modify-IsBytes g b w (c ∷ bs) (suc i) k h bytes = (bytes.0, modify-IsBytes g b w bs i k h bytes.1)
