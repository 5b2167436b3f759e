-- ===== src/Assignment/Users.antt =====
-- How many tasks use a vector, and how a change of one task moves that number.
use perprocess_syscall_tbl.Prelude.{
  ℕ, zero, suc, ◌+◌, ◌≤◌, ◌≡◌, ap, ℤ, ◌==ℤ◌, Bool, true, false, some, List, [], ◌∷◌, arith, length,
  get_elem?, modify, some-inj, ==ℤ_refl,
}
use perprocess_syscall_tbl.Kernel.{Task}

abbrev pub one_if : Bool → ℕ
one_if true = 1
one_if false = 0

-- The number of tasks that use the vector `k`.
unfoldable pub users : ℤ → List Task → ℕ
users k [] = 0
users k (t ∷ ts) = one_if (t.vector_id ==ℤ k) + users k ts

pub users-le-length : (k : ℤ) (ts : List Task) → users k ts ≤ length ts
unfolding users
users-le-length k [] = omega arith
users-le-length k (t ∷ ts) = ground (arith, users-le-length k ts)

-- The task at a position leaves its vector and joins `w`.
pub users-modify :
    (k w : ℤ) (ts : List Task) (i : ℕ) (t : Task)
    → get_elem? ts i ≡ some t
    → users k (modify ts i (λ u. record u { vector_id = w })) + one_if (t.vector_id ==ℤ k)
      ≡ users k ts + one_if (w ==ℤ k)
unfolding users modify
users-modify k w [] i t e = ground arith
users-modify k w (u ∷ ts) zero t e =
    omega (arith, ap (λ (r : Task). one_if (r.vector_id ==ℤ k)) (some-inj u t e))
users-modify k w (u ∷ ts) (suc i) t e = omega (arith, users-modify k w ts i t e)

pub one-le-users :
    (ts : List Task) (i : ℕ) (t : Task) → get_elem? ts i ≡ some t → 1 ≤ users t.vector_id ts
unfolding users
one-le-users [] i t e = ground arith
one-le-users (u ∷ ts) zero t e = omega (
  arith,
  ap (λ (r : Task). one_if (r.vector_id ==ℤ t.vector_id)) (some-inj u t e),
  ap one_if (==ℤ_refl t.vector_id),
)
one-le-users (u ∷ ts) (suc i) t e = omega (arith, one-le-users ts i t e)
