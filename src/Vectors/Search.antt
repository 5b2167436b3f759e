-- ===== src/Vectors/Search.antt =====
-- What get_syscall_vector finds.
use perprocess_syscall_tbl.Prelude.{
  ℕ, zero, suc, ◌≡◌, refl, sym, ap, ◌∙◌, ◌≢◌, ℤ, ◌<ℤ◌, ◌==ℤ◌, ==ℤ_iff, ==ℤ_refl, -ℤ_eq_zero, Option,
  some, List, [], ◌∷◌, All, All-get_elem?, some-inj, lt→==ℤ, lt→ne, All-map, arith, get_elem?,
  find_idx, erase_idx,
}
use perprocess_syscall_tbl.Ring.{get_node}
use perprocess_syscall_tbl.Kernel.{SyscallVector, State, done, lift}
use perprocess_syscall_tbl.Vectors.{cmp_syscall_vector, with_id, get_syscall_vector}
use perprocess_syscall_tbl.Vectors.Ids.{Ascending, Ascending-above}

-- The position of the vector with an id.
abbrev pub position : ℤ → List SyscallVector → Option ℕ
position id vs = find_idx (λ v. v.id ==ℤ id) vs

get_node-position :
    (id : ℤ) (vs : List SyscallVector)
    → get_node some cmp_syscall_vector (with_id id) vs ≡ some (position id vs)
unfolding get_node cmp_syscall_vector find_idx
get_node-position id [] = refl
get_node-position id (v ∷ vs) = rw (-ℤ_eq_zero id v.id, get_node-position id vs) (ground arith)

-- get_syscall_vector only looks, and finds the first vector with the id.
pub get_syscall_vector-position :
    (id : ℤ) (s : State) → get_syscall_vector id s ≡ done (position id s.vector_list) s
unfolding get_syscall_vector
get_syscall_vector-position id s = ap (λ r. lift r s) (get_node-position id s.vector_list)

pub position-eq_some :
    (id : ℤ) (vs : List SyscallVector) (i : ℕ)
    → position id vs ≡ some i
    → (v : SyscallVector) × (get_elem? vs i ≡ some v) × (v.id ≡ id)
unfolding find_idx
position-eq_some id [] i h = ground arith
position-eq_some id (v ∷ vs) zero h = (v, refl, (==ℤ_iff v.id id).0 (ground arith))
position-eq_some id (v ∷ vs) (suc i) h = position-eq_some id vs i (ground arith)

-- In an ascending ring an id names one node.
pub position-get_elem? :
    (lo : ℤ) (vs : List SyscallVector) (i : ℕ) (v : SyscallVector)
    → Ascending lo vs
    → get_elem? vs i ≡ some v
    → position v.id vs ≡ some i
unfolding find_idx
position-get_elem? lo [] i v a e = ground arith
position-get_elem? lo (w ∷ vs) zero v a e = ground (arith, ==ℤ_refl v.id)
position-get_elem? lo (w ∷ vs) (suc i) v a e =
    rw (lt→==ℤ w.id v.id (All-get_elem? (λ x. w.id <ℤ x.id) vs i v (Ascending-above w.id vs a.2) e))
      (rw (position-get_elem? w.id vs i v a.2 e) refl)

-- The other nodes have other ids.
pub erase_idx-ne :
    (lo : ℤ) (vs : List SyscallVector) (i : ℕ) (v : SyscallVector)
    → Ascending lo vs
    → get_elem? vs i ≡ some v
    → All (λ w. w.id ≢ v.id) (erase_idx vs i)
unfolding erase_idx
erase_idx-ne lo [] i v a e = tt
erase_idx-ne lo (w ∷ vs) zero v a e =
    All-map vs (λ x h f. lt→ne w.id x.id h (ap (λ r. r.id) (some-inj w v e) ∙ sym f))
      (Ascending-above w.id vs a.2)
erase_idx-ne lo (w ∷ vs) (suc i) v a e = (
  lt→ne w.id v.id (All-get_elem? (λ x. w.id <ℤ x.id) vs i v (Ascending-above w.id vs a.2) e),
  erase_idx-ne w.id vs i v a.2 e,
)
