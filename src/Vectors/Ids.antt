-- ===== src/Vectors/Ids.antt =====
-- The ids of the ring stay positive, strictly ascending and within a `short`, and a new one is fresh.
use perprocess_syscall_tbl.Prelude.{
  ℕ, ◌≡◌, refl, ap, inl, inr, ℤ, pos, pos_part, neg_part, ltb→lt, ◌+ℤ◌, ◌-ℤ◌, ◌≤ℤ◌, ◌<ℤ◌, ltb_ℤ,
  to_short, to_short_lem, true, List, [], ◌∷◌, All, All-map, arith, Bool-cases, -ℤ_parts, +ℤ_parts,
  get_elem?, erase_idx, some,
}
use perprocess_syscall_tbl.Ring.{add_node_end}
use perprocess_syscall_tbl.Ring.Insert.{add_node_end-get_elem?}
use perprocess_syscall_tbl.Kernel.{SyscallVector}
use perprocess_syscall_tbl.Vectors.{find_gap, place_vector}

-- Strictly ascending ids above `lo`, none above the largest `short`.
abbrev pub Ascending : ℤ → List SyscallVector → Type 0
Ascending lo [] = Unit
Ascending lo (v ∷ vs) = (lo <ℤ v.id) × (v.id ≤ℤ pos 32767) × Ascending v.id vs

pub Ascending-mono :
    (lo hi : ℤ) (vs : List SyscallVector) → lo ≤ℤ hi → Ascending hi vs → Ascending lo vs
Ascending-mono lo hi [] h a = tt
Ascending-mono lo hi (v ∷ vs) h a = (omega arith, a.1, a.2)

pub Ascending-above :
    (lo : ℤ) (vs : List SyscallVector) → Ascending lo vs → All (λ v. lo <ℤ v.id) vs
Ascending-above lo [] a = tt
Ascending-above lo (v ∷ vs) a = (a.0, All-map vs (λ w h. omega arith) (Ascending-above v.id vs a.2))

-- The node at which the walk stops has an id of the ring's range.
find_gap_bounds :
    (lo : ℤ) (v : SyscallVector) (vs : List SyscallVector)
    → Ascending lo (v ∷ vs)
    → All (λ w. w.id <ℤ pos 32767) (v ∷ vs)
    → (lo <ℤ (find_gap v vs).0) × ((find_gap v vs).0 <ℤ pos 32767)
unfolding find_gap
find_gap_bounds lo v [] a h = (a.0, h.0)
find_gap_bounds lo v (w ∷ []) a h = (omega arith, h.1.0)
find_gap_bounds lo v (w ∷ x ∷ rest) a h = elim (Bool-cases (ltb_ℤ (pos 1) (w.id -ℤ v.id))) [
  | inl e ↦ rw e (a.0, h.0)
  | inr e ↦
      let (below, above) = find_gap_bounds v.id w (x ∷ rest) a.2 h.1 in rw e (omega arith, above)
]

-- A node with the next id fits in behind the one at which the walk stops.
place-Ascending :
    (lo : ℤ) (v : SyscallVector) (vs : List SyscallVector) (node : SyscallVector)
    → Ascending lo (v ∷ vs)
    → node.id ≡ (find_gap v vs).0 +ℤ pos 1
    → node.id ≤ℤ pos 32767
    → Ascending lo (add_node_end node (v ∷ vs) (find_gap v vs).1)
unfolding find_gap add_node_end
place-Ascending lo v [] node a e h =
    (a.0, a.1, (omega (arith, +ℤ_parts v.id (pos 1), ap pos_part e, ap neg_part e), h, tt))
place-Ascending lo v (w ∷ []) node a e h = (
  a.0,
  a.1,
  (a.2.0, a.2.1, (omega (arith, +ℤ_parts w.id (pos 1), ap pos_part e, ap neg_part e), h, tt)),
)
place-Ascending lo v (w ∷ x ∷ rest) node a e h = elim (Bool-cases (ltb_ℤ (pos 1) (w.id -ℤ v.id))) [
  | inl gap ↦ rw gap (a.0, a.1, fits gap (rw gap at e))
  | inr none_here ↦
      rw none_here (a.0, a.1, place-Ascending v.id w (x ∷ rest) node a.2 (rw none_here at e) h)
]
  where
    fits :
        ltb_ℤ (pos 1) (w.id -ℤ v.id) ≡ true
        → node.id ≡ v.id +ℤ pos 1
        → Ascending v.id (node ∷ w ∷ x ∷ rest)
    fits gap e' = (
      omega (arith, +ℤ_parts v.id (pos 1), ap pos_part e', ap neg_part e'),
      h,
      (
        omega (
          arith,
          +ℤ_parts v.id (pos 1),
          -ℤ_parts w.id v.id,
          ap pos_part e',
          ap neg_part e',
          ltb→lt _ _ gap,
        ),
        a.2.1,
        a.2.2,
      ),
    )

-- A ring with room: __add_syscall_vector picks an id that is positive, fits a `short` and is not in
-- use, and the ring stays ascending.
pub place_vector-Ascending :
    (node : SyscallVector) (vs : List SyscallVector)
    → Ascending (pos 0) vs
    → All (λ v. v.id <ℤ pos 32767) vs
    → Ascending (pos 0) (place_vector node vs).2
unfolding place_vector find_gap add_node_end
place_vector-Ascending node [] a room = omega arith
place_vector-Ascending node (v ∷ vs) a room =
    let (below, above) = find_gap_bounds (pos 0) v vs a room in
    let sum = +ℤ_parts (find_gap v vs).0 (pos 1) in
    let small : to_short ((find_gap v vs).0 +ℤ pos 1) ≡ (find_gap v vs).0 +ℤ pos 1 =
      to_short_lem _ (omega (arith, sum)) (omega (arith, sum)) in
    place-Ascending (pos 0) v vs _ a small
      (omega (arith, ap pos_part small, ap neg_part small, sum))

-- The id that place_vector reports is the one that it stores, and nothing but the new node is added.
pub place_vector-get_elem? :
    (node : SyscallVector) (vs : List SyscallVector)
    → (i : ℕ) × (get_elem? (place_vector node vs).2 i
        ≡ some (record node { id = (place_vector node vs).1 }))
      × (erase_idx (place_vector node vs).2 i ≡ vs)
unfolding place_vector erase_idx
place_vector-get_elem? node [] = (0, refl, refl)
place_vector-get_elem? node (v ∷ vs) = add_node_end-get_elem? _ (v ∷ vs) (find_gap v vs).1
