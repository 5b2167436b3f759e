-- ===== src/Dispatch/Order.antt =====
-- cmp_syscall_by_syscall_num as the order of a vector's list, and the lookup after one change of it.
use perprocess_syscall_tbl.Prelude.{
  ℕ, zero, suc, ◌≡◌, refl, sym, ap, ◌∙◌, ℤ, pos, ◌==ℤ◌, ==ℤ_iff, ==ℤ_refl, -ℤ_eq_zero, one_le-sub,
  leb_ℤ, false, none, some, List, [], ◌∷◌, All, All-map, arith, get_elem?, erase_idx, find_idx,
  if◌then◌else◌, Bool-cases, inl, inr, subst, gt_of_not_lt, ne→==ℤ, lt→ne, ltb→lt, lt→ltb, ◌<ℤ◌,
}
use perprocess_syscall_tbl.Ring.Order.{Before, IsComparator, Sorted}
use perprocess_syscall_tbl.Ring.Insert.{insert}
use perprocess_syscall_tbl.Kernel.{Syscall}
use perprocess_syscall_tbl.Dispatch.{cmp_syscall_by_syscall_num}
use perprocess_syscall_tbl.Dispatch.Lookup.{number_position, served}

pub Before-lt :
    (c d : Syscall) → Before cmp_syscall_by_syscall_num c d → c.syscall_num <ℤ d.syscall_num
unfolding cmp_syscall_by_syscall_num
Before-lt c d h = ltb→lt _ _ (sym (one_le-sub d.syscall_num c.syscall_num) ∙ h)

pub lt-Before :
    (c d : Syscall) → c.syscall_num <ℤ d.syscall_num → Before cmp_syscall_by_syscall_num c d
unfolding cmp_syscall_by_syscall_num
lt-Before c d h = one_le-sub d.syscall_num c.syscall_num ∙ lt→ltb _ _ h

-- list.c may sort by it: the comparator is a strict order of the numbers.
pub cmp_syscall_by_syscall_num-IsComparator : IsComparator cmp_syscall_by_syscall_num
unfolding cmp_syscall_by_syscall_num
cmp_syscall_by_syscall_num-IsComparator = record {
  trans = λ x y z h k. lt-Before x z (omega (arith, Before-lt x y h, Before-lt y z k));
  connex = λ x y h k. lt-Before y x (
      gt_of_not_lt x.syscall_num y.syscall_num (sym (one_le-sub y.syscall_num x.syscall_num) ∙ h)
        (sym (-ℤ_eq_zero x.syscall_num y.syscall_num) ∙ k));
}

pub served-insert :
    (c : Syscall) (ds : List Syscall) (n : ℤ)
    → number_position c.syscall_num ds ≡ none
    → served n (insert cmp_syscall_by_syscall_num c ds)
      ≡ (if c.syscall_num ==ℤ n then c.fptr else served n ds)
unfolding served insert find_idx
served-insert c [] n h = refl
served-insert c (d ∷ ds) n h = elim (Bool-cases (leb_ℤ (pos 1) (cmp_syscall_by_syscall_num c d))) [
  | inl e ↦ rw e
  | inr e ↦
      rw (e, served-insert c ds n (ground arith))
        (ground (
          arith,
          ==ℤ_iff d.syscall_num n,
          ==ℤ_iff c.syscall_num n,
          ==ℤ_iff d.syscall_num c.syscall_num,
        ))
]

-- The record that was put in is found, and taking it out restores the list.
pub number_position-insert :
    (c : Syscall) (ds : List Syscall)
    → number_position c.syscall_num ds ≡ none
    → (j : ℕ) × (number_position c.syscall_num (insert cmp_syscall_by_syscall_num c ds) ≡ some j)
      × (get_elem? (insert cmp_syscall_by_syscall_num c ds) j ≡ some c)
      × (erase_idx (insert cmp_syscall_by_syscall_num c ds) j ≡ ds)
unfolding insert find_idx erase_idx
number_position-insert c [] h = (0, rw (==ℤ_refl c.syscall_num) refl, refl, refl)
number_position-insert c (d ∷ ds) h =
    elim (Bool-cases (leb_ℤ (pos 1) (cmp_syscall_by_syscall_num c d))) [
      | inl e ↦ (0, rw (e, ==ℤ_refl c.syscall_num) refl, rw e refl, rw e refl)
      | inr e ↦
          let (j, found, at, rest) = number_position-insert c ds (ground arith) in
          (suc j, rw (e, found) (ground arith), rw e at, rw e (ap (λ r. d ∷ r) rest))
    ]

served_above : (m : ℤ) (ds : List Syscall) → All (λ x. m <ℤ x.syscall_num) ds → served m ds ≡ 0
unfolding served
served_above m [] h = refl
served_above m (d ∷ ds) h =
    rw (ne→==ℤ d.syscall_num m (λ e. lt→ne m d.syscall_num h.0 (sym e))) (served_above m ds h.1)

-- In a sorted list the other records with the number that was taken out are none.
pub served-erase_idx :
    (ds : List Syscall) (j : ℕ) (m n : ℤ)
    → Sorted cmp_syscall_by_syscall_num ds
    → number_position m ds ≡ some j
    → served n (erase_idx ds j) ≡ (if m ==ℤ n then 0 else served n ds)
unfolding served find_idx erase_idx
served-erase_idx [] j m n s e = ground arith
served-erase_idx (d ∷ ds) zero m n s e =
    let same : d.syscall_num ≡ m = (==ℤ_iff d.syscall_num m).0 (ground arith) in
    let gone =
      served_above m ds
        (All-map ds (λ x b. subst (λ k. k <ℤ x.syscall_num) same (Before-lt d x b)) s.0) in
    rw same (ground (arith, ==ℤ_iff m n, gone))
served-erase_idx (d ∷ ds) (suc j) m n s e =
    rw (served-erase_idx ds j m n s.1 (ground arith))
      (ground (arith, ==ℤ_iff d.syscall_num n, ==ℤ_iff m n, ==ℤ_iff d.syscall_num m))

-- The comparator tells a record from those among which the search does not find its number.
pub number_position-none :
    (c : Syscall) (ds : List Syscall)
    → number_position c.syscall_num ds ≡ none
    → All (λ d. (cmp_syscall_by_syscall_num d c ==ℤ pos 0) ≡ false) ds
unfolding find_idx cmp_syscall_by_syscall_num
number_position-none c [] h = tt
number_position-none c (d ∷ ds) h = (
  -ℤ_eq_zero c.syscall_num d.syscall_num ∙ ground arith,
  number_position-none c ds (ground arith),
)
