-- ===== src/System/Spares.antt =====
-- Which vectors a call leaves as they are, as far as a lookup can tell.
use perprocess_syscall_tbl.Prelude.{
  ℕ, zero, suc, ◌≡◌, ◌≢◌, refl, sym, ap, ◌∙◌, subst, ℤ, ◌==ℤ◌, ==ℤ_iff, ne→==ℤ, Option, none, some,
  List, [], ◌∷◌, All, modify, erase_idx, find_idx, get_elem?, if◌then◌else◌, arith, inl, inr,
  Bool-cases,
}
use perprocess_syscall_tbl.Ring.Order.{Loads}
use perprocess_syscall_tbl.Kernel.{Ptr, Syscall, SyscallVector, State}
use perprocess_syscall_tbl.Vectors.Search.{position}

-- The bitmap and the nodes of the vector with an id.
unfoldable pub lookup : ℤ → List SyscallVector → Option (List ℕ × List Ptr)
lookup w [] = none
lookup w (v ∷ vs) = if v.id ==ℤ w then some (v.blocked, v.syscall_num_list) else lookup w vs

-- A lookup in the vector finds the same bits and the same records.
pub record Untouched (w : ℤ) (s t : State) : Type 0 where
  pub looked : lookup w t.vector_list ≡ lookup w s.vector_list
  pub loads :
      (bits : List ℕ) (ps : List Ptr) (cs : List Syscall)
      → lookup w s.vector_list ≡ some (bits, ps)
      → Loads s.heap ps cs
      → Loads t.heap ps cs

-- Every vector is untouched, but for the one that a call names.
abbrev pub Spares : Option ℤ → State → State → Type 0
Spares none s t = (w : ℤ) → Untouched w s t
Spares (some x) s t = (w : ℤ) → w ≢ x → Untouched w s t

untouched :
    {w : ℤ} (s t : State)
    → t.heap ≡ s.heap
    → lookup w t.vector_list ≡ lookup w s.vector_list
    → Untouched w s t
untouched s t h e = record { looked = e; loads = λ bits ps cs p live. rw h live }

pub Untouched-Spares : (x : Option ℤ) (s t : State) → ((w : ℤ) → Untouched w s t) → Spares x s t
Untouched-Spares none s t h = h
Untouched-Spares (some x) s t h = λ w n. h w

-- The same memory and vectors.
pub same-Spares :
    (x : Option ℤ) (s t : State) → t.heap ≡ s.heap → t.vector_list ≡ s.vector_list → Spares x s t
same-Spares x s t h e = Untouched-Spares x s t λ w. untouched s t h (ap (lookup w) e)

lookup-modify :
    (f : SyscallVector → SyscallVector)
    → ((v : SyscallVector) → (f v).id ≡ v.id)
    → (x w : ℤ) (vs : List SyscallVector) (i : ℕ) → position x vs ≡ some i
    → w ≢ x
    → lookup w (modify vs i f) ≡ lookup w vs
unfolding lookup modify find_idx
lookup-modify f same x w [] i e n = refl
lookup-modify f same x w (v ∷ vs) zero e n =
    let here : v.id ≡ x = (==ℤ_iff v.id x).0 (ground arith) in
    rw (same v, ne→==ℤ v.id w (λ q. n (sym q ∙ here))) refl
lookup-modify f same x w (v ∷ vs) (suc i) e n =
    rw (lookup-modify f same x w vs i (ground arith) n) refl

-- A change of the vector with the id `x`.
pub modify-Spares :
    (s t : State) (f : SyscallVector → SyscallVector)
    → ((v : SyscallVector) → (f v).id ≡ v.id)
    → (x : ℤ) (i : ℕ) → position x s.vector_list ≡ some i
    → t.heap ≡ s.heap
    → t.vector_list ≡ modify s.vector_list i f
    → Spares (some x) s t
modify-Spares s t f same x i found h e =
    λ w n. untouched s t h (ap (lookup w) e ∙ lookup-modify f same x w s.vector_list i found n)

lookup-erase_idx :
    (w : ℤ) (vs : List SyscallVector) (i : ℕ) (v : SyscallVector)
    → get_elem? vs i ≡ some v
    → w ≢ v.id
    → lookup w (erase_idx vs i) ≡ lookup w vs
unfolding lookup erase_idx
lookup-erase_idx w [] i v at n = refl
lookup-erase_idx w (u ∷ vs) zero v at n = rw (ne→==ℤ u.id w (λ q. n (sym q ∙ cc at))) refl
lookup-erase_idx w (u ∷ vs) (suc i) v at n = rw (lookup-erase_idx w vs i v at n) refl

-- A vector was taken out of the ring, or put in.
pub erase_idx-Spares :
    (s t : State) (i : ℕ) (v : SyscallVector)
    → get_elem? s.vector_list i ≡ some v
    → t.heap ≡ s.heap
    → t.vector_list ≡ erase_idx s.vector_list i
    → Spares (some v.id) s t
erase_idx-Spares s t i v at h e =
    λ w n. untouched s t h (ap (lookup w) e ∙ lookup-erase_idx w s.vector_list i v at n)

pub added-Spares :
    (s t : State) (i : ℕ) (v : SyscallVector)
    → get_elem? t.vector_list i ≡ some v
    → t.heap ≡ s.heap
    → s.vector_list ≡ erase_idx t.vector_list i
    → Spares (some v.id) s t
added-Spares s t i v at h e =
    λ w n. untouched s t h (sym (ap (lookup w) e ∙ lookup-erase_idx w t.vector_list i v at n))

-- What the lookup finds, in terms of the search of the code.
pub lookup-none : (w : ℤ) (vs : List SyscallVector) → position w vs ≡ none → lookup w vs ≡ none
unfolding lookup find_idx
lookup-none w [] e = refl
lookup-none w (v ∷ vs) e = ground (arith, lookup-none w vs)

pub lookup-some :
    (w : ℤ) (vs : List SyscallVector) (i : ℕ) (v : SyscallVector)
    → position w vs ≡ some i
    → get_elem? vs i ≡ some v
    → lookup w vs ≡ some (v.blocked, v.syscall_num_list)
unfolding lookup find_idx
lookup-some w [] i v e at = cc
lookup-some w (u ∷ vs) zero v e at = ground arith
lookup-some w (u ∷ vs) (suc i) v e at = ground (arith, lookup-some w vs i v)

pub lookup-All :
    (w : ℤ) (vs : List SyscallVector) (P : Ptr → Type 0) (bits : List ℕ) (ps : List Ptr)
    → lookup w vs ≡ some (bits, ps)
    → All (λ v. All P v.syscall_num_list) vs
    → All P ps
unfolding lookup
lookup-All w [] P bits ps e h = cc
lookup-All w (v ∷ vs) P bits ps e h = elim (Bool-cases (v.id ==ℤ w)) [
  | inl here ↦ subst (All P) (ground arith) h.0
  | inr other ↦ lookup-All w vs P bits ps (ground arith) h.1
]
