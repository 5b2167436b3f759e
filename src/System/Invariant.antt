-- ===== src/System/Invariant.antt =====
-- The invariant of the whole table, and how it follows for a changed state.
use perprocess_syscall_tbl.Prelude.{
  ℕ, zero, suc, ◌≡◌, refl, subst, ap, ◌∙◌, ℤ, pos, Option, none, some, List, [], ◌∷◌, All, All-map,
  length, modify, is_some, inl, inr, false, get_elem?,
}
use perprocess_syscall_tbl.Ring.Order.{Sorted, Loads}
use perprocess_syscall_tbl.Kernel.{Ptr, Syscall, SyscallVector, Task, State, Outcome, done}
use perprocess_syscall_tbl.Registry.Operations.{IsRegistry}
use perprocess_syscall_tbl.Vectors.{num_syscalls}
use perprocess_syscall_tbl.Assignment.Counts.{Counted, Ascending-modify, position-modify}
use perprocess_syscall_tbl.Assignment.Invariant.{Tallied}
use perprocess_syscall_tbl.Blocking.Bitmap.{IsBytes}
use perprocess_syscall_tbl.Dispatch.{cmp_syscall_by_syscall_num}
use perprocess_syscall_tbl.System.Spares.{Spares, same-Spares}

-- A vector's nodes carry live records in the order of their numbers, and its bitmap is whole.
pub record IsVector (heap : Ptr → Option Syscall) (nums : List Ptr) (blocked : List ℕ)
    : Type 0 where
  pub calls : List Syscall
  pub live : Loads heap nums calls
  pub sorted : Sorted cmp_syscall_by_syscall_num calls
  pub bytes : IsBytes blocked
  pub whole : length blocked ≡ num_syscalls

abbrev pub IsMapped : (Ptr → Option Syscall) → SyscallVector → Type 0
IsMapped heap v = IsVector heap v.syscall_num_list v.blocked

-- Between calls: the counts are exact, the registered records are live and in the order of their
-- names, and so is every vector with its records.
pub record Sound (s : State) : Type 0 where
  pub tallied : Tallied s
  pub calls : List Syscall
  pub registry : IsRegistry s calls
  pub vectors : All (IsMapped s.heap) s.vector_list

pub All-modify :
    (P : SyscallVector → Type 0) (f : SyscallVector → SyscallVector) (vs : List SyscallVector)
    (i : ℕ) (v : SyscallVector)
    → get_elem? vs i ≡ some v
    → P (f v)
    → All P vs
    → All P (modify vs i f)
unfolding modify
All-modify P f [] i v at new h = tt
All-modify P f (u ∷ vs) zero v at new h = (subst (λ x. P (f x)) (cc at) new, h.1)
All-modify P f (u ∷ vs) (suc i) v at new h = (h.0, All-modify P f vs i v at new h.1)

module _ (f : SyscallVector → SyscallVector) (same_id : (v : SyscallVector) → (f v).id ≡ v.id)
    (same_refcnt : (v : SyscallVector) → (f v).refcnt ≡ v.refcnt) where
  Counted-modify :
      (ts : List Task) (vs : List SyscallVector) (i : ℕ)
      → All (Counted ts) vs
      → All (Counted ts) (modify vs i f)
  unfolding modify
  Counted-modify ts [] i h = tt
  Counted-modify ts (v ∷ vs) zero h = (rw (same_id v, same_refcnt v) h.0, h.1)
  Counted-modify ts (v ∷ vs) (suc i) h = (h.0, Counted-modify ts vs i h.1)

  -- A change of a vector that keeps its id and count.
  pub modify-Tallied :
      (s t : State) (i : ℕ)
      → t.lock ≡ false
      → t.tasks ≡ s.tasks
      → t.vector_list ≡ modify s.vector_list i f
      → Tallied s
      → Tallied t
  modify-Tallied s t i free tasks vectors inv = record {
    free = free;
    ids = rw vectors (Ascending-modify f same_id (pos 0) s.vector_list i inv.ids);
    counts = rw (vectors, tasks) (Counted-modify s.tasks s.vector_list i inv.counts);
    placed =
        rw (vectors, tasks)
          (All-map s.tasks
            (λ u p. elim p [
              | inl z ↦ inl z
              | inr there ↦
                  inr (ap is_some (position-modify f same_id u.vector_id s.vector_list i) ∙ there)
            ])
            inv.placed);
    few = rw tasks inv.few;
  }

-- The same vectors and tasks with the lock free.
pub same-Tallied :
    (s t : State)
    → t.lock ≡ false
    → t.tasks ≡ s.tasks
    → t.vector_list ≡ s.vector_list
    → Tallied s
    → Tallied t
same-Tallied s t free tasks vectors inv = record {
  free = free;
  ids = rw vectors inv.ids;
  counts = rw (vectors, tasks) inv.counts;
  placed = rw (vectors, tasks) inv.placed;
  few = rw tasks inv.few;
}

-- The call ends, with the invariant, and every vector is untouched but for the one that `named` gives
-- for its value.
abbrev pub Ends : (ℤ → Option ℤ) → State → Outcome ℤ → Type 0
Ends named s o = (rc : ℤ) × (t : State) × (o ≡ done rc t) × Sound t × Spares (named rc) s t

-- No vector, and one vector.
abbrev pub nothing : ℤ → Option ℤ
nothing rc = none

abbrev pub just : ℤ → ℤ → Option ℤ
just x rc = some x

-- The call ends and changes nothing.
pub idle :
    (named : ℤ → Option ℤ) (rc : ℤ) (s : State) (o : Outcome ℤ)
    → Sound s
    → o ≡ done rc s
    → Ends named s o
idle named rc s o sound e = (rc, s, e, sound, same-Spares (named rc) s s refl refl)
