-- ===== src/Contract/Entries.antt =====
-- The search through records as a map, and what an insertion and a removal change in it.
use perprocess_syscall_tbl.Prelude.{
  ℕ, zero, suc, ◌≡◌, refl, ap, ◌∙◌, ℤ, pos, leb_ℤ, Bool, true, false, Option, none, some, List, [],
  ◌∷◌, All, arith, get_elem?, erase_idx, find_idx, some-inj, if◌then◌else◌, Bool-cases, inl, inr,
}
use perprocess_syscall_tbl.Ring.Order.{Loads}
use perprocess_syscall_tbl.Ring.Insert.{insert}
use perprocess_syscall_tbl.Kernel.{Ptr, Syscall}
use perprocess_syscall_tbl.Contract.{Entry}

abbrev pub entry_of : Syscall → Entry
entry_of c = record { fptr = c.fptr; syscall_num = c.syscall_num; module_ptr = c.module_ptr }

-- The records that nodes carry; a node without a record is passed over.
unfoldable pub records : (Ptr → Option Syscall) → List Ptr → List Syscall
records heap [] = []
records heap (p ∷ ps) =
    let rest = records heap ps in elim (heap p) [ none ↦ rest | some c ↦ c ∷ rest ]

pub records-Loads :
    (heap : Ptr → Option Syscall) (ps : List Ptr) (cs : List Syscall)
    → Loads heap ps cs
    → records heap ps ≡ cs
unfolding records
records-Loads heap [] [] h = refl
records-Loads heap [] (c ∷ cs) h = absurd (h tt)
records-Loads heap (p ∷ ps) [] h = absurd (h tt)
records-Loads heap (p ∷ ps) (c ∷ cs) (e, h) = ground (arith, records-Loads heap ps cs h)

module _ (test : Syscall → Bool) where
  -- The first record that passes the test.
  unfoldable pub find_entry : List Syscall → Option Entry
  find_entry [] = none
  find_entry (c ∷ cs) = if test c then some (entry_of c) else find_entry cs

  pub find_entry-none : (cs : List Syscall) → find_idx test cs ≡ none → find_entry cs ≡ none
  unfolding find_entry find_idx
  find_entry-none [] e = refl
  find_entry-none (c ∷ cs) e = ground (arith, find_entry-none cs)

  pub find_entry-some :
      (cs : List Syscall) (i : ℕ) (c : Syscall)
      → find_idx test cs ≡ some i
      → get_elem? cs i ≡ some c
      → find_entry cs ≡ some (entry_of c)
  unfolding find_entry find_idx
  find_entry-some [] i c e at = cc at
  find_entry-some (d ∷ cs) zero c e at = ground arith
  find_entry-some (d ∷ cs) (suc i) c e at = ground (arith, find_entry-some cs i c)

  pub find_idx-eq_none :
      (cs : List Syscall) → find_idx test cs ≡ none → All (λ c. test c ≡ false) cs
  unfolding find_idx
  find_idx-eq_none [] e = tt
  find_idx-eq_none (c ∷ cs) e = (ground arith, find_idx-eq_none cs (ground arith))

  find_entry_absent : (cs : List Syscall) → All (λ c. test c ≡ false) cs → find_entry cs ≡ none
  unfolding find_entry
  find_entry_absent [] h = refl
  find_entry_absent (c ∷ cs) h = rw (h.0, find_entry_absent cs h.1) refl

  -- A record is put in that no other one stands in the way of.
  pub find_entry-insert :
      (fn : Syscall → Syscall → ℤ) (c : Syscall) (cs : List Syscall)
      → All (λ d. test c ≡ true → test d ≡ false) cs
      → find_entry (insert fn c cs) ≡ (if test c then some (entry_of c) else find_entry cs)
  unfolding find_entry insert
  find_entry-insert fn c [] h = refl
  find_entry-insert fn c (d ∷ cs) h = elim (Bool-cases (leb_ℤ (pos 1) (fn c d))) [
    | inl first ↦ rw first refl
    | inr later ↦
        rw (later, find_entry-insert fn c cs h.1)
          (elim (Bool-cases (test c)) [
            | inl hit ↦ rw (hit, h.0 hit) refl
            | inr miss ↦ rw miss refl
          ])
  ]

  find_entry-erase_idx_miss :
      (cs : List Syscall) (i : ℕ) (c : Syscall)
      → get_elem? cs i ≡ some c
      → test c ≡ false
      → find_entry (erase_idx cs i) ≡ find_entry cs
  unfolding find_entry erase_idx
  find_entry-erase_idx_miss [] i c at miss = refl
  find_entry-erase_idx_miss (d ∷ cs) zero c at miss = rw (ap test (some-inj d c at) ∙ miss) refl
  find_entry-erase_idx_miss (d ∷ cs) (suc i) c at miss =
      rw (find_entry-erase_idx_miss cs i c at miss) refl

  -- A record is taken out; none of the others passes where it did.
  pub find_entry-erase_idx :
      (cs : List Syscall) (i : ℕ) (c : Syscall)
      → get_elem? cs i ≡ some c
      → All (λ d. test c ≡ true → test d ≡ false) (erase_idx cs i)
      → find_entry (erase_idx cs i) ≡ (if test c then none else find_entry cs)
  find_entry-erase_idx cs i c at h = elim (Bool-cases (test c)) [
    | inl hit ↦ rw hit (find_entry_absent (erase_idx cs i) (after hit (erase_idx cs i) h))
    | inr miss ↦ rw miss (find_entry-erase_idx_miss cs i c at miss)
  ]
    where
      after :
          test c ≡ true
          → (ds : List Syscall) → All (λ d. test c ≡ true → test d ≡ false) ds
          → All (λ d. test d ≡ false) ds
      after hit [] k = tt
      after hit (d ∷ ds) k = (k.0 hit, after hit ds k.1)
