-- ===== src/Assignment/Evacuation.antt =====
-- The tasks when the processes of a vector go back to the default vector (syscall_module/syscall_tbl.c).
use perprocess_syscall_tbl.Prelude.{
  ℕ, zero, suc, ◌≡◌, ◌≢◌, refl, sym, ap, ◌∙◌, subst, ℤ, pos, ◌==ℤ◌, ==ℤ_iff, ne→==ℤ, Bool-cases,
  inl, inr, some, List, [], ◌∷◌, arith, get_elem?, modify, find_idx, some-inj, if◌then◌else◌,
}
use perprocess_syscall_tbl.Kernel.{Task}
use perprocess_syscall_tbl.Assignment.Users.{one_if, users}
use perprocess_syscall_tbl.Assignment.Counts.{set_vector_id}
use perprocess_syscall_tbl.Assignment.Branches.{process}

-- Each process is the first one with its pid.
abbrev pub Findable : List Task → Type 0
Findable ts = (i : ℕ) (t : Task) → get_elem? ts i ≡ some t → process t.pid ts ≡ some i

-- The processes of a vector go to the default one.
abbrev pub evacuated : ℤ → List Task → List Task
evacuated id [] = []
evacuated id (t ∷ ts) =
    (if t.vector_id ==ℤ id then record t { vector_id = pos 0 } else t) ∷ evacuated id ts

pub evacuated-none : (id : ℤ) (ts : List Task) → users id ts ≡ 0 → evacuated id ts ≡ ts
unfolding users
evacuated-none id [] e = refl
evacuated-none id (t ∷ ts) e = elim (Bool-cases (t.vector_id ==ℤ id)) [
  | inl hit ↦ absurd (omega (arith, e, ap one_if hit))
  | inr away ↦ rw (away, evacuated-none id ts (omega (arith, e, ap one_if away))) refl
]

pub evacuated-set :
    (id : ℤ) (ts : List Task) (i : ℕ) (t : Task)
    → id ≢ pos 0
    → get_elem? ts i ≡ some t
    → t.vector_id ≡ id
    → evacuated id (set_vector_id ts i (pos 0)) ≡ evacuated id ts
unfolding modify
evacuated-set id [] i t n at same = refl
evacuated-set id (u ∷ ts) zero t n at same =
    rw
      (
        ne→==ℤ (pos 0) id (λ e. n (sym e)),
        (==ℤ_iff u.vector_id id).1 (ap (λ (r : Task). r.vector_id) (some-inj u t at) ∙ same),
      )
      refl
evacuated-set id (u ∷ ts) (suc i) t n at same = rw (evacuated-set id ts i t n at same) refl

pub user_at :
    (id : ℤ) (ts : List Task) (n : ℕ)
    → users id ts ≡ suc n
    → (i : ℕ) × (t : Task) × (get_elem? ts i ≡ some t) × (t.vector_id ≡ id)
unfolding users
user_at id [] n e = absurd (omega (arith, e))
user_at id (t ∷ ts) n e = elim (Bool-cases (t.vector_id ==ℤ id)) [
  | inl hit ↦ (0, t, refl, (==ℤ_iff t.vector_id id).0 hit)
  | inr away ↦
      let (i, u, at, same) = user_at id ts n (omega (arith, e, ap one_if away)) in
      (suc i, u, at, same)
]

pub process-set :
    (pid w : ℤ) (ts : List Task) (i : ℕ) → process pid (set_vector_id ts i w) ≡ process pid ts
unfolding modify find_idx
process-set pid w [] i = refl
process-set pid w (t ∷ ts) zero = refl
process-set pid w (t ∷ ts) (suc i) = rw (process-set pid w ts i) refl

-- A task after the change has the pid of the one that was there.
set_pid :
    (w : ℤ) (ts : List Task) (i j : ℕ) (t : Task)
    → get_elem? (set_vector_id ts i w) j ≡ some t
    → (u : Task) × (get_elem? ts j ≡ some u) × (u.pid ≡ t.pid)
unfolding modify
set_pid w [] i j t at = cc at
set_pid w (u ∷ ts) zero zero t at = (u, refl, ap (λ (r : Task). r.pid) (some-inj _ t at))
set_pid w (u ∷ ts) zero (suc j) t at = (t, at, refl)
set_pid w (u ∷ ts) (suc i) zero t at = (u, refl, ap (λ (r : Task). r.pid) (some-inj _ t at))
set_pid w (u ∷ ts) (suc i) (suc j) t at = set_pid w ts i j t at

pub Findable-set : (w : ℤ) (ts : List Task) (i : ℕ) → Findable ts → Findable (set_vector_id ts i w)
Findable-set w ts i found j t at =
    let (u, before, same) = set_pid w ts i j t at in
    process-set t.pid w ts i ∙ subst (λ pid. process pid ts ≡ some j) same (found j u before)
