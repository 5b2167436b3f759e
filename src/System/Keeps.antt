-- ===== src/System/Keeps.antt =====
-- Commands that leave alone the memory, the registered system calls, and each
-- vector but for its count.
use perprocess_syscall_tbl.Prelude.{
  ℕ, zero, suc, ◌≡◌, refl, ap, ◌∙◌, subst, ℤ, Bool, true, false, Option, none, some, List, [], ◌∷◌,
  modify, map, if◌then◌else◌,
}
use perprocess_syscall_tbl.Kernel.{
  Ptr, Task, SyscallVector, State, M, Outcome, done, fault, deadlock, and_then, pure, ◌>>=◌, lift,
  update, read, spin_lock, spin_unlock, set_vector,
}
use perprocess_syscall_tbl.Assignment.{set_task}

-- A vector without its count.
abbrev pub shape : SyscallVector → ℤ × List ℕ × List Ptr
shape v = (v.id, v.blocked, v.syscall_num_list)

pub record SameCalls (s t : State) : Type 0 where
  pub heap : t.heap ≡ s.heap
  pub syscall_list : t.syscall_list ≡ s.syscall_list
  pub shapes : map shape t.vector_list ≡ map shape s.vector_list
  pub syscall_module : t.syscall_module ≡ s.syscall_module
  pub module_log : t.module_log ≡ s.module_log

pub same : {s : State} → SameCalls s s
same = record {
  heap = refl;
  syscall_list = refl;
  shapes = refl;
  syscall_module = refl;
  module_log = refl;
}

-- A change of the lock and of the tasks.
pub relocked :
    (s : State) (b : Bool) (ts : List Task) → SameCalls s (record s { lock = b; tasks = ts })
relocked s b ts = record {
  heap = refl;
  syscall_list = refl;
  shapes = refl;
  syscall_module = refl;
  module_log = refl;
}

pub after : {s t u : State} → SameCalls s t → SameCalls t u → SameCalls s u
after p q = record {
  heap = q.heap ∙ p.heap;
  syscall_list = q.syscall_list ∙ p.syscall_list;
  shapes = q.shapes ∙ p.shapes;
  syscall_module = q.syscall_module ∙ p.syscall_module;
  module_log = q.module_log ∙ p.module_log;
}

-- Where the command ends, it has kept all that.
pub record Keeps {A : Type 0} (m : M A) : Type 0 where
  pub keeps : (s : State) (a : A) (t : State) → m s ≡ done a t → SameCalls s t

and_then-eq_done :
    {A B : Type 0} (o : Outcome A) (f : A → M B) (b : B) (t : State)
    → and_then o f ≡ done b t
    → (a : A) × (u : State) × (o ≡ done a u) × (f a u ≡ done b t)
and_then-eq_done (done a u) f b t e = (a, u, refl, e)
and_then-eq_done fault f b t e = cc
and_then-eq_done deadlock f b t e = cc

module _ {A B : Type 0} where
  pub Keeps-bind : (m : M A) (f : A → M B) → Keeps m → ((a : A) → Keeps (f a)) → Keeps (m >>= f)
  Keeps-bind m f k l = record {
    keeps = λ s b t e.
        let (a, u, p, q) = and_then-eq_done (m s) f b t e in
        after (k.keeps s a u p) ((l a).keeps u b t q);
  }

module _ {A : Type 0} where
  pub Keeps-pure : (a : A) → Keeps (pure a)
  Keeps-pure a = record { keeps = λ s b t e. subst (SameCalls s) (cc e) same }

  pub Keeps-read : (f : State → Option A) → Keeps (read f)
  Keeps-read f = record { keeps = λ s a t e. read_same s (f s) a t e }
    where
      read_same :
          (s : State) (o : Option A) (a : A) (t : State) → lift o s ≡ done a t → SameCalls s t
      read_same s none a t e = cc
      read_same s (some b) a t e = subst (SameCalls s) (cc e) same

  pub Keeps-if : (b : Bool) (m n : M A) → Keeps m → Keeps n → Keeps (if b then m else n)
  Keeps-if true m n k l = k
  Keeps-if false m n k l = l

pub Keeps-option :
    {A : Type 0} (m : M A) (f : ℕ → M A)
    → Keeps m
    → ((j : ℕ) → Keeps (f j))
    → (o : Option ℕ) → Keeps (elim o [ none ↦ m | some j ↦ f j ])
Keeps-option m f k l none = k
Keeps-option m f k l (some j) = l j

pub Keeps-update : (f : State → State) → ((s : State) → SameCalls s (f s)) → Keeps (update f)
Keeps-update f h = record { keeps = λ s a t e. subst (SameCalls s) (cc e) (h s) }

pub Keeps-spin_lock : Keeps spin_lock
unfolding spin_lock
Keeps-spin_lock = record { keeps = λ s a t e. free s s.lock a t e }
  where
    free :
        (s : State) (b : Bool) (a : Unit {0}) (t : State)
        → (if b then deadlock else done tt (record s { lock = true })) ≡ done a t
        → SameCalls s t
    free s true a t e = cc
    free s false a t e =
        subst (SameCalls s) {x = record s { lock = true }} (cc e) (relocked s true s.tasks)

pub Keeps-spin_unlock : Keeps spin_unlock
unfolding spin_unlock
Keeps-spin_unlock = Keeps-update _ λ s. relocked s false s.tasks

pub Keeps-set_task : (i : ℕ) (w : ℤ) → Keeps (set_task i w)
unfolding set_task
Keeps-set_task i w = Keeps-update _ λ s. relocked s s.lock _

map-modify :
    (f : SyscallVector → SyscallVector)
    → ((v : SyscallVector) → shape (f v) ≡ shape v)
    → (vs : List SyscallVector) (j : ℕ) → map shape (modify vs j f) ≡ map shape vs
unfolding modify
map-modify f same_shape [] j = refl
map-modify f same_shape (v ∷ vs) zero = ap (λ x. x ∷ map shape vs) (same_shape v)
map-modify f same_shape (v ∷ vs) (suc j) = ap (λ l. shape v ∷ l) (map-modify f same_shape vs j)

pub Keeps-set_vector :
    (j : ℕ) (f : SyscallVector → SyscallVector)
    → ((v : SyscallVector) → shape (f v) ≡ shape v)
    → Keeps (set_vector j f)
unfolding set_vector
Keeps-set_vector j f same_shape = Keeps-update _ λ s. record {
  heap = refl;
  syscall_list = refl;
  shapes = map-modify f same_shape s.vector_list j;
  syscall_module = refl;
  module_log = refl;
}
