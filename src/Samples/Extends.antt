-- ===== src/Samples/Extends.antt =====
-- register_syscall of syscall_module/syscall_tbl.c leaves the vectors and writes only to a fresh block, so a
-- name that no vector holds stays so.
use perprocess_syscall_tbl.Prelude.{
  ℕ, ◌≡◌, ◌≢◌, refl, sym, ap, ◌∙◌, subst, ℤ, pos, ◌==ℤ◌, false, Option, none, some, some-inj,
  Option-cases, List, [], ◌∷◌, All, arith, length, inl, inr, if◌then◌else◌,
}
use perprocess_syscall_tbl.Strings.{c_str}
use perprocess_syscall_tbl.Strings.Compare.{compare_names}
use perprocess_syscall_tbl.Ring.Order.{Loads}
use perprocess_syscall_tbl.Kernel.{Ptr, Syscall, SyscallVector, State, done, enomem, einval, write}
use perprocess_syscall_tbl.Registry.{Block, register_syscall}
use perprocess_syscall_tbl.Registry.Search.{IsShort, name_position}
use perprocess_syscall_tbl.Registry.Operations.{
  registered, register_syscall-new, register_syscall-dup, inserted,
}
use perprocess_syscall_tbl.System.{Fresh, Unheld}
use perprocess_syscall_tbl.System.Invariant.{IsMapped, Sound}
use perprocess_syscall_tbl.System.Registering.{write-none}
use perprocess_syscall_tbl.Contract.{Entry, Table, registering, put_name}
use perprocess_syscall_tbl.Samples.Erasing.{IsRefcount}
use perprocess_syscall_tbl.Kernel.{ModuleCall, module_get}
use perprocess_syscall_tbl.Prelude.{◌≤◌, Bool-cases}
use perprocess_syscall_tbl.Contract.View.{view}

-- The vectors are the same, and every record is.
pub record Extends (s t : State) : Type 0 where
  pub vectors : t.vector_list ≡ s.vector_list
  pub nodes : (p : Ptr) (c : Syscall) → s.heap p ≡ some c → t.heap p ≡ some c

Extends-refl : (s : State) → Extends s s
Extends-refl s = record { vectors = refl; nodes = λ p c e. e }

live_elsewhere :
    (h : Ptr → Option Syscall) (q p : Ptr) (c d : Syscall)
    → h q ≡ none
    → h p ≡ some c
    → write h q (some d) p ≡ some c
live_elsewhere h q p c d unused e = ground arith

module _ (h k : Ptr → Option Syscall) (name : List ℕ)
    (nodes : (p : Ptr) (c : Syscall) → h p ≡ some c → k p ≡ some c) where
  absent_in :
      (ps : List Ptr) (cs : List Syscall)
      → Loads h ps cs
      → All (λ p. (c : Syscall) → h p ≡ some c → c_str c.name ≢ c_str name) ps
      → All (λ p. (c : Syscall) → k p ≡ some c → c_str c.name ≢ c_str name) ps
  absent_in [] cs live away = tt
  absent_in (p ∷ ps) [] live away = absurd (live tt)
  absent_in (p ∷ ps) (d ∷ cs) live away = (
    λ c e same.
        away.0 d live.0
          (ap (λ (r : Syscall). c_str r.name) (some-inj d c (sym (nodes p d live.0) ∙ e)) ∙ same),
    absent_in ps cs live.1 away.1,
  )

  absent_vectors :
      (vs : List SyscallVector)
      → All (IsMapped h) vs
      → All
          (λ v.
            All (λ p. (c : Syscall) → h p ≡ some c → c_str c.name ≢ c_str name) v.syscall_num_list)
          vs
      → All
          (λ v.
            All (λ p. (c : Syscall) → k p ≡ some c → c_str c.name ≢ c_str name) v.syscall_num_list)
          vs
  absent_vectors [] mapped away = tt
  absent_vectors (v ∷ vs) (m, mapped) away =
      (absent_in v.syscall_num_list m.calls m.live away.0, absent_vectors vs mapped away.1)

pub Unheld-Extends :
    (name : List ℕ) (s t : State) → Sound s → Extends s t → Unheld name s → Unheld name t
Unheld-Extends name s t sound more unheld =
    subst
      (All λ v.
        All (λ p. (c : Syscall) → t.heap p ≡ some c → c_str c.name ≢ c_str name) v.syscall_num_list)
      (sym more.vectors)
      (absent_vectors s.heap t.heap name more.nodes s.vector_list sound.vectors unheld)

module _ (temp name : List ℕ) (fptr : ℕ) (n : ℤ) (m : Ptr) (s : State) (sound : Sound s)
    (full : length temp ≡ 64) (fits : IsShort name) where
  pub register-Extends :
      (memory : Option Block)
      → Fresh memory s
      → (rc : ℤ) × (t : State) × (register_syscall temp memory name fptr n m s ≡ done rc t)
        × Extends s t
  unfolding register_syscall
  register-Extends none fresh = (enomem, s, ground arith, Extends-refl s)
  register-Extends (some b) (whole, unused) =
      let cs = sound.calls in
      let reg = sound.registry in
      elim (Option-cases (name_position (c_str name) cs)) [
        | inr (i, dup) ↦
            let restored =
              write-none s.heap b.addr (some (registered b.bytes name fptr n m)) unused in
            (
              einval,
              record s { lock = false },
              register_syscall-dup temp b.bytes name b.addr fptr n m s cs full whole fits unused reg
                    i dup
                  ∙ ap (λ h. done einval (record s { heap = h; lock = false })) restored,
              record { vectors = refl; nodes = λ p c e. e },
            )
        | inl new ↦
            let (qs, e, _) =
              register_syscall-new temp b.bytes name b.addr fptr n m s cs full whole fits unused reg
                new in
            (
              pos 0,
              inserted temp b.bytes name b.addr fptr n m s cs full whole fits unused reg qs,
              e,
              record {
                vectors = refl;
                nodes = λ p c at. live_elsewhere s.heap b.addr p c _ unused at;
              },
            )
      ]

-- The specification changes at most the registered name.
pub registering-elsewhere :
    (memory : Option Block) (name : List ℕ) (e : Entry) (old : Option Entry) (s t : State) (rc : ℤ)
    (x : List ℕ)
    → (rc, view t) ≡ registering memory name e old (view s)
    → (compare_names x (c_str name) ==ℤ pos 0) ≡ false
    → (view t).registered x ≡ (view s).registered x
registering-elsewhere none name e old s t rc x spec other =
    ap (λ (r : ℤ × Table). r.1.registered x) spec
registering-elsewhere (some b) name e (some o) s t rc x spec other =
    ap (λ (r : ℤ × Table). r.1.registered x) spec
registering-elsewhere (some b) name e none s t rc x spec other =
    ap (λ (r : ℤ × Table). r.1.registered x) spec
    ∙ ap (λ c. if c then some e else (view s).registered x) other

-- A module other than the table's own with a count of at most 1, and the name with no module or with such
-- a one.
abbrev pub Loose : (Ptr → List ModuleCall → ℕ) → Ptr → Table → Type 0
Loose count m a = (m ≢ a.self) × (count m a.log ≤ 1)

abbrev pub Freeable : (Ptr → List ModuleCall → ℕ) → Ptr → List ℕ → Table → Type 0
Freeable count m name a =
    Loose count m a
    × ((e : Entry) → a.registered (c_str name) ≡ some e → Loose count e.module_ptr a)

-- A registration by such a module takes a reference of the table's own module only.
module _ (count : Ptr → List ModuleCall → ℕ) (counts : IsRefcount count) (name : List ℕ)
    (new : Entry) (a : Table) where
  abbrev registered_table : Table
  registered_table = record a {
    registered = put_name (c_str name) (some new) a.registered;
    log = module_get a.self ∷ a.log;
  }

  Loose-registered : (m : Ptr) → Loose count m a → Loose count m registered_table
  Loose-registered m (other, few) = (other, rw (counts.get_other m a.self a.log other) few)

  Freeable-registered :
      (x : List ℕ)
      → Freeable count new.module_ptr x a
      → Freeable count new.module_ptr x registered_table
  Freeable-registered x (own, loose) = (Loose-registered new.module_ptr own, λ e h. at e h)
    where
      at :
          (e : Entry)
          → registered_table.registered (c_str x) ≡ some e
          → Loose count e.module_ptr registered_table
      at e h = elim (Bool-cases (compare_names (c_str x) (c_str name) ==ℤ pos 0)) [
        | inl hit ↦
            let same : new ≡ e =
              some-inj new e
                (sym (ap (λ b. if b then some new else a.registered (c_str x)) hit) ∙ h) in
            subst (λ r. Loose count r.module_ptr registered_table) same
              (Loose-registered new.module_ptr own)
        | inr miss ↦
            Loose-registered e.module_ptr
              (loose e (sym (ap (λ b. if b then some new else a.registered (c_str x)) miss) ∙ h))
      ]

  pub Freeable-registering :
      (memory : Option Block) (old : Option Entry) (t : State) (rc : ℤ) (x : List ℕ)
      → (rc, view t) ≡ registering memory name new old a
      → Freeable count new.module_ptr x a
      → Freeable count new.module_ptr x (view t)
  Freeable-registering none old t rc x spec h =
      subst (Freeable count new.module_ptr x) (sym (ap (λ (r : ℤ × Table). r.1) spec)) h
  Freeable-registering (some b) (some o) t rc x spec h =
      subst (Freeable count new.module_ptr x) (sym (ap (λ (r : ℤ × Table). r.1) spec)) h
  Freeable-registering (some b) none t rc x spec h =
      subst (Freeable count new.module_ptr x) (sym (ap (λ (r : ℤ × Table). r.1) spec))
        (Freeable-registered x h)
