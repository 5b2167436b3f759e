-- ===== src/Contract/View.antt =====
-- The abstract table that a state stands for, and how it follows changes of the state.
use mathlib.Core.Path.{fun_ext}
use perprocess_syscall_tbl.Prelude.{
  ℕ, ◌*◌, ltb, ◌≡◌, refl, ap, ◌∙◌, ℤ, pos, ◌==ℤ◌, ==ℤ_iff, ne→==ℤ, ℤ-eq-cases, Bool, false, Option,
  none, some, List, get_elem?, Option-cases, inl, inr, if◌then◌else◌,
}
use perprocess_syscall_tbl.Strings.{c_str}
use perprocess_syscall_tbl.Strings.Compare.{compare_names}
use perprocess_syscall_tbl.Ring.Order.{Loads}
use perprocess_syscall_tbl.Kernel.{Ptr, Syscall, SyscallVector, ModuleCall, Task, State}
use perprocess_syscall_tbl.Vectors.{num_syscalls}
use perprocess_syscall_tbl.Vectors.Search.{position}
use perprocess_syscall_tbl.Blocking.{is_syscall_blocked}
use perprocess_syscall_tbl.Contract.{Entry, Vector, Table, put_id}
use perprocess_syscall_tbl.Contract.Entries.{records, records-Loads, find_entry}
use perprocess_syscall_tbl.System.Invariant.{Sound}
use perprocess_syscall_tbl.System.Spares.{lookup, Untouched, Spares, lookup-none, lookup-some}
use perprocess_syscall_tbl.System.Mapped.{entry}

abbrev pub name_test : List ℕ → Syscall → Bool
name_test name c = compare_names name (c_str c.name) ==ℤ pos 0

abbrev pub number_test : ℤ → Syscall → Bool
number_test n c = c.syscall_num ==ℤ n

-- A number outside the bitmap is not blocked.
abbrev bit_of : Option Bool → Bool
bit_of none = false
bit_of (some b) = b

unfoldable pub blocked_of : List ℕ → ℕ → Bool
blocked_of bits n =
    if ltb n (8 * num_syscalls) then bit_of (is_syscall_blocked (pos n) bits) else false

abbrev pub vector_of : List ℕ → List Syscall → Vector
vector_of bits cs = record {
  blocked = blocked_of bits;
  entries = λ n. find_entry (number_test n) cs;
}

abbrev vector_at : (Ptr → Option Syscall) → Option (List ℕ × List Ptr) → Option Vector
vector_at heap none = none
vector_at heap (some (bits, ps)) = some (vector_of bits (records heap ps))

abbrev pub view : State → Table
view s = record {
  registered = λ name. find_entry (name_test name) (records s.heap s.syscall_list);
  vectors = λ w. vector_at s.heap (lookup w s.vector_list);
  tasks = s.tasks;
  log = s.module_log;
  self = s.syscall_module;
}

module _ (s : State) (w : ℤ) where
  pub view-none : position w s.vector_list ≡ none → (view s).vectors w ≡ none
  view-none gone = rw (lookup-none w s.vector_list gone) refl

  pub view-some :
      (i : ℕ) (v : SyscallVector) (cs : List Syscall)
      → position w s.vector_list ≡ some i
      → get_elem? s.vector_list i ≡ some v
      → Loads s.heap v.syscall_num_list cs
      → (view s).vectors w ≡ some (vector_of v.blocked cs)
  view-some i v cs found at live =
      rw (lookup-some w s.vector_list i v found at, records-Loads s.heap v.syscall_num_list cs live)
        refl

-- A vector that is untouched stands for the same.
Untouched-view :
    (s t : State) (w : ℤ) → Sound s → Untouched w s t → (view t).vectors w ≡ (view s).vectors w
Untouched-view s t w sound same = elim (Option-cases (position w s.vector_list)) [
  | inl gone ↦ let before = lookup-none w s.vector_list gone in rw (same.looked, before) refl
  | inr (i, found) ↦
      let (v, at, m, _) = entry s sound w i found in
      let before = lookup-some w s.vector_list i v found at in
      let live = same.loads v.blocked v.syscall_num_list m.calls before m.live in
      rw
        (
          same.looked,
          before,
          records-Loads t.heap v.syscall_num_list m.calls live,
          records-Loads s.heap v.syscall_num_list m.calls m.live,
        )
        refl
]

-- A call that is about no vector, and one that leaves the vector `w` as `o`.
pub view-Spares : (s t : State) → Sound s → Spares none s t → (view t).vectors ≡ (view s).vectors
view-Spares s t sound spares = fun_ext λ w. Untouched-view s t w sound (spares w)

pub view-put_id :
    (s t : State) (w : ℤ) (o : Option Vector)
    → Sound s
    → Spares (some w) s t
    → (view t).vectors w ≡ o
    → (view t).vectors ≡ put_id w o (view s).vectors
view-put_id s t w o sound spares e = fun_ext λ x. at x
  where
    at : (x : ℤ) → (view t).vectors x ≡ put_id w o (view s).vectors x
    at x = elim (ℤ-eq-cases x w) [
      | inl hit ↦ rw ((==ℤ_iff x w).1 hit) (ap (view t).vectors hit ∙ e)
      | inr miss ↦ rw (ne→==ℤ x w miss) (Untouched-view s t x sound (spares x miss))
    ]

-- The parts of the table together.
pub view-parts :
    (t : State) {r : List ℕ → Option Entry} {v : ℤ → Option Vector} {ts : List Task}
    {log : List ModuleCall} {self : Ptr}
    → (view t).registered ≡ r
    → (view t).vectors ≡ v
    → t.tasks ≡ ts
    → t.module_log ≡ log
    → t.syscall_module ≡ self
    → view t ≡ record { registered = r; vectors = v; tasks = ts; log = log; self = self }
view-parts t r v ts log self =
    λ i. record { registered = r i; vectors = v i; tasks = ts i; log = log i; self = self i }
