-- ===== src/Tests/Whole.antt =====
-- The theorems on the whole table, at the table of the fixture.
use perprocess_syscall_tbl.Kernel.{module_get, module_put}
use perprocess_syscall_tbl.Samples.Erasing.{IsRefcount, Idle}
use perprocess_syscall_tbl.Samples.Extends.{Freeable}
use perprocess_syscall_tbl.Contract.View.{view}
use perprocess_syscall_tbl.Prelude.{◌≤◌, ◌-◌, ◌==◌, suc, if◌then◌else◌, arith, refl, ◌≢◌}
use perprocess_syscall_tbl.Prelude.{
  ℕ, ◌+◌, ◌*◌, ◌==◌, ◌<◌, ◌≡◌, ◌≢◌, refl, ℤ, pos, Bool, true, false, none, some, Option, List, [],
  ◌∷◌, ltb, suc, arith, get_elem?, find_idx, inr, if◌then◌else◌,
}
use perprocess_syscall_tbl.Registry.{Block}
use perprocess_syscall_tbl.Samples.Load.{init_test_syscalls, SameLookups}
use perprocess_syscall_tbl.System.{Fresh, Unheld}
use perprocess_syscall_tbl.Prelude.{
  ◌≢◌, ◌==ℤ◌, ◌∙◌, Bool, true, false, not, ◌&&◌, List, [], ◌∷◌, All,
}
use perprocess_syscall_tbl.Kernel.{Syscall}
use perprocess_syscall_tbl.Strings.{c_str}
use perprocess_syscall_tbl.Strings.Compare.{compare_names, compare_names_refl}
use perprocess_syscall_tbl.Samples.Load.{sample_calls}
use perprocess_syscall_tbl.Samples.Unload.{exit_test_syscalls, Without, exit_test_syscalls-Without}
use perprocess_syscall_tbl.Samples.Roundtrip.{exit_test_syscalls-init}
use perprocess_syscall_tbl.Tests.Fixture.{heap}
use perprocess_syscall_tbl.Prelude.{length, is_some, Option-cases, inl}
use perprocess_syscall_tbl.Kernel.{Ptr, ModuleCall, Task, State, done}
use perprocess_syscall_tbl.Vectors.{num_syscalls, remove_syscall_vector}
use perprocess_syscall_tbl.Dispatch.{cmp_syscall_by_syscall_num, get_syscall_fn}
use perprocess_syscall_tbl.System.{block, perform}
use perprocess_syscall_tbl.System.Invariant.{Sound}
use perprocess_syscall_tbl.System.Retire.{Unassigned, vector_can_be_removed}
use perprocess_syscall_tbl.Vectors.Search.{position}
use perprocess_syscall_tbl.Assignment.Evacuation.{Findable, evacuated}
use perprocess_syscall_tbl.System.Isolation.{perform_isolates}
use perprocess_syscall_tbl.Prelude.{erase_idx, zero, sym, ap, some-inj, none}
use perprocess_syscall_tbl.Tests.Fixture.{filled, sys_open, sys_close, table}
use perprocess_syscall_tbl.Tests.Witnesses.{table-Tallied, table-IsRegistry}

pub table-Sound : Sound table
unfolding cmp_syscall_by_syscall_num perprocess_syscall_tbl.Prelude.◌-ℤ◌
table-Sound = record {
  tallied = table-Tallied;
  calls = sys_close ∷ sys_open ∷ [];
  registry = table-IsRegistry;
  vectors = (
    record {
      calls = sys_open ∷ sys_close ∷ [];
      live = (refl, (refl, tt));
      sorted = ((refl, tt), (tt, tt));
      bytes = omega arith;
      whole = refl;
    },
    (
      record {
        calls = sys_open ∷ [];
        live = (refl, tt);
        sorted = (tt, tt);
        bytes = omega arith;
        whole = refl;
      },
      tt,
    ),
  );
}

-- Every module is used once.
abbrev pub used_once : Ptr → List ModuleCall → ℕ
used_once m log = 1

perform_isolates_example :
    (rc : ℤ) × (t : State) × (perform used_once (block (pos 1) (pos 2)) table ≡ done rc t)
    × Sound t
    × ((w : ℤ) (n : ℕ)
        → some (pos 1) ≢ some w
        → n < 8 * num_syscalls
        → (r : ℕ) × (get_syscall_fn w (pos n) table ≡ done r table)
          × (get_syscall_fn w (pos n) t ≡ done r t))
unfolding find_idx
perform_isolates_example =
    perform_isolates used_once (block (pos 1) (pos 2)) table table-Sound
      (refl, 2, refl, omega arith)

abbrev pub new_tasks : List Task
new_tasks =
    record { pid = pos 1; vector_id = pos 0 } ∷ record { pid = pos 2; vector_id = pos 0 } ∷ []

table-Findable : Findable table.tasks
unfolding find_idx
table-Findable zero t at = rw (sym (ap (λ (r : Task). r.pid) (some-inj _ t at))) refl
table-Findable (suc zero) t at = rw (sym (ap (λ (r : Task). r.pid) (some-inj _ t at))) refl
table-Findable (suc (suc i)) t at = cc at

vector_can_be_removed_example :
    (t u : State) × Unassigned table t
    × Sound t
    × (t.tasks ≡ evacuated (pos 1) table.tasks)
    × (remove_syscall_vector (pos 1) t ≡ done (pos 0) u)
    × (u.tasks ≡ t.tasks)
    × (position (pos 1) u.vector_list ≡ none)
unfolding find_idx
vector_can_be_removed_example =
    vector_can_be_removed table (pos 1) 0 table-Sound table-Findable refl

-- One block of memory, as long as it is free.
abbrev one_block : State → Option Block
one_block s = if is_some (s.heap 300) then none else some (record { addr = 300; bytes = filled 64 })

one_block-Fresh : (s : State) → Fresh (one_block s) s
one_block-Fresh s = elim (Option-cases (s.heap 300)) [
  | inl free ↦ rw free (refl, free)
  | inr (c, held) ↦ rw held tt
]

-- The table holds no record with a name other than those of its two records.
apart-Unheld :
    (name : List ℕ)
    → (compare_names (c_str sys_open.name) (c_str name) ==ℤ pos 0) ≡ false
    → (compare_names (c_str sys_close.name) (c_str name) ==ℤ pos 0) ≡ false
    → Unheld name table
apart-Unheld name no_open no_close =
    let first : (c : Syscall) → heap 200 ≡ some c → c_str c.name ≢ c_str name =
      λ c at. other sys_open c at no_open in
    let second : (c : Syscall) → heap 100 ≡ some c → c_str c.name ≢ c_str name =
      λ c at. other sys_close c at no_close in
    ((first, (second, tt)), ((first, tt), tt))
  where
    other :
        (d c : Syscall)
        → some d ≡ some c
        → (compare_names (c_str d.name) (c_str name) ==ℤ pos 0) ≡ false
        → c_str c.name ≢ c_str name
    other d c at apart e = cc (
      apart,
      ap (λ x. compare_names x (c_str name) ==ℤ pos 0)
          (ap (λ r. c_str r.name) (some-inj d c at) ∙ e),
      ap (λ r. r ==ℤ pos 0) (compare_names_refl (c_str name)),
    )

abbrev are_apart : List (List ℕ × ℤ) → Bool
are_apart [] = true
are_apart ((name, num) ∷ rest) =
    not (compare_names (c_str sys_open.name) (c_str name) ==ℤ pos 0)
    && (not (compare_names (c_str sys_close.name) (c_str name) ==ℤ pos 0) && are_apart rest)

apart_split :
    (a b rest : Bool)
    → (not a && (not b && rest)) ≡ true
    → (a ≡ false) × (b ≡ false) × (rest ≡ true)
apart_split false false true e = (refl, refl, refl)
apart_split false false false e = cc e
apart_split false true rest e = cc e
apart_split true b rest e = cc e

calls-Unheld :
    (calls : List (List ℕ × ℤ)) → are_apart calls ≡ true → All (λ c. Unheld c.0 table) calls
calls-Unheld [] e = tt
calls-Unheld ((name, num) ∷ rest) e =
    let (no_open, no_close, more) = apart_split _ _ (are_apart rest) e in
    (apart-Unheld name no_open no_close, calls-Unheld rest more)

-- The references that a module has, from the log.
abbrev refcount : Ptr → List ModuleCall → ℕ
refcount m [] = 0
refcount m (module_get p ∷ log) = if m == p then suc (refcount m log) else refcount m log
refcount m (module_put p ∷ log) = if m == p then refcount m log - 1 else refcount m log

refcount-IsRefcount : IsRefcount refcount
refcount-IsRefcount = record {
  put_le = λ m p log. put m p log;
  get_other = λ m p log other. get m p log other;
}
  where
    put : (m p : Ptr) (log : List ModuleCall) → refcount m (module_put p ∷ log) ≤ refcount m log
    put m p log = ground arith

    get :
        (m p : Ptr) (log : List ModuleCall)
        → m ≢ p
        → refcount m (module_get p ∷ log) ≡ refcount m log
    get m p log other = ground (arith, other)

-- None of the names is registered in the table.
abbrev are_new : List (List ℕ × ℤ) → Bool
are_new [] = true
are_new ((name, num) ∷ rest) =
    not (is_some ((view table).registered (c_str name))) && (true && are_new rest)

calls-Freeable :
    (calls : List (List ℕ × ℤ))
    → are_new calls ≡ true
    → All (λ c. Freeable refcount 5 c.0 (view table)) calls
calls-Freeable [] e = tt
calls-Freeable ((name, num) ∷ rest) e =
    let (gone, _, more) = apart_split (is_some _) false (are_new rest) e in
    ((((λ q. cc q), omega arith), (λ r at. cc (gone, ap is_some at))), calls-Freeable rest more)

calls-Idle :
    (calls : List (List ℕ × ℤ))
    → are_new calls ≡ true
    → All (λ c. Idle refcount c.0 (view table)) calls
calls-Idle [] e = tt
calls-Idle ((name, num) ∷ rest) e =
    let (gone, _, more) = apart_split (is_some _) false (are_new rest) e in
    ((λ r at. cc (gone, ap is_some at)), calls-Idle rest more)

exit_test_syscalls-Without_example :
    (t : State) × (exit_test_syscalls refcount (λ name. filled 64) table ≡ done tt t)
    × Sound t
    × SameLookups table t
    × Without sample_calls table t
unfolding c_str compare_names perprocess_syscall_tbl.Contract.Entries.find_entry
    perprocess_syscall_tbl.Contract.Entries.records
exit_test_syscalls-Without_example =
    exit_test_syscalls-Without refcount (λ name. filled 64) table refcount-IsRefcount (λ name. refl)
      table-Sound (calls-Unheld sample_calls refl) (calls-Idle sample_calls refl)

exit_test_syscalls-init_example :
    (t : State) × (u : State) × (init_test_syscalls one_block (λ name. filled 64) length 5 table
      ≡ done (pos 0) t)
    × (exit_test_syscalls refcount (λ name. filled 64) t ≡ done tt u)
    × (Sound t × Sound u)
    × (SameLookups table t × SameLookups t u)
    × Without sample_calls table u
unfolding c_str compare_names perprocess_syscall_tbl.Contract.Entries.find_entry
    perprocess_syscall_tbl.Contract.Entries.records
exit_test_syscalls-init_example =
    exit_test_syscalls-init one_block (λ name. filled 64) (λ name. filled 64) length 5 refcount
      table one_block-Fresh (λ name. refl) (λ name. refl) refcount-IsRefcount table-Sound
      (calls-Unheld sample_calls refl) (calls-Freeable sample_calls refl)
