-- ===== src/Samples/Erasing.antt =====
-- What unregister_syscall of syscall_module/syscall_tbl.c erases from the abstract table, and the counts of
-- modules that let it.
use perprocess_syscall_tbl.Prelude.{◌≢◌}
use perprocess_syscall_tbl.Prelude.{
  ℕ, ◌≤◌, ◌≡◌, sym, ap, ◌∙◌, subst, ℤ, pos, ◌==ℤ◌, ==ℤ_iff, Bool, true, false, Bool-cases, Option,
  none, some, List, ◌∷◌, arith, inl, inr, ltb, if◌then◌else◌,
}
use perprocess_syscall_tbl.Strings.{c_str}
use perprocess_syscall_tbl.Strings.Compare.{compare_names, compare_names-eq}
use perprocess_syscall_tbl.Kernel.{Ptr, ModuleCall, State, ebusy, module_get, module_put}
use perprocess_syscall_tbl.Contract.{Table, put_name, Entry, unregistering}
use perprocess_syscall_tbl.Contract.View.{view}

not_above : (n : ℕ) → n ≤ 1 → ltb 1 n ≡ false
not_above n small = ground arith

-- What the kernel says of module_refcount: module_put takes at most one reference back, and try_module_get
-- of one module gives no other one a reference.
pub record IsRefcount (count : Ptr → List ModuleCall → ℕ) : Type 0 where
  pub put_le : (m p : Ptr) (log : List ModuleCall) → count m (module_put p ∷ log) ≤ count m log
  pub get_other :
      (m p : Ptr) (log : List ModuleCall) → m ≢ p → count m (module_get p ∷ log) ≡ count m log

-- Where the name is registered, the count of its module is at most 1, with which unregister_syscall does not
-- refuse it.
abbrev pub Idle : (Ptr → List ModuleCall → ℕ) → List ℕ → Table → Type 0
Idle count name a = (e : Entry) → a.registered (c_str name) ≡ some e → count e.module_ptr a.log ≤ 1

-- What the specification says of the name, where no count is in the way.
module _ (count : Ptr → List ModuleCall → ℕ) (name : List ℕ) (s t : State) (rc : ℤ) where
  abbrev erased_table : Table
  erased_table = record (view s) {
    registered = put_name (c_str name) none (view s).registered;
    log = module_put (view s).self ∷ (view s).log;
  }

  pub erased :
      (old : Option Entry)
      → Idle count name (view s)
      → (view s).registered (c_str name) ≡ old
      → (rc, view t) ≡ unregistering count name old (view s)
      → (x : List ℕ)
      → (view t).registered x
        ≡ (if compare_names x (c_str name) ==ℤ pos 0 then none else (view s).registered x)
  erased none idle gone spec x =
      let kept : (view t).registered x ≡ (view s).registered x =
        ap (λ (r : ℤ × Table). r.1.registered x) spec in
      elim (Bool-cases (compare_names x (c_str name) ==ℤ pos 0)) [
        | inl hit ↦
            let here = compare_names-eq x (c_str name) ((==ℤ_iff _ (pos 0)).0 hit) in
            rw hit (kept ∙ ap (view s).registered here ∙ gone)
        | inr miss ↦ rw miss kept
      ]
  erased (some e) idle there spec x =
      ap (λ (r : ℤ × Table). r.1.registered x)
        (spec
          ∙ ap (λ b. if b then (ebusy, view s) else (pos 0, erased_table))
              (not_above (count e.module_ptr (view s).log) (idle e there)))

  Idle-erased :
      (other : List ℕ)
      → IsRefcount count
      → Idle count other (view s)
      → Idle count other erased_table
  Idle-erased other counts idle e h =
      elim (Bool-cases (compare_names (c_str other) (c_str name) ==ℤ pos 0)) [
        | inl hit ↦ cc (h, ap (λ b. if b then none else (view s).registered (c_str other)) hit)
        | inr miss ↦
            let here =
              sym (ap (λ b. if b then none else (view s).registered (c_str other)) miss) ∙ h in
            omega (arith, counts.put_le e.module_ptr (view s).self (view s).log, idle e here)
      ]

  abbrev refused : Bool → ℤ × Table
  refused b = if b then (ebusy, view s) else (pos 0, erased_table)

  -- No count grows.
  pub Idle-unregistering :
      (other : List ℕ) (old : Option Entry)
      → IsRefcount count
      → (rc, view t) ≡ unregistering count name old (view s)
      → Idle count other (view s)
      → Idle count other (view t)
  Idle-unregistering other none counts spec idle =
      subst (Idle count other) (sym (ap (λ (r : ℤ × Table). r.1) spec)) idle
  Idle-unregistering other (some e) counts spec idle =
      subst (Idle count other) (sym (ap (λ (r : ℤ × Table). r.1) spec))
        (either (ltb 1 (count e.module_ptr (view s).log)))
    where
      either : (b : Bool) → Idle count other (refused b).1
      either true = idle
      either false = Idle-erased other counts idle
