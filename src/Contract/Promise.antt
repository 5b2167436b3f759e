-- ===== src/Contract/Promise.antt =====
-- What it says that a call follows the specification, and what every allowed call leaves.
use perprocess_syscall_tbl.Prelude.{◌≡◌, sym, ◌∙◌, subst, ℤ, List, ℕ}
use perprocess_syscall_tbl.Kernel.{Ptr, ModuleCall, State, done}
use perprocess_syscall_tbl.Contract.{specified}
use perprocess_syscall_tbl.Contract.View.{view}
use perprocess_syscall_tbl.System.{Call, Allowed, named, perform}
use perprocess_syscall_tbl.System.Invariant.{Sound}
use perprocess_syscall_tbl.System.Spares.{Spares}
use perprocess_syscall_tbl.System.Reach.{perform-Sound}

same_rc : {a b : ℤ} {x y : State} → done a x ≡ done b y → a ≡ b
same_rc e = cc

pub same_state : {a b : ℤ} {x y : State} → done a x ≡ done b y → x ≡ y
same_state e = cc

module _ (count : Ptr → List ModuleCall → ℕ) where
  -- The call ends, with the value and the table that are specified.
  abbrev pub Follows : ℤ → Call → State → Type 0
  Follows id call s =
      (rc : ℤ) × (t : State) × (perform count call s ≡ done rc t)
      × ((rc, view t) ≡ specified count id call (view s))

  pub call_end :
      (call : Call) (s t : State) (rc : ℤ)
      → Sound s
      → Allowed call s
      → perform count call s ≡ done rc t
      → Sound t × Spares (named call rc) s t
  call_end call s t rc sound allowed e =
      let (rc', t', e', sound', spares) = perform-Sound count call s sound allowed in
      let same = same_state (sym e' ∙ e) in
      (
        subst Sound same sound',
        subst (λ u. Spares (named call rc) s u) same
            (subst (λ r. Spares (named call r) s t') (same_rc (sym e' ∙ e)) spares),
      )

  -- The call changes nothing.
  pub unchanged :
      (id : ℤ) (call : Call) (s : State) (rc : ℤ)
      → perform count call s ≡ done rc s
      → specified count id call (view s) ≡ (rc, view s)
      → Follows id call s
  unchanged id call s rc e spec = (rc, s, e, sym spec)
