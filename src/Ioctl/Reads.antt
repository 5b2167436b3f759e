-- ===== src/Ioctl/Reads.antt =====
-- The requests that read the table, those on blocked numbers, and those that need a name and have none.
use perprocess_syscall_tbl.Prelude.{
  ◌≤◌, ◌≡◌, refl, sym, ap, ◌∙◌, ℤ, pos, true, not, ◌==◌, none, some, List, length, arith, inl, inr,
  ◌⊎◌, if◌then◌else◌,
}
use perprocess_syscall_tbl.Kernel.{State, M, pure, done, Syscall}
use perprocess_syscall_tbl.Blocking.{block_syscall_num, unblock_syscall_num}
use perprocess_syscall_tbl.Report.Entries.{entries, Fitting, get_syscall_tbl_info-entries}
use perprocess_syscall_tbl.Ioctl.{
  Command, get_info, block, unblock, MyArgs, Answers, reply, dispatch, manipulate_syscalls,
}
use perprocess_syscall_tbl.Ioctl.Copies.{copied, manipulate_syscalls-copied}

module _ (k : Answers) (a : MyArgs) (s : State) (whole : copied k a ≡ true)
    (there : k.sys_allocated ≡ true) where
  pub switched : (cmd : Command) → manipulate_syscalls k cmd a s ≡ dispatch k cmd a s
  switched cmd = elim (manipulate_syscalls-copied k cmd a s) [
    | inl (bad, _) ↦ cc (bad, whole)
    | inr (_, d) ↦ d ∙ ap (λ b. (if not b then pure (reply (pos 0)) else dispatch k cmd a) s) there
  ]

  -- With every allocation made and every field copied, get_info of up to 10 vectors of up to 20 live
  -- system calls with names that fit changes nothing and gives the user one entry for each vector in
  -- order, where the copy to the user leaves no byte; its value is the number of bytes left.
  pub manipulate_syscalls-get_info :
      (css : List (List Syscall))
      → Fitting s.heap s.vector_list css
      → length s.vector_list ≤ 10
      → manipulate_syscalls k get_info a s
        ≡ done
            (record (reply (pos k.result_left)) {
              info =
                  if k.result_left == 0
                  then some (record {
                    size = length s.vector_list;
                    syscall_vector_info = entries s.vector_list css;
                  })
                  else none;
            })
            s
  unfolding dispatch
  manipulate_syscalls-get_info css fits few =
      switched get_info ∙ ground (arith, get_syscall_tbl_info-entries s css fits)

  -- The operation of a request on a blocked number.
  abbrev pub OnBit : Command → M ℤ → Type 0
  OnBit cmd op =
      ((cmd ≡ block) × (op ≡ block_syscall_num a.vector_id a.syscall_num))
      ⊎ ((cmd ≡ unblock) × (op ≡ unblock_syscall_num a.vector_id a.syscall_num))

  bit_dispatch :
      (cmd : Command) (op : M ℤ) (rc : ℤ) (t : State)
      → OnBit cmd op
      → op s ≡ done rc t
      → dispatch k cmd a s ≡ done (reply rc) t
  unfolding dispatch
  bit_dispatch cmd op rc t (inl (c, o)) e = rw (c, sym (ap (λ f. f s) o) ∙ e) refl
  bit_dispatch cmd op rc t (inr (c, o)) e = rw (c, sym (ap (λ f. f s) o) ∙ e) refl

  -- With every allocation made and every field copied, the requests block and unblock have the effect
  -- and the value of the operation of the table, and no memory stays allocated.
  pub manipulate_syscalls-block :
      (cmd : Command) (op : M ℤ) (rc : ℤ) (t : State)
      → OnBit cmd op
      → op s ≡ done rc t
      → manipulate_syscalls k cmd a s ≡ done (reply rc) t
  manipulate_syscalls-block cmd op rc t which e = switched cmd ∙ bit_dispatch cmd op rc t which e
