-- ===== src/Ioctl/Operations.antt =====
-- Which operation of the table each command performs, and what the device keeps when it fails.
use perprocess_syscall_tbl.Prelude.{
  ℕ, List, Bool-cases, ◌≡◌, refl, ap, ◌∙◌, ℤ, pos, ltb_ℤ, Bool, true, not, Option, none, some,
  some-inj, inl, inr, if◌then◌else◌,
}
use perprocess_syscall_tbl.Kernel.{State, M, pure, done, and_then}
use perprocess_syscall_tbl.Vectors.{add_syscall_vector, remove_syscall_vector}
use perprocess_syscall_tbl.Mapping.{add_syscall_to_vector, remove_syscall_from_vector}
use perprocess_syscall_tbl.Assignment.{reassign_syscall_vector}
use perprocess_syscall_tbl.Ioctl.{
  Command, add_vector, remove_vector, add_syscall_to_vector_cmd, remove_syscall_from_vector_cmd,
  assign_vector_to_process, get_vector_id_of_process, get_info, block, unblock, other, MyArgs,
  Answers, Reply, reply, finish, with_name, dispatch, manipulate_syscalls,
}
use perprocess_syscall_tbl.Ioctl.Copies.{copied, manipulate_syscalls-copied}

-- The commands that change vectors and processes; those with a name need one.
abbrev pub operation : Answers → Command → MyArgs → Option (M ℤ)
operation k add_vector a = some (add_syscall_vector k.node_allocated)
operation k remove_vector a = some (remove_syscall_vector a.vector_id)
operation k add_syscall_to_vector_cmd a = elim a.name [
  | none ↦ none
  | some name ↦ some (add_syscall_to_vector k.temp k.node_allocated a.vector_id name)
]
operation k remove_syscall_from_vector_cmd a = elim a.name [
  | none ↦ none
  | some name ↦ some (remove_syscall_from_vector k.temp a.vector_id name)
]
operation k assign_vector_to_process a = some (reassign_syscall_vector a.vector_id a.pid)
operation k get_vector_id_of_process a = none
operation k get_info a = none
operation k block a = none
operation k unblock a = none
operation k other a = none

-- The device performs the operation and gives its result, and it keeps one block of memory where that
-- is negative.
abbrev pub answered : ℤ → Reply
answered rc = record (reply rc) { blocks = if ltb_ℤ rc (pos 0) then 1 else 0 }

finish-answered : (rc : ℤ) → finish rc ≡ answered rc
unfolding finish
finish-answered rc = elim (Bool-cases (ltb_ℤ rc (pos 0))) [
  | inl bad ↦ rw bad refl
  | inr good ↦ rw good refl
]

module _ (op : M ℤ) (s : State) (rc : ℤ) (t : State) (e : op s ≡ done rc t) where
  finished :
      (f : M ℤ) → some f ≡ some op → and_then (f s) (λ r. pure (finish r)) ≡ done (finish rc) t
  finished f which =
      ap (λ g. and_then (g s) (λ r. pure (finish r))) (some-inj f op which)
      ∙ ap (λ o. and_then o (λ r. pure (finish r))) e

  finished_name :
      (allocated : Bool) (name : Option (List ℕ)) (f : List ℕ → M ℤ)
      → elim name [ none ↦ none | some n ↦ some (f n) ] ≡ some op
      → and_then (with_name allocated name f s) (λ r. pure (finish r)) ≡ done (finish rc) t
  unfolding with_name
  finished_name allocated none f which = cc which
  finished_name allocated (some n) f which = finished (f n) which

  dispatch-operation :
      (k : Answers) (cmd : Command) (a : MyArgs)
      → operation k cmd a ≡ some op
      → dispatch k cmd a s ≡ done (finish rc) t
  unfolding dispatch
  dispatch-operation k add_vector a which = finished _ which
  dispatch-operation k remove_vector a which = finished _ which
  dispatch-operation k add_syscall_to_vector_cmd a which =
      finished_name k.node_allocated a.name _ which
  dispatch-operation k remove_syscall_from_vector_cmd a which = finished_name true a.name _ which
  dispatch-operation k assign_vector_to_process a which = finished _ which
  dispatch-operation k get_vector_id_of_process a which = cc which
  dispatch-operation k get_info a which = cc which
  dispatch-operation k block a which = cc which
  dispatch-operation k unblock a which = cc which
  dispatch-operation k other a which = cc which

-- With every allocation made and every field copied, a request that stands for an operation of the
-- table has the effect and the value of that operation; it returns with no block of memory held where
-- the value is not negative, and with one block held, which nothing frees, where it is negative.
pub manipulate_syscalls-operation :
    (k : Answers) (cmd : Command) (a : MyArgs) (op : M ℤ) (s : State) (rc : ℤ) (t : State)
    → copied k a ≡ true
    → k.sys_allocated ≡ true
    → operation k cmd a ≡ some op
    → op s ≡ done rc t
    → manipulate_syscalls k cmd a s ≡ done (answered rc) t
manipulate_syscalls-operation k cmd a op s rc t whole there which e =
    elim (manipulate_syscalls-copied k cmd a s) [
      | inl (bad, _) ↦ cc (bad, whole)
      | inr (_, d) ↦
          d
          ∙ ap (λ b. (if not b then pure (reply (pos 0)) else dispatch k cmd a) s) there
          ∙ dispatch-operation op s rc t e k cmd a which
          ∙ ap (λ r. done r t) (finish-answered rc)
    ]
