-- ===== src/Clone/Wrapper.antt =====
-- sys_clone2_wrapper of clone2/sys_clone2_lib.c on every branch, with what the C library says of the
-- values of syscall: -1 on every error, with the cause in errno, and the pid of the child otherwise.
use perprocess_syscall_tbl.Prelude.{
  ℕ, ◌<◌, ◌≡◌, ◌≢◌, ◌⊎◌, refl, inl, inr, Bool, Bool-cases, ℤ, pos, negsuc, ltb_ℤ, true, false, none,
  some, ◌==◌, arith,
}
use perprocess_syscall_tbl.Kernel.{Ptr, State, M, fault, done, einval}
use perprocess_syscall_tbl.Clone.{to_pid, wrapper_result, sys_clone2_wrapper}

pub to_pid-pos : (pid : ℕ) → pid < 2147483648 → to_pid (pos pid) ≡ pos pid
unfolding to_pid
to_pid-pos pid small = ground arith

pub not_negative : (pid : ℕ) → ltb_ℤ (pos pid) (pos 0) ≡ false
not_negative pid = ground arith

pub wrapper_result-pos :
    (pid : ℕ) → pid < 2147483648 → wrapper_result (pos pid) ≡ record { rc = pos pid; errno = none }
unfolding wrapper_result
wrapper_result-pos pid small = rw (not_negative pid, to_pid-pos pid small) refl

wrapper_result-error : wrapper_result (negsuc 0) ≡ record { rc = negsuc 0; errno = some (negsuc 0) }
unfolding wrapper_result to_pid
wrapper_result-error = refl

is_null : (p : Ptr) → ((p == 0) ≡ true) → p ≡ 0
is_null p e = ground (arith, e)

not_null : (p : Ptr) → ((p == 0) ≡ false) → p ≢ 0
not_null p e z = absurd (ground (arith, e, z))

-- What syscall returns, by its documentation.
abbrev pub IsSyscallValue : ℤ → Type 0
IsSyscallValue rc = (rc ≡ negsuc 0) ⊎ ((pid : ℕ) × (rc ≡ pos pid) × (pid < 2147483648))

-- Where the system call ends with a documented value, sys_clone2_wrapper takes just one of four ways. With
-- NULL for the function or the stack it returns -EINVAL, makes no call and changes nothing. Otherwise it
-- is a fault where eight bytes cannot be stored at the top of the stack. Where they can, it ends in the
-- state that the call with the flags, the stack and the vector leaves: with -1 and errno -1 where the call
-- fails, whatever the cause that the C library had put there, and with the pid and errno as it is where
-- the call gives a pid.
pub sys_clone2_wrapper_cases :
    (writable : Ptr → Bool) (syscall : ℤ → Ptr → ℤ → M ℤ) (fn stack_top : Ptr) (flags vector_id : ℤ)
    (s t : State) (rc : ℤ)
    → syscall flags stack_top vector_id s ≡ done rc t
    → IsSyscallValue rc
    → (((fn ≡ 0) ⊎ (stack_top ≡ 0))
        × (sys_clone2_wrapper writable syscall fn stack_top flags vector_id s
            ≡ done (record { rc = einval; errno = none }) s))
      ⊎ ((fn ≢ 0)
          × (stack_top ≢ 0)
          × (((writable stack_top ≡ false)
                × (sys_clone2_wrapper writable syscall fn stack_top flags vector_id s ≡ fault))
              ⊎ ((writable stack_top ≡ true)
                  × (((rc ≡ negsuc 0)
                        × (sys_clone2_wrapper writable syscall fn stack_top flags vector_id s
                            ≡ done (record { rc = negsuc 0; errno = some (negsuc 0) }) t))
                      ⊎ ((rc ≢ negsuc 0)
                          × (sys_clone2_wrapper writable syscall fn stack_top flags vector_id s
                              ≡ done (record { rc = rc; errno = none }) t))))))
unfolding sys_clone2_wrapper
sys_clone2_wrapper_cases writable syscall fn stack_top flags vector_id s t rc called value =
    elim (Bool-cases (fn == 0)) [
      | inl f ↦ inl (inl (is_null fn f), rw f refl)
      | inr f ↦ elim (Bool-cases (stack_top == 0)) [
        | inl g ↦ inl (inr (is_null stack_top g), rw (f, g) refl)
        | inr g ↦ inr (
          not_null fn f,
          not_null stack_top g,
          elim (Bool-cases (writable stack_top)) [
            | inr w ↦ inl (w, rw (f, g, w) refl)
            | inl w ↦ inr (
              w,
              elim value [
                | inl e ↦ inl (e, rw (f, g, w, called, e, wrapper_result-error) refl)
                | inr (pid, e, small) ↦
                    inr
                      ((λ z. cc (e, z)), rw (f, g, w, called, e, wrapper_result-pos pid small) refl)
              ],
            )
          ],
        )
      ]
    ]
