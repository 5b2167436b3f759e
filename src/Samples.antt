-- ===== src/Samples.antt =====
-- The sample system calls of syscall_module/test_syscalls.c that take a path; rename2 and rmdir2 look at it.
-- What kmalloc and copy_from_user return is an argument.
pub mod Files
pub mod Load
pub mod Shrinks
pub mod Extends
pub mod Erasing
pub mod Unload
pub mod Roundtrip
use perprocess_syscall_tbl.Prelude.{
  ℕ, ◌≡◌, ◌≢◌, refl, ap, ◌∙◌, ℤ, pos, negsuc, ltb_ℤ, Bool, true, false, not, Option, none, some,
  List, [], ◌∷◌, ◌++◌, All, arith, ◌==◌, ◌≤◌, ltb, if◌then◌else◌, Option-cases, Bool-cases, inl,
  inr, ◌⊎◌,
}
use perprocess_syscall_tbl.Kernel.{Ptr}
use perprocess_syscall_tbl.Strings.{c_str, strlen}

abbrev pub wrapped : ℤ
wrapped = negsuc 7999

abbrev pub enot_supported : ℤ
enot_supported = negsuc 9499

-- The four calls that only say so; what they print is left out.
unfoldable pub mkdir2 : Ptr → ℕ → ℤ
mkdir2 pathname mode = wrapped

unfoldable pub link2 : Ptr → Ptr → ℤ
link2 oldname newname = wrapped

unfoldable pub unlink2 : Ptr → ℤ
unlink2 pathname = wrapped

unfoldable pub chmod2 : Ptr → ℕ → ℤ
chmod2 filename mode = wrapped

abbrev pub protect : List ℕ
protect = b'p' ∷ b'r' ∷ b'o' ∷ b't' ∷ b'e' ∷ b'c' ∷ b't' ∷ []

-- What strsep(&kbuf, ".") leaves in `kbuf`: the string behind the first dot, or NULL.
unfoldable pub after_dot : List ℕ → Option (List ℕ)
after_dot [] = none
after_dot (c ∷ cs) = let rest = after_dot cs in if c == b'.' then some cs else rest

-- strcmp(a, b) == 0 of two strings.
unfoldable pub same_string : List ℕ → List ℕ → Bool
same_string [] [] = true
same_string [] (d ∷ ds) = false
same_string (c ∷ cs) [] = false
same_string (c ∷ cs) (d ∷ ds) = let rest = same_string cs ds in if c == d then rest else false

-- What the code returns for the string behind the dot.
unfoldable pub answer : Option (List ℕ) → ℤ
unfolding same_string
answer none = wrapped
answer (some suffix) = if same_string suffix protect then enot_supported else wrapped

-- The body of rename2 and rmdir2: `user_copy` is what copy_from_user returns and the bytes that it
-- leaves in `kbuf`, which ends with the NUL that the code writes at `strlen(path)`. A path with more
-- than 99 bytes leaves the 100 bytes of `kbuf`: none.
unfoldable pub check_path : Bool → (List ℕ → ℤ × List ℕ) → List ℕ → Option ℤ
unfolding after_dot answer strlen
check_path allocated user_copy path =
    if not allocated
    then some wrapped
    else if ltb 99 (strlen path)
    then none
    else if ltb_ℤ (user_copy path).0 (pos 0)
    then some wrapped
    else some (answer (after_dot (c_str (user_copy path).1)))

unfoldable pub rename2 : Bool → (List ℕ → ℤ × List ℕ) → List ℕ → List ℕ → Option ℤ
unfolding check_path
rename2 allocated user_copy oldname newname = check_path allocated user_copy oldname

unfoldable pub rmdir2 : Bool → (List ℕ → ℤ × List ℕ) → List ℕ → Option ℤ
unfolding check_path
rmdir2 allocated user_copy pathname = check_path allocated user_copy pathname

same_string-eq : (a b : List ℕ) → same_string a b ≡ true → a ≡ b
unfolding same_string
same_string-eq [] [] e = refl
same_string-eq [] (d ∷ ds) e = cc
same_string-eq (c ∷ cs) [] e = cc
same_string-eq (c ∷ cs) (d ∷ ds) e = ground (arith, same_string-eq cs ds)

after_dot-append :
    (base rest : List ℕ) → All (λ c. c ≢ b'.') base → after_dot (base ++ (b'.' ∷ rest)) ≡ some rest
unfolding after_dot
after_dot-append [] rest h = refl
after_dot-append (c ∷ cs) rest (n, h) = ground (arith, after_dot-append cs rest h)

after_dot-split :
    (s rest : List ℕ)
    → after_dot s ≡ some rest
    → (base : List ℕ) × All (λ c. c ≢ b'.') base × (s ≡ base ++ (b'.' ∷ rest))
unfolding after_dot
after_dot-split [] rest e = cc
after_dot-split (c ∷ cs) rest e = elim (Bool-cases (c == b'.')) [
  | inl dot ↦ ([], tt, ground arith)
  | inr other ↦
      let (base, h, same) = after_dot-split cs rest (ground arith) in
      (c ∷ base, (ground arith, h), ap (λ l. c ∷ l) same)
]

check_path-answer :
    (user_copy : List ℕ → ℤ × List ℕ) (path : List ℕ)
    → strlen path ≤ 99
    → user_copy path ≡ (pos 0, path)
    → check_path true user_copy path ≡ some (answer (after_dot (c_str path)))
unfolding check_path
check_path-answer user_copy path short whole = rw whole (ground arith)

protect_same : same_string protect protect ≡ true
unfolding same_string
protect_same = refl

-- The suffix `protect` stands behind the first dot.
abbrev pub Protected : List ℕ → Type 0
Protected s = (base : List ℕ) × All (λ c. c ≢ b'.') base × (s ≡ base ++ (b'.' ∷ protect))

answer_cases :
    (s : List ℕ)
    → (Protected s × (answer (after_dot s) ≡ enot_supported))
      ⊎ (¬ (Protected s) × (answer (after_dot s) ≡ wrapped))
unfolding answer
answer_cases s = elim (Option-cases (after_dot s)) [
  | inl nothing ↦
      inr ((λ (base, h, e). cc (after_dot-append base protect h, e, nothing)), rw nothing refl)
  | inr (suffix, found) ↦ elim (Bool-cases (same_string suffix protect)) [
    | inl same ↦
        let (base, h, e) = after_dot-split s suffix found in
        inl (
          (base, h, e ∙ ap (λ l. base ++ (b'.' ∷ l)) (same_string-eq suffix protect same)),
          rw (found, same) refl,
        )
    | inr other ↦ inr (
      (λ (base, h, e). cc (after_dot-append base protect h, e, found, other, protect_same)),
      rw (found, other) refl,
    )
  ]
]

-- With memory and a complete copy of a path of at most 99 bytes, rename2 and rmdir2 return
-- ENOT_SUPPORTED just for a path whose part behind its first dot is `protect`, and WRAPPED for every
-- other path.
pub rename2_protects :
    (user_copy : List ℕ → ℤ × List ℕ) (path newname : List ℕ)
    → strlen path ≤ 99
    → user_copy path ≡ (pos 0, path)
    → (rename2 true user_copy path newname ≡ rmdir2 true user_copy path)
      × ((Protected (c_str path) × (rename2 true user_copy path newname ≡ some enot_supported))
          ⊎ (¬ (Protected (c_str path)) × (rename2 true user_copy path newname ≡ some wrapped)))
unfolding rename2 rmdir2
rename2_protects user_copy path newname short whole =
    let result = check_path-answer user_copy path short whole in
    (
      refl,
      elim (answer_cases (c_str path)) [
        | inl (yes_, e) ↦ inl (yes_, result ∙ ap some e)
        | inr (no_, e) ↦ inr (no_, result ∙ ap some e)
      ],
    )
