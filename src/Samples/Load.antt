-- ===== src/Samples/Load.antt =====
-- init_test_syscalls of syscall_module/test_syscalls.c, which registers the sample system calls and reads
-- none of the values. The block that kmalloc finds in a state, the content of the uninitialised buffers
-- and the addresses of the functions are arguments; a name stands for the call that it is passed to.
use perprocess_syscall_tbl.Prelude.{
  ℕ, ◌*◌, ◌<◌, ◌≡◌, refl, sym, ap, ◌∙◌, ℤ, pos, Option, List, [], ◌∷◌, All, arith, length,
}
use perprocess_syscall_tbl.Strings.{c_str}
use perprocess_syscall_tbl.Kernel.{Ptr, State, M, done, done-inj, gets, ◌>>=◌, ◌>>◌, pure}
use perprocess_syscall_tbl.Registry.{Block, register_syscall}
use perprocess_syscall_tbl.Registry.Search.{IsShort}
use perprocess_syscall_tbl.Vectors.{num_syscalls}
use perprocess_syscall_tbl.Dispatch.{get_syscall_fn}
use perprocess_syscall_tbl.System.{Fresh, register}
use perprocess_syscall_tbl.System.Invariant.{Sound}
use perprocess_syscall_tbl.System.Isolation.{perform_isolates, get_syscall_fn-Sound}

-- The name and the number of each call, in the order of the source.
abbrev pub sample_calls : List (List ℕ × ℤ)
sample_calls =
    (b'r' ∷ b'e' ∷ b'a' ∷ b'd' ∷ b'2' ∷ [], pos 0)
    ∷ (b'o' ∷ b'p' ∷ b'e' ∷ b'n' ∷ b'2' ∷ [], pos 2)
    ∷ (b'c' ∷ b'l' ∷ b'o' ∷ b's' ∷ b'e' ∷ b'2' ∷ [], pos 3)
    ∷ (b'm' ∷ b'k' ∷ b'd' ∷ b'i' ∷ b'r' ∷ b'2' ∷ [], pos 83)
    ∷ (b'l' ∷ b'i' ∷ b'n' ∷ b'k' ∷ b'2' ∷ [], pos 86)
    ∷ (b'u' ∷ b'n' ∷ b'l' ∷ b'i' ∷ b'n' ∷ b'k' ∷ b'2' ∷ [], pos 87)
    ∷ (b'c' ∷ b'h' ∷ b'm' ∷ b'o' ∷ b'd' ∷ b'2' ∷ [], pos 90)
    ∷ (b'r' ∷ b'e' ∷ b'n' ∷ b'a' ∷ b'm' ∷ b'e' ∷ b'2' ∷ [], pos 82)
    ∷ (b'r' ∷ b'm' ∷ b'd' ∷ b'i' ∷ b'r' ∷ b'2' ∷ [], pos 84)
    ∷ []

module _ (kmalloc : State → Option Block) (temp : List ℕ → List ℕ) (address : List ℕ → ℕ)
    (this_module : Ptr) where
  unfoldable pub register_all : List (List ℕ × ℤ) → M Unit
  register_all [] = pure tt
  register_all ((name, num) ∷ rest) = do
    block ← gets kmalloc
    register_syscall (temp name) block name (address name) num this_module
    register_all rest

  unfoldable pub init_test_syscalls : M ℤ
  unfolding register_all
  init_test_syscalls = do register_all sample_calls; pure (pos 0)

-- The same value of every lookup within the bitmap.
abbrev pub SameLookups : State → State → Type 0
SameLookups s t =
    (w : ℤ) (n : ℕ)
    → n < 8 * num_syscalls
    → (r : ℕ) × (get_syscall_fn w (pos n) s ≡ done r s) × (get_syscall_fn w (pos n) t ≡ done r t)

pub SameLookups-trans : (s t u : State) → SameLookups s t → SameLookups t u → SameLookups s u
SameLookups-trans s t u st tu w n small =
    let (r, before, between) = st w n small in
    let (q, between', after) = tu w n small in
    (r, before, after ∙ ap (λ x. done x u) (done-inj (sym between' ∙ between)))

module _ (kmalloc : State → Option Block) (temp : List ℕ → List ℕ) (address : List ℕ → ℕ)
    (this_module : Ptr) (fresh : (s : State) → Fresh (kmalloc s) s)
    (full : (name : List ℕ) → length (temp name) ≡ 64) where
  register_all-Sound :
      (calls : List (List ℕ × ℤ)) (s : State)
      → Sound s
      → All (λ c. IsShort c.0) calls
      → (t : State) × (register_all kmalloc temp address this_module calls s ≡ done tt t)
        × Sound t
        × SameLookups s t
  unfolding register_all
  register_all-Sound [] s sound short = (
    s,
    refl,
    sound,
    λ w n small. let (r, e) = get_syscall_fn-Sound s w n sound small in (r, e, e),
  )
  register_all-Sound ((name, num) ∷ rest) s sound (fits, short) =
      let (rc, t, e, sound', same) =
        perform_isolates (λ p log. 0)
          (register (temp name) (kmalloc s) name (address name) num this_module) s sound
          (full name, fits, fresh s) in
      let (u, e', sound'', same') = register_all-Sound rest t sound' short in
      (u, rw e e', sound'', SameLookups-trans s t u (λ w n small. same w n (λ q. cc q) small) same')

pub sample_calls-IsShort : All (λ (c : List ℕ × ℤ). IsShort c.0) sample_calls
unfolding c_str
sample_calls-IsShort = (
  omega arith,
  (
    omega arith,
    (
      omega arith,
      (omega arith, (omega arith, (omega arith, (omega arith, (omega arith, (omega arith, tt)))))),
    ),
  ),
)

-- Where kmalloc gives a block that is not in use, or none, init_test_syscalls ends with 0 from every sound
-- table, whichever of its registrations fail, keeps the table sound, and changes no lookup of any vector:
-- no process sees the module before its calls are put in a vector.
pub init_test_syscalls-Sound :
    (kmalloc : State → Option Block) (temp : List ℕ → List ℕ) (address : List ℕ → ℕ)
    (this_module : Ptr) (s : State)
    → ((u : State) → Fresh (kmalloc u) u)
    → ((name : List ℕ) → length (temp name) ≡ 64)
    → Sound s
    → (t : State) × (init_test_syscalls kmalloc temp address this_module s ≡ done (pos 0) t)
      × Sound t
      × SameLookups s t
unfolding init_test_syscalls
init_test_syscalls-Sound kmalloc temp address this_module s fresh full sound =
    let (t, e, sound', same) =
      register_all-Sound kmalloc temp address this_module fresh full sample_calls s sound
        sample_calls-IsShort in
    (t, rw e refl, sound', same)
