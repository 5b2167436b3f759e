-- ===== src/Dispatch/Blocked.antt =====
-- What get_syscall_fn returns after block_syscall_num and unblock_syscall_num, and the exit of these
-- two that keeps the lock.
use perprocess_syscall_tbl.Prelude.{
  ℕ, ◌*◌, ◌<◌, ◌/◌, ◌%◌, ◌≡◌, refl, sym, ap, ◌∙◌, ℤ, pos, Bool, true, false, none, some, List,
  arith, ◌==◌, if◌then◌else◌, get_elem?, get_elem?-modify, get_elem?_lt, modify, length,
}
use perprocess_syscall_tbl.Ring.Order.{Loads}
use perprocess_syscall_tbl.Kernel.{Syscall, SyscallVector, State, done, done-inj, deadlock, enoent}
use perprocess_syscall_tbl.Vectors.{add_syscall_vector, remove_syscall_vector}
use perprocess_syscall_tbl.Vectors.Search.{position, get_syscall_vector-position}
use perprocess_syscall_tbl.Assignment.Counts.{position-modify}
use perprocess_syscall_tbl.Blocking.{
  test_bit, update_bit, set_bit, clear_bit, update_blocked, block_syscall_num, unblock_syscall_num,
}
use perprocess_syscall_tbl.Blocking.Bits.{IsBitWrite, set_bit-IsBitWrite, clear_bit-IsBitWrite}
use perprocess_syscall_tbl.Blocking.Bitmap.{
  IsBytes, update_bit-some, is_syscall_blocked-some, is_syscall_blocked-update,
}
use perprocess_syscall_tbl.Dispatch.{enosys_fn, get_syscall_fn}
use perprocess_syscall_tbl.Dispatch.Lookup.{served, get_syscall_fn-served}

-- The write of a vector's bitmap.
abbrev pub with_blocked : List ℕ → SyscallVector → SyscallVector
with_blocked bits u = record u { blocked = bits }

module _ (g : ℕ → ℕ → ℕ) (w : ℤ) (s : State) (free : s.lock ≡ false) where
  update_blocked-none :
      (n : ℤ)
      → position w s.vector_list ≡ none
      → update_blocked g w n s ≡ done enoent (record s { lock = true })
  unfolding update_blocked
  update_blocked-none n e = ground (arith, get_syscall_vector-position w (record s { lock = true }))

  update_blocked-some :
      (n : ℤ) (i : ℕ) (v : SyscallVector) (bits : List ℕ)
      → position w s.vector_list ≡ some i
      → get_elem? s.vector_list i ≡ some v
      → update_bit g n v.blocked ≡ some bits
      → update_blocked g w n s
        ≡ done
            (pos 0)
            (record s { lock = false; vector_list = modify s.vector_list i (with_blocked bits) })
  unfolding update_blocked
  update_blocked-some n i v bits e at new =
      ground (arith, get_syscall_vector-position w (record s { lock = true }))

-- A vector of the table: where it is, that its bitmap holds bytes, and the records of its nodes.
pub record IsEntry (s : State) (w : ℤ) (i : ℕ) (v : SyscallVector) (ds : List Syscall)
    : Type 0 where
  pub free : s.lock ≡ false
  pub found : position w s.vector_list ≡ some i
  pub at : get_elem? s.vector_list i ≡ some v
  pub bytes : IsBytes v.blocked
  pub live : Loads s.heap v.syscall_num_list ds

module _ (g : ℕ → ℕ → ℕ) (b : Bool) (bw : IsBitWrite g b) (s : State) (w : ℤ) (i : ℕ)
    (v : SyscallVector) (ds : List Syscall) (entry : IsEntry s w i v ds) (n : ℕ)
    (inside : n < 8 * length v.blocked) where
  abbrev bitmap : List ℕ
  bitmap = modify v.blocked (n / 8) (λ c. g c (n % 8))

  abbrev pub after : State
  after = record s { lock = false; vector_list = modify s.vector_list i (with_blocked bitmap) }

  pub update_blocked-after : update_blocked g w (pos n) s ≡ done (pos 0) after
  update_blocked-after =
      update_blocked-some g w s entry.free (pos n) i v bitmap entry.found entry.at
        (update_bit-some g b bw v.blocked entry.bytes n inside)

  get_syscall_fn-after :
      (m r : ℕ)
      → m < 8 * length v.blocked
      → get_syscall_fn w (pos m) s ≡ done r s
      → get_syscall_fn w (pos m) after
        ≡ done (if m == n then (if b then enosys_fn else served (pos n) ds) else r) after
  get_syscall_fn-after m r k before =
      let (c, there) = get_elem?_lt v.blocked (m / 8) (omega arith) in
      let old = is_syscall_blocked-some v.blocked m c there in
      let was =
        get_syscall_fn-served s entry.free w (pos m) i v _ ds entry.found entry.at old entry.live in
      get_syscall_fn-served after refl w (pos m) i (with_blocked bitmap v)
        (if m == n then b else test_bit c (m % 8)) ds
        (position-modify (with_blocked bitmap) (λ u. refl) w s.vector_list i ∙ entry.found)
        (get_elem?-modify s.vector_list i (with_blocked bitmap) v entry.at)
        (is_syscall_blocked-update g b bw v.blocked entry.bytes n inside m k ∙ ground (arith, old))
        entry.live
      ∙ ap (λ x. done x after) (result (test_bit c (m % 8)) r (done-inj (sym was ∙ before)))
    where
      result :
          (x : Bool) (y : ℕ)
          → (if x then enosys_fn else served (pos m) ds) ≡ y
          → (if (if m == n then b else x) then enosys_fn else served (pos m) ds)
            ≡ (if m == n then (if b then enosys_fn else served (pos n) ds) else y)
      result x y e = ground arith

-- After block_syscall_num of a number of the bitmap, get_syscall_fn of that vector returns -ENOSYS for
-- this number, and for every other number of the bitmap what it returned before.
pub block_syscall_num-get_syscall_fn :
    (s : State) (w : ℤ) (i : ℕ) (v : SyscallVector) (ds : List Syscall) (n : ℕ)
    → IsEntry s w i v ds
    → n < 8 * length v.blocked
    → (t : State) × (block_syscall_num w (pos n) s ≡ done (pos 0) t)
      × ((m r : ℕ)
          → m < 8 * length v.blocked
          → get_syscall_fn w (pos m) s ≡ done r s
          → get_syscall_fn w (pos m) t ≡ done (if m == n then enosys_fn else r) t)
unfolding block_syscall_num
block_syscall_num-get_syscall_fn s w i v ds n entry inside = (
  after set_bit true set_bit-IsBitWrite s w i v ds entry n inside,
  update_blocked-after set_bit true set_bit-IsBitWrite s w i v ds entry n inside,
  get_syscall_fn-after set_bit true set_bit-IsBitWrite s w i v ds entry n inside,
)

-- After unblock_syscall_num of a number of the bitmap, get_syscall_fn of that vector returns for this
-- number the function of the vector's record with it, or 0 without one, and for every other number of
-- the bitmap what it returned before.
pub unblock_syscall_num-get_syscall_fn :
    (s : State) (w : ℤ) (i : ℕ) (v : SyscallVector) (ds : List Syscall) (n : ℕ)
    → IsEntry s w i v ds
    → n < 8 * length v.blocked
    → (t : State) × (unblock_syscall_num w (pos n) s ≡ done (pos 0) t)
      × ((m r : ℕ)
          → m < 8 * length v.blocked
          → get_syscall_fn w (pos m) s ≡ done r s
          → get_syscall_fn w (pos m) t ≡ done (if m == n then served (pos n) ds else r) t)
unfolding unblock_syscall_num
unblock_syscall_num-get_syscall_fn s w i v ds n entry inside = (
  after clear_bit false clear_bit-IsBitWrite s w i v ds entry n inside,
  update_blocked-after clear_bit false clear_bit-IsBitWrite s w i v ds entry n inside,
  get_syscall_fn-after clear_bit false clear_bit-IsBitWrite s w i v ds entry n inside,
)

-- Blocking a number in a vector that does not exist returns -ENOENT with the lock held, so that every
-- later call that takes the lock waits for ever.
pub block_syscall_num_keeps_lock :
    (s : State) (w n : ℤ)
    → s.lock ≡ false
    → position w s.vector_list ≡ none
    → (t : State) × (block_syscall_num w n s ≡ done enoent t)
      × (unblock_syscall_num w n s ≡ done enoent t)
      × ((x m : ℤ) → get_syscall_fn x m t ≡ deadlock)
      × ((x : ℤ) → remove_syscall_vector x t ≡ deadlock)
      × (add_syscall_vector true t ≡ deadlock)
unfolding block_syscall_num unblock_syscall_num get_syscall_fn remove_syscall_vector
    add_syscall_vector
block_syscall_num_keeps_lock s w n free missing = (
  record s { lock = true },
  update_blocked-none set_bit w s free n missing,
  update_blocked-none clear_bit w s free n missing,
  λ x m. refl,
  λ x. refl,
  refl,
)
