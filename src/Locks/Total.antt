-- ===== src/Locks/Total.antt =====
-- main's loops over the locks, and the memory that they need.
use jabi.Prelude.{
  ℕ, zero, suc, ◌+◌, ◌≤◌, ◌<◌, ◌≡◌, refl, arith, List, [], ◌∷◌, some, true, length, Option-cases,
  inl, inr, All,
}
use jabi.Locks.{
  Instance, DevLock, Boot, find_lock, new_lock, lock_for, lock_row, take_array, lock_rows,
}

-- One array for each peripheral that is in use, and at most one lock for each instance.
abbrev pub needed : List (List Instance) → ℕ
needed [] = 0
needed ([] ∷ iss) = needed iss
needed ((i ∷ is) ∷ iss) = 1 + length (i ∷ is) + needed iss

abbrev pub InitsRow : List Instance → Type 0
InitsRow = All (λ i. i.init_ok ≡ true)

new_lock_total :
    (dev : ℕ) (ds : List DevLock) (h : ℕ)
    → 0 < h
    → (r : ℕ × Boot) × (new_lock dev ds h ≡ some r) × (h ≤ r.1.heap + 1)
new_lock_total dev ds zero pos = absurd (omega arith)
new_lock_total dev ds (suc h) pos = (
  (length ds, record { dev_locks = record { dev = dev; lock = length ds } ∷ ds; heap = h }),
  refl,
  omega arith,
)

lock_for_total :
    (dev : ℕ) (b : Boot)
    → 0 < b.heap
    → (r : ℕ × Boot) × (lock_for dev b ≡ some r) × (b.heap ≤ r.1.heap + 1)
unfolding lock_for
lock_for_total dev b h = elim (Option-cases (find_lock dev b.dev_locks)) [
  | inr (l, had) ↦ ((l, b), rw (had, lock_for), omega arith)
  | inl fresh ↦
      let (r, made, left) = new_lock_total dev b.dev_locks b.heap h in
      (r, rw (fresh, lock_for) made, left)
]

lock_row_total :
    (is : List Instance) (b : Boot)
    → InitsRow is
    → length is ≤ b.heap
    → (r : List ℕ × Boot) × (lock_row is b ≡ some r) × (b.heap ≤ r.1.heap + length is)
unfolding lock_row
lock_row_total [] b ok h = (([], b), refl, omega arith)
lock_row_total (i ∷ is) b ok h =
    let (r1, first, left1) = lock_for_total i.dev b (omega arith) in
    let (r2, then_row, left2) = lock_row_total is r1.1 ok.1 (omega arith) in
    ((r1.0 ∷ r2.0, r2.1), rw (first, lock_row, ok.0, then_row, lock_row), omega arith)

take_array_total :
    (is : List Instance) (iss : List (List Instance)) (b : Boot) (heap : ℕ)
    → b.heap ≡ heap
    → needed (is ∷ iss) ≤ heap
    → (b1 : Boot) × (take_array is b ≡ some b1) × (length is + needed iss ≤ b1.heap)
take_array_total [] iss b heap e h = (b, refl, omega arith)
take_array_total (i ∷ is) iss b zero e h = absurd (omega arith)
take_array_total (i ∷ is) iss b (suc k) e h = (record b { heap = k }, rw e, omega arith)

-- If every init succeeds and malloc can serve an array for each peripheral in use and a lock for
-- each instance, main does not give up: the table of locks is built.
pub lock_rows_total :
    (iss : List (List Instance)) (b : Boot)
    → All InitsRow iss
    → needed iss ≤ b.heap
    → (r : List (List ℕ) × Boot) × (lock_rows iss b ≡ some r)
unfolding lock_rows
lock_rows_total [] b ok h = (([], b), refl)
lock_rows_total (is ∷ iss) b ok h =
    let (b1, array, room) = take_array_total is iss b b.heap refl h in
    let (r1, row, left) = lock_row_total is b1 ok.0 (omega arith) in
    let (r2, then_rows) = lock_rows_total iss r1.1 ok.1 (omega arith) in
    ((r1.0 ∷ r2.0, r2.1), rw (lock_rows, array, row, then_rows))
