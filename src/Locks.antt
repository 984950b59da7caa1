-- ===== src/Locks.antt =====
-- firmware/src/main.c, main: one lock for each device, shared by the peripherals that use it.
pub mod Growth
pub mod Sharing
pub mod Total
use jabi.Prelude.{
  ℕ, zero, suc, ◌+◌, List, [], ◌∷◌, Option, none, some, Bool, true, false, ◌==◌, if◌then◌else◌,
  length,
}

-- peripherals[i] at index j: what get_dev answers, as an address, and whether init succeeds.
pub record Instance : Type 0 where
  pub dev : ℕ
  pub init_ok : Bool

-- dev_lock_t, newest first as sys_slist_prepend leaves them; a lock is named by the number of
-- those made before it.
pub record DevLock : Type 0 where
  pub dev : ℕ
  pub lock : ℕ

-- dev_locks, and how many more calls of malloc succeed.
pub record Boot : Type 0 where
  pub dev_locks : List DevLock
  pub heap : ℕ

-- SYS_SLIST_FOR_EACH_NODE
unfoldable pub find_lock : ℕ → List DevLock → Option ℕ
find_lock dev [] = none
find_lock dev (d ∷ ds) = if d.dev == dev then some d.lock else find_lock dev ds

-- The lock for a device that has none yet.
abbrev pub new_lock : ℕ → List DevLock → ℕ → Option (ℕ × Boot)
new_lock dev locks zero = none
new_lock dev locks (suc h) = some (
  length locks,
  record { dev_locks = record { dev = dev; lock = length locks } ∷ locks; heap = h },
)

unfoldable pub lock_for : ℕ → Boot → Option (ℕ × Boot)
lock_for dev b = elim (find_lock dev b.dev_locks) [
  | some l ↦ some (l, b)
  | none ↦ new_lock dev b.dev_locks b.heap
]

-- The loop over j. `none` is `return -1`.
unfoldable pub lock_row : List Instance → Boot → Option (List ℕ × Boot)
lock_row [] b = some ([], b)
lock_row (i ∷ is) b = elim (lock_for i.dev b) [
  | none ↦ none
  | some (l, b1) ↦
      if i.init_ok
      then elim (lock_row is b1) [ none ↦ none | some (ls, b2) ↦ some (l ∷ ls, b2) ]
      else none
]

-- malloc of peripheral_locks[i], which is skipped where num_idx is 0.
abbrev pub take_array : List Instance → Boot → Option Boot
take_array [] b = some b
take_array (i ∷ is) b = elim b.heap [ zero ↦ none | suc h ↦ some (record b { heap = h }) ]

-- The loop over i: peripheral_locks.
unfoldable pub lock_rows : List (List Instance) → Boot → Option (List (List ℕ) × Boot)
lock_rows [] b = some ([], b)
lock_rows (row ∷ rows) b = elim (take_array row b) [
  | none ↦ none
  | some b1 ↦ elim (lock_row row b1) [
    | none ↦ none
    | some (ls, b2) ↦ elim (lock_rows rows b2) [
      | none ↦ none
      | some (lss, b3) ↦ some (ls ∷ lss, b3)
    ]
  ]
]
