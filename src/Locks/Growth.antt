-- ===== src/Locks/Growth.antt =====
-- The list of locks of main as it grows.
use jabi.Prelude.{
  ℕ, zero, suc, ◌<◌, ◌≡◌, arith, List, [], ◌∷◌, none, some, length, Option-cases, inl, inr,
}
use jabi.Locks.{Instance, DevLock, Boot, find_lock, new_lock, lock_for, lock_row}

-- The locks fall along the list from below its length.
abbrev pub Below : ℕ → List DevLock → Type 0
Below n [] = Unit {0}
Below n (d ∷ ds) = (d.lock < n) × Below d.lock ds

pub find_lock-lt :
    (dev n : ℕ) (ds : List DevLock) (l : ℕ) → Below n ds → find_lock dev ds ≡ some l → l < n
unfolding find_lock
find_lock-lt dev n [] l h e = cc
find_lock-lt dev n (d ∷ ds) l h e = ground (arith, find_lock-lt dev d.lock ds l h.1)

-- A lock belongs to one device.
pub find_lock-injective :
    (a b n : ℕ) (ds : List DevLock) (l : ℕ)
    → Below n ds
    → find_lock a ds ≡ some l
    → find_lock b ds ≡ some l
    → a ≡ b
unfolding find_lock
find_lock-injective a b n [] l h p q = cc
find_lock-injective a b n (d ∷ ds) l h p q = ground (
  arith,
  find_lock-injective a b d.lock ds l h.1,
  find_lock-lt a d.lock ds l h.1,
  find_lock-lt b d.lock ds l h.1,
)

-- Devices that have a lock keep it.
abbrev pub Extends : List DevLock → List DevLock → Type 0
Extends ds es = (a l : ℕ) → find_lock a ds ≡ some l → find_lock a es ≡ some l

pub record Grows (b b' : Boot) : Type 0 where
  pub below : Below (length b'.dev_locks) b'.dev_locks
  pub extends : Extends b.dev_locks b'.dev_locks

pub Grows-trans : {a b c : Boot} → Grows a b → Grows b c → Grows a c
Grows-trans g h = record { below = h.below; extends = λ d l e. h.extends d l (g.extends d l e) }

-- A new lock goes to a device that has none, so no other device loses its own.
pub prepend-Extends :
    (dev l : ℕ) (ds : List DevLock)
    → find_lock dev ds ≡ none
    → Extends ds (record { dev = dev; lock = l } ∷ ds)
unfolding find_lock
prepend-Extends dev l ds fresh a k e = ground arith

pub new_lock-Grows :
    (dev h : ℕ) (b b' : Boot) (l : ℕ)
    → Below (length b.dev_locks) b.dev_locks
    → find_lock dev b.dev_locks ≡ none
    → new_lock dev b.dev_locks h ≡ some (l, b')
    → Grows b b' × (find_lock dev b'.dev_locks ≡ some l)
unfolding find_lock
new_lock-Grows dev zero b b' l below fresh e = cc
new_lock-Grows dev (suc h) b b' l below fresh e =
    let named : l ≡ length b.dev_locks = ground arith in
    let table : b'.dev_locks ≡ record { dev = dev; lock = length b.dev_locks } ∷ b.dev_locks =
      ground arith in
    (
      record {
        below = rw table (omega arith, below);
        extends = rw table (prepend-Extends dev (length b.dev_locks) b.dev_locks fresh);
      },
      rw (table, named) (ground arith),
    )

pub lock_for-Grows :
    (dev : ℕ) (b b' : Boot) (l : ℕ)
    → Below (length b.dev_locks) b.dev_locks
    → lock_for dev b ≡ some (l, b')
    → Grows b b' × (find_lock dev b'.dev_locks ≡ some l)
unfolding lock_for
lock_for-Grows dev b b' l below e = elim (Option-cases (find_lock dev b.dev_locks)) [
  | inl fresh ↦ new_lock-Grows dev b.heap b b' l below fresh (rw (fresh, lock_for) at e)
  | inr (k, had) ↦
      let named : l ≡ k = ground arith in
      let table : b'.dev_locks ≡ b.dev_locks = ground arith in
      (record { below = rw table below; extends = rw table (λ d j q. q) }, rw (table, named) had)
]

-- Each lock of a row belongs to the device of its instance.
abbrev pub Owned : List DevLock → List Instance → List ℕ → Type 0
Owned ds [] [] = Unit {0}
Owned ds (i ∷ is) (l ∷ ls) = (find_lock i.dev ds ≡ some l) × Owned ds is ls
Owned ds _ _ = ⊥

pub Owned-Extends :
    (ds es : List DevLock) (is : List Instance) (ls : List ℕ)
    → Extends ds es
    → Owned ds is ls
    → Owned es is ls
Owned-Extends ds es [] [] x o = tt
Owned-Extends ds es (i ∷ is) (l ∷ ls) x o = (x i.dev l o.0, Owned-Extends ds es is ls x o.1)
Owned-Extends ds es [] (l ∷ ls) x o = elim o [ ]
Owned-Extends ds es (i ∷ is) [] x o = elim o [ ]

-- What a finished row was made of.
pub record RowMade (i : Instance) (is : List Instance) (b b' : Boot) (ls : List ℕ) : Type 0 where
  pub l : ℕ
  pub rest : List ℕ
  pub between : Boot
  pub first : lock_for i.dev b ≡ some (l, between)
  pub then_row : lock_row is between ≡ some (rest, b')
  pub all : ls ≡ l ∷ rest

pub lock_row-RowMade :
    (i : Instance) (is : List Instance) (b b' : Boot) (ls : List ℕ)
    → lock_row (i ∷ is) b ≡ some (ls, b')
    → RowMade i is b b' ls
unfolding lock_row
lock_row-RowMade i is b b' ls e = elim (Option-cases (lock_for i.dev b)) [
  | inl failed ↦ absurd (ground arith)
  | inr (lb, got) ↦ elim (Option-cases (lock_row is lb.1)) [
    | inl failed ↦ absurd (ground arith)
    | inr (rb, row) ↦ record {
      l = lb.0;
      rest = rb.0;
      between = lb.1;
      first = got;
      then_row = ground arith;
      all = ground arith;
    }
  ]
]

pub lock_row-nil :
    (b b' : Boot) (ls : List ℕ)
    → lock_row [] b ≡ some (ls, b')
    → (b'.dev_locks ≡ b.dev_locks) × (ls ≡ [])
unfolding lock_row
lock_row-nil b b' ls e = (ground arith, ground arith)

pub lock_row-Grows :
    (is : List Instance) (b b' : Boot) (ls : List ℕ)
    → Below (length b.dev_locks) b.dev_locks
    → lock_row is b ≡ some (ls, b')
    → Grows b b' × Owned b'.dev_locks is ls
lock_row-Grows [] b b' ls below e =
    let (table, empty) = lock_row-nil b b' ls e in
    (record { below = rw table below; extends = rw table (λ d l q. q) }, rw empty tt)
lock_row-Grows (i ∷ is) b b' ls below e =
    let m = lock_row-RowMade i is b b' ls e in
    let (grown, found) = lock_for-Grows i.dev b m.between m.l below m.first in
    let (grows, owned) = lock_row-Grows is m.between b' m.rest grown.below m.then_row in
    (Grows-trans grown grows, rw m.all (grows.extends i.dev m.l found, owned))
