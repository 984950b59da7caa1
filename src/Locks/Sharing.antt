-- ===== src/Locks/Sharing.antt =====
-- The locks that main gives to the instances, and their devices.
use jabi.Prelude.{
  ℕ, zero, suc, ◌≡◌, ◌↔◌, arith, List, [], ◌∷◌, some, length, get_elem?, Option-cases, inl, inr,
}
use jabi.Locks.{Instance, DevLock, Boot, find_lock, lock_row, take_array, lock_rows}
use jabi.Locks.Growth.{Below, Grows, Owned, Owned-Extends, find_lock-injective, lock_row-Grows}

abbrev OwnedRows : List DevLock → List (List Instance) → List (List ℕ) → Type 0
OwnedRows ds [] [] = Unit {0}
OwnedRows ds (is ∷ iss) (ls ∷ lss) = Owned ds is ls × OwnedRows ds iss lss
OwnedRows ds _ _ = ⊥

record RowsMade (is : List Instance) (iss : List (List Instance)) (b b' : Boot)
    (lss : List (List ℕ)) : Type 0 where
  ls : List ℕ
  rest : List (List ℕ)
  start : Boot
  between : Boot
  same : start.dev_locks ≡ b.dev_locks
  row : lock_row is start ≡ some (ls, between)
  then_rows : lock_rows iss between ≡ some (rest, b')
  all : lss ≡ ls ∷ rest

take_array-same :
    (is : List Instance) (b b' : Boot) → take_array is b ≡ some b' → b'.dev_locks ≡ b.dev_locks
take_array-same [] b b' e = ground arith
take_array-same (i ∷ is) b b' e = ground arith

lock_rows-RowsMade :
    (is : List Instance) (iss : List (List Instance)) (b b' : Boot) (lss : List (List ℕ))
    → lock_rows (is ∷ iss) b ≡ some (lss, b')
    → RowsMade is iss b b' lss
unfolding lock_rows
lock_rows-RowsMade is iss b b' lss e = elim (Option-cases (take_array is b)) [
  | inl failed ↦ absurd (ground arith)
  | inr (b1, got) ↦ elim (Option-cases (lock_row is b1)) [
    | inl failed ↦ absurd (ground arith)
    | inr (r1, row) ↦ elim (Option-cases (lock_rows iss r1.1)) [
      | inl failed ↦ absurd (ground arith)
      | inr (r2, rows) ↦ record {
        ls = r1.0;
        rest = r2.0;
        start = b1;
        between = r1.1;
        same = take_array-same is b b1 got;
        row = ground arith;
        then_rows = ground arith;
        all = ground arith;
      }
    ]
  ]
]

lock_rows-nil :
    (b b' : Boot) (lss : List (List ℕ))
    → lock_rows [] b ≡ some (lss, b')
    → (b'.dev_locks ≡ b.dev_locks) × (lss ≡ [])
unfolding lock_rows
lock_rows-nil b b' lss e = (ground arith, ground arith)

lock_rows-Grows :
    (iss : List (List Instance)) (b b' : Boot) (lss : List (List ℕ))
    → Below (length b.dev_locks) b.dev_locks
    → lock_rows iss b ≡ some (lss, b')
    → Grows b b' × OwnedRows b'.dev_locks iss lss
lock_rows-Grows [] b b' lss below e =
    let (table, empty) = lock_rows-nil b b' lss e in
    (record { below = rw table below; extends = rw table (λ d l q. q) }, rw empty tt)
lock_rows-Grows (is ∷ iss) b b' lss below e =
    let m = lock_rows-RowsMade is iss b b' lss e in
    let start_below : Below (length m.start.dev_locks) m.start.dev_locks = rw m.same below in
    let (grown, owned) = lock_row-Grows is m.start m.between m.ls start_below m.row in
    let (grows, rows) = lock_rows-Grows iss m.between b' m.rest grown.below m.then_rows in
    (
      record {
        below = grows.below;
        extends = λ d l q. grows.extends d l (grown.extends d l (rw m.same q));
      },
      rw m.all (Owned-Extends m.between.dev_locks b'.dev_locks is m.ls grows.extends owned, rows),
    )

-- The lock of one instance in the finished table.
Owned-get_elem? :
    (ds : List DevLock) (is : List Instance) (ls : List ℕ) (j : ℕ) (i : Instance) (l : ℕ)
    → Owned ds is ls
    → get_elem? is j ≡ some i
    → get_elem? ls j ≡ some l
    → find_lock i.dev ds ≡ some l
Owned-get_elem? ds [] ls j i l o p q = cc
Owned-get_elem? ds (x ∷ is) [] j i l o p q = elim o [ ]
Owned-get_elem? ds (x ∷ is) (k ∷ ls) zero i l o p q = ground (arith, o.0)
Owned-get_elem? ds (x ∷ is) (k ∷ ls) (suc j) i l o p q = Owned-get_elem? ds is ls j i l o.1 p q

OwnedRows-get_elem? :
    (ds : List DevLock) (iss : List (List Instance)) (lss : List (List ℕ)) (i : ℕ)
    (is : List Instance) (ls : List ℕ)
    → OwnedRows ds iss lss
    → get_elem? iss i ≡ some is
    → get_elem? lss i ≡ some ls
    → Owned ds is ls
OwnedRows-get_elem? ds [] lss i is ls o p q = cc
OwnedRows-get_elem? ds (x ∷ iss) [] i is ls o p q = elim o [ ]
OwnedRows-get_elem? ds (x ∷ iss) (k ∷ lss) zero is ls o p q =
    let same_is : x ≡ is = ground arith in
    let same_ls : k ≡ ls = ground arith in rw (← same_is, ← same_ls) o.0
OwnedRows-get_elem? ds (x ∷ iss) (k ∷ lss) (suc i) is ls o p q =
    OwnedRows-get_elem? ds iss lss i is ls o.1 p q

-- Where an instance stands in the table, and the lock that main gave it.
pub record HasLock (iss : List (List Instance)) (lss : List (List ℕ)) (dev lock : ℕ) : Type 0 where
  pub periph : ℕ
  pub idx : ℕ
  pub is : List Instance
  pub ls : List ℕ
  pub i : Instance
  pub row : get_elem? iss periph ≡ some is
  pub lock_row_at : get_elem? lss periph ≡ some ls
  pub entry : get_elem? is idx ≡ some i
  pub lock_at : get_elem? ls idx ≡ some lock
  pub device : i.dev ≡ dev

HasLock-find_lock :
    (ds : List DevLock) (iss : List (List Instance)) (lss : List (List ℕ)) {dev lock : ℕ}
    → OwnedRows ds iss lss
    → HasLock iss lss dev lock
    → find_lock dev ds ≡ some lock
HasLock-find_lock ds iss lss {lock} owned h =
    let row = OwnedRows-get_elem? ds iss lss h.periph h.is h.ls owned h.row h.lock_row_at in
    rw (← h.device) (Owned-get_elem? ds h.is h.ls h.idx h.i lock row h.entry h.lock_at)

-- After main has set the locks up from an empty list, any two instances, of one peripheral or of
-- two, share a lock exactly when get_dev gives the same device for both.
pub lock_rows_share_iff :
    (iss : List (List Instance)) (heap : ℕ) (lss : List (List ℕ)) (done : Boot)
    (dev1 lock1 dev2 lock2 : ℕ)
    → lock_rows iss (record { dev_locks = []; heap = heap }) ≡ some (lss, done)
    → HasLock iss lss dev1 lock1
    → HasLock iss lss dev2 lock2
    → (lock1 ≡ lock2) ↔ (dev1 ≡ dev2)
lock_rows_share_iff iss heap lss done dev1 lock1 dev2 lock2 e h1 h2 =
    let (grown, owned) = lock_rows-Grows iss _ done lss tt e in
    let found1 = HasLock-find_lock done.dev_locks iss lss owned h1 in
    let found2 = HasLock-find_lock done.dev_locks iss lss owned h2 in
    (
      λ same.
          find_lock-injective dev1 dev2 (length done.dev_locks) done.dev_locks lock1 grown.below
            found1 (rw same found2),
      λ same. ground (arith, found1, found2),
    )
