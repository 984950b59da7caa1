-- ===== src/Threads/Devices.antt =====
-- The devices that the threads of process_interface work on, whose locks main gave them.
use jabi.Prelude.{
  ℕ, zero, suc, ◌≡◌, ◌≢◌, List, [], some, length, get_elem?, replicate, All, All-get_elem?, All-set,
}
use jabi.Packet.{Req}
use jabi.Kernel.{SemApi}
use jabi.Locks.{Instance, Boot, lock_rows}
use jabi.Locks.Sharing.{HasLock, lock_rows_share_iff}
use jabi.Threads.{
  Phase, idle, claims, runs, System, Step, request, acquire, give_up, release, Reach, here, next,
}
use jabi.Threads.Exclusion.{started, Reach-exclusive}

-- peripheral_locks[id][idx] of a request.
record Names (rows : List (List ℕ)) (req : Req) (l : ℕ) : Type 0 where
  row : List ℕ
  row_at : get_elem? rows req.periph_id ≡ some row
  lock_at : get_elem? row req.periph_idx ≡ some l

-- A thread has in hand the lock that the table names for its request.
abbrev Listed : List (List ℕ) → Phase → Type 0
Listed rows idle = Unit {0}
Listed rows (claims req l) = Names rows req l
Listed rows (runs req l) = Names rows req l

All-replicate : {A : Type 0} (P : A → Type 0) (n : ℕ) (a : A) → P a → All P (replicate n a)
All-replicate P zero a p = tt
All-replicate P (suc n) a p = (p, All-replicate P n a p)

-- What get_dev answers for the instance that a request names.
pub record WorksOn (iss : List (List Instance)) (req : Req) (dev : ℕ) : Type 0 where
  pub is : List Instance
  pub i : Instance
  pub row : get_elem? iss req.periph_id ≡ some is
  pub entry : get_elem? is req.periph_idx ≡ some i
  pub device : i.dev ≡ dev

module _ (k : SemApi) (rows : List (List ℕ)) where
  Step-Listed :
      {s t : System k} → Step k rows s t → All (Listed rows) s.threads → All (Listed rows) t.threads
  Step-Listed {s} (request i req row l at row_at lock_at e) h = rw e (
      All-set (Listed rows) s.threads i (claims req l) h
        (record { row = row; row_at = row_at; lock_at = lock_at }))
  Step-Listed {s} (acquire i req l sem left at lock take e) h = rw e (
      All-set (Listed rows) s.threads i (runs req l) h
        (All-get_elem? (Listed rows) s.threads i h at))
  Step-Listed {s} (give_up i req l at e) h = rw e (All-set (Listed rows) s.threads i idle h tt)
  Step-Listed {s} (release i req l sem at lock e) h =
      rw e (All-set (Listed rows) s.threads i idle h tt)

  Reach-Listed :
      {s t : System k}
      → All (Listed rows) s.threads
      → Reach k rows s t
      → All (Listed rows) t.threads
  Reach-Listed h here = h
  Reach-Listed h (next r st) = Step-Listed st (Reach-Listed h r)

Names-HasLock :
    (iss : List (List Instance)) (rows : List (List ℕ)) (req : Req) {l dev : ℕ}
    → Names rows req l
    → WorksOn iss req dev
    → HasLock iss rows dev l
Names-HasLock iss rows req n w = record {
  periph = req.periph_id;
  idx = req.periph_idx;
  is = w.is;
  ls = n.row;
  i = w.i;
  row = w.row;
  lock_row_at = n.row_at;
  entry = w.entry;
  lock_at = n.lock_at;
  device = w.device;
}

-- Once main has set the locks up from an empty list and starts the threads with all of them free,
-- then however the threads interleave, two of them that run peripheral functions at once have
-- requests for instances with different devices, as get_dev answers them, whether of one
-- peripheral or of two.
pub Reach-own_device :
    (k : SemApi) (iss : List (List Instance)) (heap : ℕ) (rows : List (List ℕ)) (done : Boot)
    (n : ℕ) {s : System k} (i j : ℕ) (req1 req2 : Req) (l1 l2 dev1 dev2 : ℕ)
    → lock_rows iss (record { dev_locks = []; heap = heap }) ≡ some (rows, done)
    → Reach k rows (started k (length done.dev_locks) n) s
    → i ≢ j
    → get_elem? s.threads i ≡ some (runs req1 l1)
    → get_elem? s.threads j ≡ some (runs req2 l2)
    → WorksOn iss req1 dev1
    → WorksOn iss req2 dev2
    → dev1 ≢ dev2
Reach-own_device k iss heap rows done n {s} i j req1 req2 l1 l2 dev1 dev2 e r ne f g on1 on2 same =
    let listed = Reach-Listed k rows (All-replicate (Listed rows) n idle tt) r in
    let lock1 =
      Names-HasLock iss rows req1 (All-get_elem? (Listed rows) s.threads i listed f) on1 in
    let lock2 =
      Names-HasLock iss rows req2 (All-get_elem? (Listed rows) s.threads j listed g) on2 in
    let shared = lock_rows_share_iff iss heap rows done dev1 l1 dev2 l2 e lock1 lock2 in
    Reach-exclusive k rows (length done.dev_locks) n i j req1 req2 l1 l2 r ne f g (shared.1 same)
