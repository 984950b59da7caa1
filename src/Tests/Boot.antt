-- ===== src/Tests/Boot.antt =====
-- The locks of a board whose second and third peripheral share a device, and two threads on them.
use jabi.Prelude.{ℕ, ◌≡◌, ◌≢◌, ◌↔◌, refl, arith, true, List, [], ◌∷◌, some}
use jabi.Kernel.Models.{counting}
use jabi.Locks.{Instance, Boot, lock_rows, lock_row, lock_for, find_lock}
use jabi.Locks.Sharing.{HasLock, lock_rows_share_iff}
use jabi.Locks.Total.{lock_rows_total}
use jabi.Threads.{System, Reach, here, next, request, acquire, runs}
use jabi.Threads.Devices.{WorksOn, Reach-own_device}
use jabi.Threads.Exclusion.{started, Reach-exclusive}
use jabi.Packet.{Req}
use jabi.Tests.{blank}

abbrev instance_of : ℕ → Instance
instance_of dev = record { dev = dev; init_ok = true }

abbrev board : List (List Instance)
board = (instance_of 5 ∷ []) ∷ [] ∷ (instance_of 6 ∷ instance_of 5 ∷ []) ∷ []

abbrev empty : Boot
empty = record { dev_locks = []; heap = 6 }

abbrev locked : Boot
locked = record {
  dev_locks = record { dev = 6; lock = 1 } ∷ record { dev = 5; lock = 0 } ∷ [];
  heap = 2;
}

abbrev table : List (List ℕ)
table = (0 ∷ []) ∷ [] ∷ (1 ∷ 0 ∷ []) ∷ []

booted : lock_rows board empty ≡ some (table, locked)
unfolding lock_rows lock_row lock_for find_lock
booted = refl

first : HasLock board table 5 0
first = record {
  periph = 0;
  idx = 0;
  is = instance_of 5 ∷ [];
  ls = 0 ∷ [];
  i = instance_of 5;
  row = refl;
  lock_row_at = refl;
  entry = refl;
  lock_at = refl;
  device = refl;
}

last : HasLock board table 5 0
last = record {
  periph = 2;
  idx = 1;
  is = instance_of 6 ∷ instance_of 5 ∷ [];
  ls = 1 ∷ 0 ∷ [];
  i = instance_of 5;
  row = refl;
  lock_row_at = refl;
  entry = refl;
  lock_at = refl;
  device = refl;
}

lock_rows_share_iff_example : (◌≡◌ {A = ℕ} 0 0) ↔ (◌≡◌ {A = ℕ} 5 5)
lock_rows_share_iff_example = lock_rows_share_iff board 6 table locked 5 0 5 0 booted first last

lock_rows_total_example : (r : List (List ℕ) × Boot) × (lock_rows board empty ≡ some r)
lock_rows_total_example =
    lock_rows_total board empty ((refl, tt), (tt, ((refl, (refl, tt)), tt))) (omega arith)

-- A request for the first instance of the third peripheral, whose lock is another one.
abbrev other : Req
other = record blank { periph_id = 2; periph_idx = 0 }

-- Two threads take the two locks.
abbrev both : System counting
both = record {
  locks = record { now = 0; most = 1 } ∷ record { now = 0; most = 1 } ∷ [];
  threads = runs blank 0 ∷ runs other 1 ∷ [];
}

both-reached : Reach counting table (started counting 2 2) both
both-reached =
    next
      (next
        (next (next here (request 0 blank (0 ∷ []) 0 refl refl refl refl)) (
          acquire 0 blank 0 (record { now = 1; most = 1 }) (record { now = 0; most = 1 }) refl refl
            refl refl))
        (request 1 other (1 ∷ 0 ∷ []) 1 refl refl refl refl))
      (acquire 1 other 1 (record { now = 1; most = 1 }) (record { now = 0; most = 1 }) refl refl
        refl refl)

Reach-exclusive_example : ◌≢◌ {A = ℕ} 0 1
Reach-exclusive_example =
    Reach-exclusive counting table 2 2 0 1 blank other 0 1 both-reached (λ e. omega (arith, e)) refl
      refl

blank-WorksOn : WorksOn board blank 5
blank-WorksOn = record {
  is = instance_of 5 ∷ [];
  i = instance_of 5;
  row = refl;
  entry = refl;
  device = refl;
}

other-WorksOn : WorksOn board other 6
other-WorksOn = record {
  is = instance_of 6 ∷ instance_of 5 ∷ [];
  i = instance_of 6;
  row = refl;
  entry = refl;
  device = refl;
}

Reach-own_device_example : ◌≢◌ {A = ℕ} 5 6
Reach-own_device_example =
    Reach-own_device counting board 6 table locked 2 0 1 blank other 0 1 5 6 booted both-reached
      (λ e. omega (arith, e)) refl refl blank-WorksOn other-WorksOn
