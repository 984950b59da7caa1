-- ===== src/Threads.antt =====
-- firmware/src/main.c, process_interface as the body of one thread for each interface: the steps
-- by which the threads take and give the locks of the devices, in any order.
pub mod Devices
pub mod Exclusion
use jabi.Prelude.{ℕ, ◌≡◌, List, Option, none, some, get_elem?, set}
use jabi.Packet.{Req}
use jabi.Kernel.{SemApi}

-- Where a thread stands: in get_req or send_resp, in k_sem_take for a lock, or in the function of
-- its request with the lock taken.
pub data Phase : Type 0 where
  idle : Phase
  claims : Req → ℕ → Phase
  runs : Req → ℕ → Phase

module _ (k : SemApi) where
  pub record System : Type 0 where
    pub locks : List k.Sem
    pub threads : List Phase

  -- peripheral_locks, as main has filled it in.
  module _ (peripheral_locks : List (List ℕ)) where
    -- One step of thread `i`. Each constructor says what it found and what it leaves.
    pub data Step (s t : System) : Type 0 where
      -- A request names a function of a device with lock `l`: peripheral_locks[id][idx].
      request :
          (i : ℕ) (req : Req) (row : List ℕ) (l : ℕ)
          → get_elem? s.threads i ≡ some idle
          → get_elem? peripheral_locks req.periph_id ≡ some row
          → get_elem? row req.periph_idx ≡ some l
          → t ≡ record s { threads = set s.threads i (claims req l) }
          → Step s t
      -- k_sem_take succeeds.
      acquire :
          (i : ℕ) (req : Req) (l : ℕ) (sem left : k.Sem)
          → get_elem? s.threads i ≡ some (claims req l)
          → get_elem? s.locks l ≡ some sem
          → k.take_now sem ≡ some left
          → t ≡ record { locks = set s.locks l left; threads = set s.threads i (runs req l) }
          → Step s t
      -- k_sem_take times out; the thread answers JABI_BUSY_ERR.
      give_up :
          (i : ℕ) (req : Req) (l : ℕ)
          → get_elem? s.threads i ≡ some (claims req l)
          → t ≡ record s { threads = set s.threads i idle }
          → Step s t
      -- The function returns, and k_sem_give follows.
      release :
          (i : ℕ) (req : Req) (l : ℕ) (sem : k.Sem)
          → get_elem? s.threads i ≡ some (runs req l)
          → get_elem? s.locks l ≡ some sem
          → t ≡ record { locks = set s.locks l (k.give sem); threads = set s.threads i idle }
          → Step s t

    pub data Reach (s : System) : System → Type 0 where
      here : Reach s s
      next : {t u : System} → Reach s t → Step t u → Reach s u
