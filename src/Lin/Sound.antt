-- ===== src/Lin/Sound.antt =====
-- lin_dev_data_t between two calls: the tables, the queue and the locks of lin.c.
use jabi.Prelude.{
  ℕ, ◌≤◌, ◌<◌, ◌≡◌, ◌≢◌, ◌⊎◌, inr, refl, ◌∙◌, arith, some, List, [], ◌∷◌, length, All,
}
use jabi.Lin.Driver.{Frame, LinEnv}
use jabi.Lin.Device.{Filter, TxMsg, Lin, deactivate}

pub length-deactivate : (txs : List TxMsg) → length (deactivate txs) ≡ length txs
length-deactivate [] = refl
length-deactivate (tx ∷ txs) = omega (arith, length-deactivate txs)

module _ (e : LinEnv) where
  -- A frame whose length fits its payload array.
  pub record IsFrame (m : Frame) : Type 0 where
    pub array : length m.bytes ≡ e.max_dlen
    pub sized : m.len ≤ e.max_dlen

  abbrev pub IsTxMsg : TxMsg → Type 0
  IsTxMsg tx = IsFrame tx.msg

  -- A semaphore with one token or none, and room for one.
  pub record Holds (n : ℕ) (s : e.Sem) : Type 0 where
    pub tokens : e.count s ≡ n
    pub room : e.limit s ≡ 1

  pub record HasParts (mode : ℕ) (filters : List Filter) (tx_msgs : List TxMsg) (rx_msgs : e.Msgq)
      (msg_lock cmd_lock : e.Sem) : Type 0 where
    pub filters_size : length filters ≡ e.num_id
    pub tx_size : length tx_msgs ≡ e.num_id
    pub tx_frames : All IsTxMsg tx_msgs
    pub rx_frames : All IsFrame (e.contents rx_msgs)
    pub rx_room : 0 < e.max_msgs rx_msgs
    pub unlocked : Holds 1 msg_lock
    pub no_command : Holds 0 cmd_lock
    pub known_mode : (mode ≡ 0) ⊎ (mode ≡ 1)
    pub drained : (mode ≢ 0) ⊎ (e.contents rx_msgs ≡ [])

  -- The tables have an entry for every id, each frame fits its array, the lock of the tables is
  -- free, no command is under way, and a commander's queue is empty.
  abbrev pub IsSound : Lin e → Type 0
  IsSound lin = HasParts lin.mode lin.filters lin.tx_msgs lin.rx_msgs lin.msg_lock lin.cmd_lock

  pub take_token : (s : e.Sem) → Holds 1 s → (s' : e.Sem) × (e.take_now s ≡ some s') × Holds 0 s'
  take_token s h =
      let (s', got, less, same) = e.take_now-some s (omega (arith, h.tokens)) in
      (s', got, record { tokens = omega (arith, h.tokens); room = same ∙ h.room })

  pub give_token : (s : e.Sem) → Holds 0 s → Holds 1 (e.give s)
  give_token s h = record {
    tokens = e.count-give s ∙ ground (arith, h.tokens, h.room);
    room = e.limit-give s ∙ h.room;
  }

  -- A lock that was taken and given back.
  pub borrow_token :
      (s : e.Sem) → Holds 1 s → (s' : e.Sem) × (e.take_now s ≡ some s') × Holds 1 (e.give s')
  borrow_token s h = let (s', got, held) = take_token s h in (s', got, give_token s' held)

  pub deactivate-frames : (txs : List TxMsg) → All IsTxMsg txs → All IsTxMsg (deactivate txs)
  deactivate-frames [] h = tt
  deactivate-frames (tx ∷ txs) h = (h.0, deactivate-frames txs h.1)

  -- Dropping all messages.
  pub purged-HasParts :
      (lin : Lin e) (mode : ℕ)
      → IsSound lin
      → (mode ≡ 0) ⊎ (mode ≡ 1)
      → HasParts mode lin.filters
          (deactivate lin.tx_msgs)
          (e.purge lin.rx_msgs)
          lin.msg_lock
          lin.cmd_lock
  purged-HasParts lin mode h known =
      let empty = e.contents-purge lin.rx_msgs in
      record {
        filters_size = h.filters_size;
        tx_size = length-deactivate lin.tx_msgs ∙ h.tx_size;
        tx_frames = deactivate-frames lin.tx_msgs h.tx_frames;
        rx_frames = rw empty tt;
        rx_room = rw (e.max_msgs-purge lin.rx_msgs) h.rx_room;
        unlocked = h.unlocked;
        no_command = h.no_command;
        known_mode = known;
        drained = inr empty;
      }
