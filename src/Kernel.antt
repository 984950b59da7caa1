-- ===== src/Kernel.antt =====
-- The kernel objects that the firmware shares with interrupt handlers and other threads: Zephyr's
-- semaphores and message queues. They are not part of the repository; the records state what the
-- kernel documents of them.
pub mod Models
use jabi.Prelude.{
  ℕ, ◌+◌, ◌<◌, ◌≤◌, ◌≡◌, ◌↔◌, List, [], ◌∷◌, ◌++◌, Option, none, some, length, if◌then◌else◌, ltb,
}

-- k_sem: a count that k_sem_give raises up to a limit, and that k_sem_take lowers if it can.
pub record SemApi : Type 1 where
  pub Sem : Type 0
  pub sem_init : ℕ → ℕ → Sem
  pub give : Sem → Sem
  -- k_sem_take with K_NO_WAIT; `none` is its error.
  pub take_now : Sem → Option Sem
  pub count : Sem → ℕ
  pub limit : Sem → ℕ
  pub count-init : (n l : ℕ) → count (sem_init n l) ≡ n
  pub limit-init : (n l : ℕ) → limit (sem_init n l) ≡ l
  pub count-give :
      (s : Sem) → count (give s) ≡ (if ltb (count s) (limit s) then count s + 1 else count s)
  pub limit-give : (s : Sem) → limit (give s) ≡ limit s
  pub take_now-none : (s : Sem) → count s ≡ 0 → take_now s ≡ none
  pub take_now-some :
      (s : Sem)
      → 0 < count s
      → (s' : Sem) × (take_now s ≡ some s') × (count s' + 1 ≡ count s) × (limit s' ≡ limit s)

-- k_msgq: a bounded first-in first-out queue.
pub record MsgqApi (A : Type 0) : Type 1 where
  pub Msgq : Type 0
  -- k_msgq_put and k_msgq_get with K_NO_WAIT; `none` is their error.
  pub put : Msgq → A → Option Msgq
  pub get : Msgq → Option (A × Msgq)
  pub purge : Msgq → Msgq
  pub num_used : Msgq → ℕ
  -- Oldest first.
  pub contents : Msgq → List A
  pub max_msgs : Msgq → ℕ
  pub put-room :
      (m : Msgq) (a : A)
      → length (contents m) < max_msgs m
      → (m' : Msgq) × (put m a ≡ some m')
        × (contents m' ≡ contents m ++ a ∷ [])
        × (max_msgs m' ≡ max_msgs m)
  pub put-full : (m : Msgq) (a : A) → max_msgs m ≤ length (contents m) → put m a ≡ none
  pub get-empty : (m : Msgq) → contents m ≡ [] → get m ≡ none
  pub get-cons :
      (m : Msgq) (a : A) (rest : List A)
      → contents m ≡ a ∷ rest
      → (m' : Msgq) × (get m ≡ some (a, m')) × (contents m' ≡ rest) × (max_msgs m' ≡ max_msgs m)
  pub contents-purge : (m : Msgq) → contents (purge m) ≡ []
  pub max_msgs-purge : (m : Msgq) → max_msgs (purge m) ≡ max_msgs m
  pub num_used-length : (m : Msgq) → num_used m ≡ length (contents m)
