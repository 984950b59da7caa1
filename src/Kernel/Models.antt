-- ===== src/Kernel/Models.antt =====
-- Kernel objects that behave as documented: a number, and a list with its bound.
use jabi.Prelude.{
  ℕ, zero, suc, ◌+◌, ◌<◌, ◌≤◌, ◌≡◌, refl, arith, List, [], ◌∷◌, ◌++◌, Option, none, some, length,
  if◌then◌else◌, ltb, lt→ltb, ltb-false,
}
use jabi.Kernel.{SemApi, MsgqApi}

pub record Counter : Type 0 where
  pub now : ℕ
  pub most : ℕ

abbrev pub lower : ℕ → ℕ → Option Counter
lower zero most = none
lower (suc n) most = some (record { now = n; most = most })

abbrev pub raise : Counter → Counter
raise s = record s { now = if ltb s.now s.most then s.now + 1 else s.now }

pub lower-zero : (s : Counter) → s.now ≡ 0 → lower s.now s.most ≡ none
lower-zero s e = rw e

pub lower-suc :
    (n most : ℕ)
    → 0 < n
    → (s' : Counter) × (lower n most ≡ some s') × (s'.now + 1 ≡ n) × (s'.most ≡ most)
lower-suc zero most h = absurd (omega arith)
lower-suc (suc n) most h = (record { now = n; most = most }, refl, omega arith, refl)

abbrev pub counting : SemApi
counting = record {
  Sem = Counter;
  sem_init = λ n l. record { now = n; most = l };
  give = raise;
  take_now = λ s. lower s.now s.most;
  count = λ s. s.now;
  limit = λ s. s.most;
  count-init = λ n l. refl;
  limit-init = λ n l. refl;
  count-give = λ s. refl;
  limit-give = λ s. refl;
  take_now-none = lower-zero;
  take_now-some = λ s. lower-suc s.now s.most;
}

module _ (A : Type 0) where
  pub record Fifo : Type 0 where
    pub items : List A
    pub bound : ℕ

  abbrev pub push : Fifo → A → Option Fifo
  push m a =
      if ltb (length m.items) m.bound then some (record m { items = m.items ++ a ∷ [] }) else none

  abbrev pub pop : List A → ℕ → Option (A × Fifo)
  pop [] bound = none
  pop (a ∷ rest) bound = some (a, record { items = rest; bound = bound })

  pub push-room :
      (m : Fifo) (a : A)
      → length m.items < m.bound
      → (m' : Fifo) × (push m a ≡ some m') × (m'.items ≡ m.items ++ a ∷ []) × (m'.bound ≡ m.bound)
  push-room m a h =
      (record m { items = m.items ++ a ∷ [] }, rw (lt→ltb (length m.items) m.bound h), refl, refl)

  pub push-full : (m : Fifo) (a : A) → m.bound ≤ length m.items → push m a ≡ none
  push-full m a h = rw (ltb-false (length m.items) m.bound h)

  pub pop-empty : (m : Fifo) → m.items ≡ [] → pop m.items m.bound ≡ none
  pop-empty m e = rw e

  pub pop-cons :
      (m : Fifo) (a : A) (rest : List A)
      → m.items ≡ a ∷ rest
      → (m' : Fifo) × (pop m.items m.bound ≡ some (a, m'))
        × (m'.items ≡ rest)
        × (m'.bound ≡ m.bound)
  pop-cons m a rest e = (record { items = rest; bound = m.bound }, rw e, refl, refl)

  abbrev pub fifo : MsgqApi A
  fifo = record {
    Msgq = Fifo;
    put = push;
    get = λ m. pop m.items m.bound;
    purge = λ m. record m { items = [] };
    num_used = λ m. length m.items;
    contents = λ m. m.items;
    max_msgs = λ m. m.bound;
    put-room = push-room;
    put-full = push-full;
    get-empty = pop-empty;
    get-cons = pop-cons;
    contents-purge = λ m. refl;
    max_msgs-purge = λ m. refl;
    num_used-length = λ m. refl;
  }
