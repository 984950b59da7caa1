-- ===== src/Uart/Order.antt =====
-- The handler of uart.c and the bytes on the line.
use Prim.Native.Nat.{min}
use jabi.Prelude.{
  ℕ, zero, suc, ◌+◌, ◌≤◌, ◌≡◌, refl, sym, ap, ◌∙◌, arith, true, false, List, [], ◌∷◌, ◌++◌, take,
  drop, take-take-drop, Option-cases, inl, inr,
}
use mathlib.Core.List.{append_assoc}
use jabi.Uart.Driver.{IsrTurn, UartEnv}
use jabi.Uart.Device.{Uart, receive, advance, isr_turn, uart_handler}

drop-nil : {A : Type 0} (n : ℕ) → drop {A = A} n [] ≡ []
drop-nil zero = refl
drop-nil (suc n) = refl

drop-drop : {A : Type 0} (n m : ℕ) (xs : List A) → drop m (drop n xs) ≡ drop (n + m) xs
drop-drop zero m xs = ap (λ (k : ℕ). drop k xs) (omega arith)
drop-drop (suc n) m [] = drop-nil m ∙ sym (drop-nil (suc n + m))
drop-drop (suc n) m (x ∷ xs) =
    let more : suc n + m ≡ suc (n + m) = omega arith in rw more (drop-drop n m xs)

module _ (e : UartEnv) where
  -- The bytes of the current write that are still to go out.
  abbrev pub unsent : Uart e → List ℕ
  unsent u = take u.tx_len (drop u.tx_off u.tx_buf)

  -- `accepted` are the bytes of all writes so far. The interrupt is on exactly while a write is
  -- under way, and the semaphore was given only after it.
  pub record IsOrdered (accepted : List ℕ) (u : Uart e) : Type 0 where
    pub in_order : u.line ++ unsent u ≡ accepted
    pub idle : u.irq_tx ≡ false → u.tx_len ≡ 0
    pub under_way : u.irq_tx ≡ true → e.count u.tx_lock ≡ 0
    pub binary : e.limit u.tx_lock ≡ 1
    pub at_most_one : e.count u.tx_lock ≤ 1

  -- Between two writes.
  pub record IsBetween (accepted : List ℕ) (u : Uart e) : Type 0 where
    pub ordered : IsOrdered accepted u
    pub settled : u.tx_was_busy ≡ false → (u.irq_tx ≡ false) × (e.count u.tx_lock ≡ 0)

  receive-IsOrdered :
      (acc : List ℕ) (u : Uart e) (i : IsrTurn) → IsOrdered acc u → IsOrdered acc (receive e u i)
  receive-IsOrdered acc u i h = ground arith

  advance-IsOrdered :
      (acc : List ℕ) (u : Uart e) (n : ℕ)
      → IsOrdered acc u
      → n ≤ u.tx_len
      → IsOrdered acc (advance e u n)
  advance-IsOrdered acc u n h small = record {
    in_order =
        append_assoc u.line (take n (drop u.tx_off u.tx_buf)) _
        ∙ ap (λ r. u.line ++ r)
            (rw (← drop-drop u.tx_off n u.tx_buf)
              (take-take-drop n u.tx_len (drop u.tx_off u.tx_buf) small))
        ∙ h.in_order;
    idle = λ q. omega (arith, h.idle q);
    under_way = h.under_way;
    binary = h.binary;
    at_most_one = h.at_most_one;
  }

  isr_turn-IsOrdered :
      (acc : List ℕ) (u : Uart e) (i : IsrTurn) → IsOrdered acc u → IsOrdered acc (isr_turn e u i)
  unfolding isr_turn
  isr_turn-IsOrdered acc u i h = elim (Option-cases i.filled) [
    | inl failed ↦
        ground (
          arith,
          failed,
          receive-IsOrdered acc u i h,
          e.limit-give u.tx_lock,
          e.count-give u.tx_lock,
        )
    | inr (n, got) ↦ ground (
      arith,
      got,
      receive-IsOrdered acc u i h,
      e.limit-give u.tx_lock,
      e.count-give u.tx_lock,
      receive-IsOrdered acc (advance e u (min n u.tx_len)) i
          (advance-IsOrdered acc u (min n u.tx_len) h (omega arith)),
    )
  ]

  pub uart_handler-IsOrdered :
      (acc : List ℕ) (u : Uart e) (is : List IsrTurn)
      → IsOrdered acc u
      → IsOrdered acc (uart_handler e u is)
  unfolding uart_handler
  uart_handler-IsOrdered acc u [] h = h
  uart_handler-IsOrdered acc u (i ∷ is) h =
      uart_handler-IsOrdered acc (isr_turn e u i) is (isr_turn-IsOrdered acc u i h)

  -- A turn with the transmit interrupt off leaves the semaphore alone.
  isr_turn-off :
      (u : Uart e) (i : IsrTurn)
      → u.irq_tx ≡ false
      → ((isr_turn e u i).irq_tx ≡ false) × ((isr_turn e u i).tx_lock ≡ u.tx_lock)
  unfolding isr_turn
  isr_turn-off u i off = ground arith

  isr_turn-busy : (u : Uart e) (i : IsrTurn) → (isr_turn e u i).tx_was_busy ≡ u.tx_was_busy
  unfolding isr_turn
  isr_turn-busy u i = ground arith

  isr_turn-IsBetween :
      (acc : List ℕ) (u : Uart e) (i : IsrTurn) → IsBetween acc u → IsBetween acc (isr_turn e u i)
  isr_turn-IsBetween acc u i h = record {
    ordered = isr_turn-IsOrdered acc u i h.ordered;
    settled = λ free.
        let (off, zero_count) = h.settled (sym (isr_turn-busy u i) ∙ free) in
        let (off', same) = isr_turn-off u i off in (off', ap e.count same ∙ zero_count);
  }

  -- Any sequence of turns of the interrupt handler between two requests keeps the bytes in
  -- order: those on the line followed by those still to go out are the bytes of the writes so
  -- far.
  pub uart_handler-IsBetween :
      (acc : List ℕ) (u : Uart e) (is : List IsrTurn)
      → IsBetween acc u
      → IsBetween acc (uart_handler e u is)
  unfolding uart_handler
  uart_handler-IsBetween acc u [] h = h
  uart_handler-IsBetween acc u (i ∷ is) h =
      uart_handler-IsBetween acc (isr_turn e u i) is (isr_turn-IsBetween acc u i h)
