-- ===== src/UartIface/Total.antt =====
-- The fuel of uart_get_req.
use jabi.Prelude.{
  ℕ, zero, suc, ◌≤◌, ◌<◌, ◌≢◌, inl, inr, arith, Bool, true, false, List, [], ◌∷◌, length, ltb,
  Bool-cases, Option-cases,
}
use jabi.Packet.{Req, raw_req}
use jabi.UartIface.{
  IfaceEnv, Event, irq, go, elapse, UartIface, Got, blocked, late, got, get_byte, Read, starved,
  short, full, stored, read, Received, out_of_fuel, payload_read, check_header, header_read,
  first_read, isr_turn, get_req_loop, uart_get_req,
}

module _ (e : IfaceEnv) where
  -- Fewer than `n` events are left, or none at all.
  abbrev LeavesFewer : ℕ → Got e → Type 0
  LeavesFewer n (blocked u) = Unit {0}
  LeavesFewer n (late u es) = length es < n
  LeavesFewer n (got b u es) = length es < n

  LeavesFewer-suc : (n : ℕ) (x : Got e) → LeavesFewer n x → LeavesFewer (suc n) x
  LeavesFewer-suc n (blocked u) h = tt
  LeavesFewer-suc n (late u es) h = omega arith
  LeavesFewer-suc n (got b u es) h = omega arith

  get_byte-LeavesFewer :
      (forever : Bool) (u : UartIface e) (es : List Event)
      → LeavesFewer (length es) (get_byte e forever u es)
  unfolding get_byte
  get_byte-LeavesFewer forever u [] = tt
  get_byte-LeavesFewer forever u (irq i ∷ es) =
      LeavesFewer-suc (length es) _ (get_byte-LeavesFewer forever (isr_turn e u i) es)
  get_byte-LeavesFewer forever u (go ∷ es) = elim (Option-cases (e.get u.rx)) [
    | inl empty ↦
        rw (empty, get_byte) (LeavesFewer-suc (length es) _ (get_byte-LeavesFewer forever u es))
    | inr ((b, q), there) ↦ rw (there, get_byte) (omega arith)
  ]
  get_byte-LeavesFewer true u (elapse ∷ es) = elim (Option-cases (e.get u.rx)) [
    | inl empty ↦
        rw (empty, get_byte) (LeavesFewer-suc (length es) _ (get_byte-LeavesFewer true u es))
    | inr ((b, q), there) ↦ rw (there, get_byte) (omega arith)
  ]
  get_byte-LeavesFewer false u (elapse ∷ es) = elim (Option-cases (e.get u.rx)) [
    | inl empty ↦ rw (empty, get_byte) (omega arith)
    | inr ((b, q), there) ↦ rw (there, get_byte) (omega arith)
  ]

  -- At most `n` events are left.
  abbrev Leaves : ℕ → Read e → Type 0
  Leaves n (starved u) = Unit {0}
  Leaves n (short bs u es) = length es ≤ n
  Leaves n (full bs u es) = length es ≤ n

  Leaves-stored : (n b : ℕ) (x : Read e) → Leaves n x → Leaves n (stored e b x)
  Leaves-stored n b (starved u) h = tt
  Leaves-stored n b (short bs u es) h = h
  Leaves-stored n b (full bs u es) h = h

  Leaves-le : (n m : ℕ) (x : Read e) → n ≤ m → Leaves n x → Leaves m x
  Leaves-le n m (starved u) le h = tt
  Leaves-le n m (short bs u es) le h = omega arith
  Leaves-le n m (full bs u es) le h = omega arith

  after_byte :
      (n : ℕ) (forever : Bool) (most : ℕ) (x : Got e)
      → ((u : UartIface e) (es : List Event) → Leaves (length es) (read e n forever u es))
      → LeavesFewer (suc most) x
      → Leaves most (elim x [
        | blocked u' ↦ starved u'
        | late u' es' ↦ short [] u' es'
        | got b u' es' ↦ stored e b (read e n forever u' es')
      ])
  after_byte n forever most (blocked u) more h = tt
  after_byte n forever most (late u es) more h = omega arith
  after_byte n forever most (got b u es) more h =
      Leaves-le (length es) most _ (omega arith) (Leaves-stored (length es) b _ (more u es))

  read-Leaves :
      (n : ℕ) (forever : Bool) (u : UartIface e) (es : List Event)
      → Leaves (length es) (read e n forever u es)
  unfolding read
  read-Leaves zero forever u es = omega arith
  read-Leaves (suc n) forever u es =
      after_byte n forever (length es) (get_byte e forever u es) (read-Leaves n forever)
        (LeavesFewer-suc (length es) _ (get_byte-LeavesFewer forever u es))

  abbrev Ends : Received e → Type 0
  Ends x = x ≢ out_of_fuel

  -- `continue` with fewer than `fuel` events comes to an end.
  abbrev Continues : ℕ → (List ℕ → UartIface e → List Event → Received e) → Type 0
  Continues fuel again =
      (mem : List ℕ) (u : UartIface e) (es : List Event) → length es < fuel → Ends (again mem u es)

  payload_read-Ends :
      (fuel n : ℕ) (again : List ℕ → UartIface e → List Event → Received e) (r : Req) (x : Read e)
      → Continues fuel again
      → n < fuel
      → Leaves n x
      → Ends (payload_read e again r x)
  payload_read-Ends fuel n again r (starved u) h less l = λ q. cc
  payload_read-Ends fuel n again r (short bs u es) h less l = h _ u es (omega arith)
  payload_read-Ends fuel n again r (full bs u es) h less l = λ q. cc

  check_header-Ends :
      (fuel : ℕ) (again : List ℕ → UartIface e → List Event → Received e) (r : Req)
      (u : UartIface e) (es : List Event)
      → Continues fuel again
      → length es < fuel
      → Ends (check_header e again r u es)
  check_header-Ends fuel again r u es h less = elim (Bool-cases (ltb e.req_max r.payload_len)) [
    | inl long ↦ rw long (h _ _ es less)
    | inr fits ↦ rw fits (
        payload_read-Ends fuel (length es) again r (read e r.payload_len false u es) h less
          (read-Leaves r.payload_len false u es))
  ]

  header_read-Ends :
      (fuel n : ℕ) (again : List ℕ → UartIface e → List Event → Received e) (mem first : List ℕ)
      (x : Read e)
      → Continues fuel again
      → n < fuel
      → Leaves n x
      → Ends (header_read e again mem first x)
  header_read-Ends fuel n again mem first (starved u) h less l = λ q. cc
  header_read-Ends fuel n again mem first (short bs u es) h less l = h _ u es (omega arith)
  header_read-Ends fuel n again mem first (full bs u es) h less l =
      check_header-Ends fuel again _ u es h (omega arith)

  first_read-Ends :
      (fuel n : ℕ) (again : List ℕ → UartIface e → List Event → Received e) (mem : List ℕ)
      (x : Read e)
      → Continues fuel again
      → n < fuel
      → Leaves n x
      → Ends (first_read e again mem x)
  first_read-Ends fuel n again mem (starved u) h less l = λ q. cc
  first_read-Ends fuel n again mem (short bs u es) h less l =
      header_read-Ends fuel (length es) again mem bs (read e 7 false u es) h (omega arith)
        (read-Leaves 7 false u es)
  first_read-Ends fuel n again mem (full bs u es) h less l =
      header_read-Ends fuel (length es) again mem bs (read e 7 false u es) h (omega arith)
        (read-Leaves 7 false u es)

  first_byte-Leaves :
      (u : UartIface e) (x : Event) (es : List Event)
      → Leaves (length es) (read e 1 true u (x ∷ es))
  unfolding read
  first_byte-Leaves u x es =
      after_byte 0 true (length es) (get_byte e true u (x ∷ es)) (read-Leaves 0 true)
        (get_byte-LeavesFewer true u (x ∷ es))

  get_req_loop-Ends : (fuel : ℕ) → Continues fuel (get_req_loop e fuel)
  unfolding get_req_loop read get_byte
  get_req_loop-Ends zero mem u es less = absurd (omega arith)
  get_req_loop-Ends (suc fuel) mem u [] less = λ q. cc
  get_req_loop-Ends (suc fuel) mem u (x ∷ es) less =
      first_read-Ends fuel (length es) (get_req_loop e fuel) mem (read e 1 true u (x ∷ es))
        (get_req_loop-Ends fuel) (omega arith) (first_byte-Leaves u x es)

  -- The fuel of the model of uart_get_req is enough: over any events and from any state of the
  -- interface, it returns a request or waits for a byte at the end of the events, since each
  -- turn of its loop uses up at least one event.
  uart_get_req-ends :
      (r : Req) (u : UartIface e) (es : List Event) → uart_get_req e r u es ≢ out_of_fuel
  unfolding uart_get_req
  uart_get_req-ends r u es =
      get_req_loop-Ends (suc (length es)) (raw_req e.target r) u es (omega arith)
