-- ===== src/UartIface/Bytewise.antt =====
-- k_msgq_get and read of the UART interface, while no time passes.
use jabi.Prelude.{
  ℕ, suc, ◌+◌, ◌≤◌, ◌<◌, ◌≡◌, ◌⊎◌, refl, ap, sym, ◌∙◌, arith, Bool, false, none, some, List, [],
  ◌∷◌, ◌++◌, if◌then◌else◌, length, All, length-append, inl, inr,
}
use mathlib.Core.List.{append_assoc, append-nil}
use jabi.UartIface.{
  IsrTurn, IfaceEnv, Event, irq, go, elapse, UartIface, store_bytes, isr_turn, Got, got, get_byte,
  Read, full, stored, read,
}

-- The bytes that a turn of the handler finds, and those of all turns.
abbrev pub came : IsrTurn → List ℕ
came i = if i.rx_ready then elim i.received [ none ↦ [] | some bytes ↦ bytes ] else []

abbrev pub coming : List Event → List ℕ
coming [] = []
coming (irq i ∷ es) = came i ++ coming es
coming (go ∷ es) = coming es
coming (elapse ∷ es) = coming es

-- The end of TIMEOUT is not among the events.
abbrev pub InTime : Event → Type 0
InTime elapse = ⊥
InTime _ = Unit {0}

abbrev pub plus_one : List ℕ → ℕ → ℕ
plus_one [] n = suc n
plus_one (x ∷ xs) n = n

list-cases : (xs : List ℕ) → (xs ≡ []) ⊎ ((x : ℕ) × (rest : List ℕ) × (xs ≡ x ∷ rest))
list-cases [] = inl refl
list-cases (x ∷ xs) = inr (x, xs, refl)

-- How often it is the thread's turn after the last byte has arrived.
abbrev pub late_goes : List Event → ℕ
late_goes [] = 0
late_goes (irq i ∷ es) = late_goes es
late_goes (go ∷ es) = plus_one (coming es) (late_goes es)
late_goes (elapse ∷ es) = late_goes es

module _ (e : IfaceEnv) where
  -- The bytes that the thread is still to read.
  abbrev pub pending : UartIface e → List Event → List ℕ
  pending u es = e.contents u.rx ++ coming es

  -- Nothing is being sent: the interrupt of the transmitter is off and the semaphore is taken.
  pub record AtRest (line : List ℕ) (most : ℕ) (u : UartIface e) : Type 0 where
    pub off : u.irq_tx ≡ false
    pub taken : e.count u.tx_lock ≡ 0
    pub one : e.limit u.tx_lock ≡ 1
    pub said : u.line ≡ line
    pub size : e.max_msgs u.rx ≡ most

  pub store_bytes-room :
      (q : e.Msgq) (bs : List ℕ)
      → length (e.contents q ++ bs) ≤ e.max_msgs q
      → (e.contents (store_bytes e q bs) ≡ e.contents q ++ bs)
        × (e.max_msgs (store_bytes e q bs) ≡ e.max_msgs q)
  unfolding store_bytes
  store_bytes-room q [] room = (sym (append-nil (e.contents q)), refl)
  store_bytes-room q (b ∷ bs) room =
      let size : length (e.contents q) < e.max_msgs q =
        omega (arith, length-append (e.contents q) (b ∷ bs)) in
      let (q', put, holds, same) = e.put-room q b size in
      let whole : (e.contents q ++ b ∷ []) ++ bs ≡ e.contents q ++ b ∷ bs =
        append_assoc (e.contents q) (b ∷ []) bs in
      let (after, kept) =
        store_bytes-room q' bs (omega (arith, ap length (ap (λ l. l ++ bs) holds ∙ whole), same)) in
      rw (put, store_bytes) (after ∙ ap (λ l. l ++ bs) holds ∙ whole, kept ∙ same)

  isr_turn-rx : (u : UartIface e) (i : IsrTurn) → (isr_turn e u i).rx ≡ store_bytes e u.rx (came i)
  unfolding isr_turn store_bytes
  isr_turn-rx u i = ground arith

  pub isr_turn-off :
      (u : UartIface e) (i : IsrTurn)
      → u.irq_tx ≡ false
      → (isr_turn e u i).irq_tx ≡ false
        × ((isr_turn e u i).tx_lock ≡ u.tx_lock)
        × ((isr_turn e u i).line ≡ u.line)
  unfolding isr_turn
  isr_turn-off u i off = ground arith

module _ (e : IfaceEnv) (line : List ℕ) (most : ℕ) where
  -- The bytes `bytes` are still to come, and fit the queue.
  pub record Ready (bytes : List ℕ) (u : UartIface e) (es : List Event) : Type 0 where
    pub rest : AtRest e line most u
    pub in_time : All InTime es
    pub bytes_left : pending e u es ≡ bytes
    pub room : length bytes ≤ most

  pub irq-pending :
      (bytes : List ℕ) (u : UartIface e) (i : IsrTurn) (es : List Event)
      → e.max_msgs u.rx ≡ most
      → pending e u (irq i ∷ es) ≡ bytes
      → length bytes ≤ most
      → (pending e (isr_turn e u i) es ≡ bytes) × (e.max_msgs (isr_turn e u i).rx ≡ most)
  irq-pending bytes u i es size left room =
      let whole = append_assoc (e.contents u.rx) (came i) (coming es) ∙ left in
      let fits : length (e.contents u.rx ++ came i) ≤ e.max_msgs u.rx = omega (
        arith,
        ap length whole,
        length-append (e.contents u.rx ++ came i) (coming es),
        room,
        size,
      ) in
      let (holds, same) = store_bytes-room e u.rx (came i) fits in
      let turned = isr_turn-rx e u i in
      (
        ap (λ q. e.contents q ++ coming es) turned ∙ ap (λ l. l ++ coming es) holds ∙ whole,
        ap e.max_msgs turned ∙ same ∙ size,
      )

  pub irq-Ready :
      (bytes : List ℕ) (u : UartIface e) (i : IsrTurn) (es : List Event)
      → Ready bytes u (irq i ∷ es)
      → Ready bytes (isr_turn e u i) es
  irq-Ready bytes u i es h =
      let (off, lock, said) = isr_turn-off e u i h.rest.off in
      let (left, size) = irq-pending bytes u i es h.rest.size h.bytes_left h.room in
      record {
        rest = record {
          off = off;
          taken = ap e.count lock ∙ h.rest.taken;
          one = ap e.limit lock ∙ h.rest.one;
          said = said ∙ h.rest.said;
          size = size;
        };
        in_time = h.in_time.1;
        bytes_left = left;
        room = h.room;
      }

  -- The byte `b`, which is there before the events `back`.
  pub record Next (b : ℕ) (rest : List ℕ) (back : List Event) (n : ℕ) (out : Got e) : Type 0 where
    pub after : UartIface e
    pub left : List Event
    pub same : out ≡ got b after (left ++ back)
    pub ready : Ready rest after left
    pub goes : n ≤ suc (late_goes left)

  plus_one-nil : (xs : List ℕ) (n : ℕ) → xs ≡ [] → plus_one xs n ≡ suc n
  plus_one-nil [] n h = refl
  plus_one-nil (x ∷ xs) n h = cc

  plus_one-cons : (x : ℕ) (xs ys : List ℕ) (n : ℕ) → ys ≡ x ∷ xs → plus_one ys n ≡ n
  plus_one-cons x xs [] n h = cc
  plus_one-cons x xs (y ∷ ys) n h = refl

  plus_one-le : (xs : List ℕ) (n : ℕ) → plus_one xs n ≤ suc n
  plus_one-le [] n = omega arith
  plus_one-le (x ∷ xs) n = omega arith

  pub get_byte-Next :
      (forever : Bool) (b : ℕ) (rest : List ℕ) (u : UartIface e) (front back : List Event)
      → Ready (b ∷ rest) u front
      → 0 < late_goes front
      → Next b rest back (late_goes front) (get_byte e forever u (front ++ back))
  unfolding get_byte
  get_byte-Next forever b rest u [] back h soon = absurd (omega arith)
  get_byte-Next forever b rest u (elapse ∷ es) back h soon = elim h.in_time.0 [ ]
  get_byte-Next forever b rest u (irq i ∷ es) back h soon =
      get_byte-Next forever b rest (isr_turn e u i) es back (irq-Ready (b ∷ rest) u i es h) soon
  get_byte-Next forever b rest u (go ∷ es) back h soon = elim (list-cases (e.contents u.rx)) [
    | inl empty ↦
        let later : coming es ≡ b ∷ rest = ap (λ l. l ++ coming es) (sym empty) ∙ h.bytes_left in
        let keeps = plus_one-cons b rest (coming es) (late_goes es) later in
        let next =
          get_byte-Next forever b rest u es back
            (record {
              rest = h.rest;
              in_time = h.in_time.1;
              bytes_left = h.bytes_left;
              room = h.room;
            })
            (omega (arith, keeps)) in
        rw (e.get-empty u.rx empty) (record {
          after = next.after;
          left = next.left;
          same = next.same;
          ready = next.ready;
          goes = omega (arith, keeps, next.goes);
        })
    | inr (x, xs, there) ↦
        let (q, took, holds, size) = e.get-cons u.rx x xs there in
        let whole : x ∷ (xs ++ coming es) ≡ b ∷ rest =
          ap (λ l. l ++ coming es) (sym there) ∙ h.bytes_left in
        let same : x ≡ b = cc in
        rw took (record {
          after = record u { rx = q };
          left = es;
          same = ap (λ y. got y (record u { rx = q }) (es ++ back)) same;
          ready = record {
            rest = record {
              off = h.rest.off;
              taken = h.rest.taken;
              one = h.rest.one;
              said = h.rest.said;
              size = size ∙ h.rest.size;
            };
            in_time = h.in_time.1;
            bytes_left = ap (λ l. l ++ coming es) holds ∙ (cc);
            room = omega (arith, h.room);
          };
          goes = plus_one-le (coming es) (late_goes es);
        })
  ]

  -- A read of `bytes`.
  pub record Whole (bytes rest : List ℕ) (back : List Event) (n : ℕ) (out : Read e) : Type 0 where
    pub after : UartIface e
    pub left : List Event
    pub same : out ≡ full bytes after (left ++ back)
    pub ready : Ready rest after left
    pub goes : n ≤ length bytes + late_goes left

  pub read-Whole :
      (forever : Bool) (bytes rest : List ℕ) (u : UartIface e) (front back : List Event)
      → Ready (bytes ++ rest) u front
      → length bytes ≤ late_goes front
      → Whole bytes rest back (late_goes front) (read e (length bytes) forever u (front ++ back))
  unfolding read
  read-Whole forever [] rest u front back h soon = record {
    after = u;
    left = front;
    same = refl;
    ready = h;
    goes = omega arith;
  }
  read-Whole forever (b ∷ bytes) rest u front back h soon =
      let next = get_byte-Next forever b (bytes ++ rest) u front back h (omega arith) in
      let more =
        read-Whole forever bytes rest next.after next.left back next.ready
          (omega (arith, next.goes)) in
      record {
        after = more.after;
        left = more.left;
        same = rw (next.same, read) (ap (stored e b) more.same);
        ready = more.ready;
        goes = omega (arith, next.goes, more.goes);
      }
