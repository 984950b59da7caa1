-- ===== src/Threads/Exclusion.antt =====
-- The threads of process_interface and the locks that they hold.
use jabi.Prelude.{
  ℕ, zero, suc, ◌+◌, ◌≤◌, ◌≡◌, ◌≢◌, refl, sym, ap, ◌∙◌, arith, List, [], ◌∷◌, none, some, ◌==◌,
  if◌then◌else◌, get_elem?, set, replicate, get_elem?-set_self, get_elem?-set_ne, get_elem?-some-lt,
  inl, inr, dec_lt, ℕ_discrete, Option-cases,
}
use jabi.Packet.{Req}
use jabi.Kernel.{SemApi}
use jabi.Threads.{
  Phase, idle, claims, runs, System, Step, request, acquire, give_up, release, Reach, here, next,
}

abbrev pub holds : ℕ → Phase → ℕ
holds l idle = 0
holds l (claims req k) = 0
holds l (runs req k) = if k == l then 1 else 0

-- How many threads run under lock `l`.
abbrev pub running : ℕ → List Phase → ℕ
running l [] = 0
running l (p ∷ ps) = holds l p + running l ps

running-set :
    (l i : ℕ) (ps : List Phase) (old new : Phase)
    → get_elem? ps i ≡ some old
    → running l (set ps i new) + holds l old ≡ running l ps + holds l new
running-set l i [] old new e = cc
running-set l zero (p ∷ ps) old new e = let same : p ≡ old = ground arith in rw same (omega arith)
running-set l (suc i) (p ∷ ps) old new e = omega (arith, running-set l i ps old new e)

running-ge :
    (l i : ℕ) (ps : List Phase) (p : Phase) → get_elem? ps i ≡ some p → holds l p ≤ running l ps
running-ge l i [] p e = cc
running-ge l zero (q ∷ ps) p e = let same : q ≡ p = ground arith in rw same (omega arith)
running-ge l (suc i) (q ∷ ps) p e = omega (arith, running-ge l i ps p e)

two_running :
    (l i j : ℕ) (ps : List Phase) (p q : Phase)
    → i ≢ j
    → get_elem? ps i ≡ some p
    → get_elem? ps j ≡ some q
    → holds l p + holds l q ≤ running l ps
two_running l i j [] p q ne e f = cc
two_running l zero zero (r ∷ ps) p q ne e f = absurd (ne refl)
two_running l zero (suc j) (r ∷ ps) p q ne e f =
    let same : r ≡ p = ground arith in rw same (omega (arith, running-ge l j ps q f))
two_running l (suc i) zero (r ∷ ps) p q ne e f =
    let same : r ≡ q = ground arith in rw same (omega (arith, running-ge l i ps p e))
two_running l (suc i) (suc j) (r ∷ ps) p q ne e f =
    omega (arith, two_running l i j ps p q (λ h. ne (ap suc h)) e f)

running-idle : (l n : ℕ) → running l (replicate n idle) ≡ 0
running-idle l zero = refl
running-idle l (suc n) = omega (arith, running-idle l n)

get_elem?-replicate :
    {A : Type 0} (n i : ℕ) (a : A) {x : A} → get_elem? (replicate n a) i ≡ some x → x ≡ a
get_elem?-replicate zero i a e = cc
get_elem?-replicate (suc n) zero a e = cc
get_elem?-replicate (suc n) (suc i) a e = get_elem?-replicate n i a e

module _ (k : SemApi) where
  -- A lock is free, or one thread runs under it.
  pub record IsExclusive (s : System k) : Type 0 where
    pub one :
        (l : ℕ) (sem : k.Sem)
        → get_elem? s.locks l ≡ some sem
        → (k.count sem + running l s.threads ≡ 1) × (k.limit sem ≡ 1)
    pub none_else : (l : ℕ) → get_elem? s.locks l ≡ none → running l s.threads ≡ 0

  -- A thread that does not run before and after leaves the locks as they are.
  quiet-IsExclusive :
      (s : System k) (i : ℕ) (old new : Phase)
      → get_elem? s.threads i ≡ some old
      → ((l : ℕ) → holds l old ≡ holds l new)
      → IsExclusive s
      → IsExclusive (record s { threads = set s.threads i new })
  quiet-IsExclusive s i old new e same h = record {
    one = λ l sem at.
        let (count, limit) = h.one l sem at in
        (omega (arith, running-set l i s.threads old new e, same l, count), limit);
    none_else =
        λ l at. omega (arith, running-set l i s.threads old new e, same l, h.none_else l at);
  }

  -- A thread that takes or gives one lock, in balance with what it holds.
  module _ (s : System k) (i l : ℕ) (old new : Phase) (sem left : k.Sem)
      (at : get_elem? s.threads i ≡ some old) (lock : get_elem? s.locks l ≡ some sem)
      (others : (j : ℕ) → j ≢ l → holds j old ≡ holds j new)
      (balance : k.count left + holds l new ≡ k.count sem + holds l old) (binary : k.limit left ≡ 1)
      (h : IsExclusive s) where
    moved_one :
        (j : ℕ) (found : k.Sem)
        → get_elem? (set s.locks l left) j ≡ some found
        → (k.count found + running j (set s.threads i new) ≡ 1) × (k.limit found ≡ 1)
    moved_one j found e = elim (ℕ_discrete j l) [
      | yes same ↦
          let self : some left ≡ some found =
            sym (get_elem?-set_self s.locks l left (get_elem?-some-lt s.locks l lock))
            ∙ (rw same at e) in
          let it : left ≡ found = cc in
          rw (← it, same)
            (omega (arith, running-set l i s.threads old new at, (h.one l sem lock).0), binary)
      | no other ↦
          let there : get_elem? s.locks j ≡ some found =
            sym (get_elem?-set_ne s.locks left (λ q. other (sym q))) ∙ e in
          (
            omega (
              arith,
              running-set j i s.threads old new at,
              others j other,
              (h.one j found there).0,
            ),
            (h.one j found there).1,
          )
    ]

    moved_none :
        (j : ℕ) → get_elem? (set s.locks l left) j ≡ none → running j (set s.threads i new) ≡ 0
    moved_none j e = elim (ℕ_discrete j l) [
      | yes same ↦
          let self = get_elem?-set_self s.locks l left (get_elem?-some-lt s.locks l lock) in
          let gone : get_elem? (set s.locks l left) l ≡ none = rw same at e in cc
      | no other ↦
          let there : get_elem? s.locks j ≡ none =
            sym (get_elem?-set_ne s.locks left (λ q. other (sym q))) ∙ e in
          omega (arith, running-set j i s.threads old new at, others j other, h.none_else j there)
    ]

    moved-IsExclusive :
        IsExclusive (record { locks = set s.locks l left; threads = set s.threads i new })
    moved-IsExclusive = record { one = moved_one; none_else = moved_none }

  holds-other : (req : Req) (l j : ℕ) → j ≢ l → holds j (runs req l) ≡ 0
  holds-other req l j ne = ground arith

  holds_self : (req : Req) (l : ℕ) → holds l (runs req l) ≡ 1
  holds_self req l = ground arith

  take_now-lt :
      (sem left : k.Sem)
      → k.take_now sem ≡ some left
      → (k.count left + 1 ≡ k.count sem) × (k.limit left ≡ k.limit sem)
  take_now-lt sem left e = elim (dec_lt 0 (k.count sem)) [
    | yes pos ↦
        let (s', got, less, lim) = k.take_now-some sem pos in
        let same : s' ≡ left = ground arith in rw (← same) (less, lim)
    | no empty ↦ let failed = k.take_now-none sem (omega arith) in cc
  ]

  Step-IsExclusive :
      {rows : List (List ℕ)} {s t : System k} → Step k rows s t → IsExclusive s → IsExclusive t
  Step-IsExclusive {s} (request i req row l at _ _ e) h =
      rw e (quiet-IsExclusive s i idle (claims req l) at (λ _. refl) h)
  Step-IsExclusive {s} (give_up i req l at e) h =
      rw e (quiet-IsExclusive s i (claims req l) idle at (λ _. refl) h)
  Step-IsExclusive {s} (acquire i req l sem left at lock take e) h =
      let (less, lim) = take_now-lt sem left take in
      let was = h.one l sem lock in
      rw e (
        moved-IsExclusive s i l (claims req l) (runs req l) sem left at lock
          (λ j ne. sym (holds-other req l j ne)) (omega (arith, holds_self req l, less))
          (lim ∙ was.1) h)
  Step-IsExclusive {s} (release i req l sem at lock e) h =
      let was = h.one l sem lock in
      let mine = running-ge l i s.threads (runs req l) at in
      rw e (
        moved-IsExclusive s i l (runs req l) idle sem (k.give sem) at lock
          (λ j ne. holds-other req l j ne)
          (ground (arith, k.count-give sem, was, mine, holds_self req l)) (k.limit-give sem ∙ was.1)
          h)

  Reach-IsExclusive :
      {rows : List (List ℕ)} {s t : System k} → IsExclusive s → Reach k rows s t → IsExclusive t
  Reach-IsExclusive h here = h
  Reach-IsExclusive h (next r st) = Step-IsExclusive st (Reach-IsExclusive h r)

  -- The state in which main starts the threads: `n` of them, before their first request, and every
  -- lock made by k_sem_init(&d->lock, 1, 1).
  abbrev pub started : ℕ → ℕ → System k
  started locks n = record { locks = replicate locks (k.sem_init 1 1); threads = replicate n idle }

  started-IsExclusive : (locks n : ℕ) → IsExclusive (started locks n)
  started-IsExclusive locks n = record {
    one = λ l sem at.
        let made : sem ≡ k.sem_init 1 1 = get_elem?-replicate locks l (k.sem_init 1 1) at in
        (rw (made, k.count-init 1 1, running-idle l n), rw made (k.limit-init 1 1));
    none_else = λ l _. running-idle l n;
  }

  -- From the state in which main starts the threads, however they interleave, two of them never
  -- run peripheral functions under one lock.
  pub Reach-exclusive :
      (rows : List (List ℕ)) (locks n : ℕ) {s : System k} (i j : ℕ) (req1 req2 : Req) (l1 l2 : ℕ)
      → Reach k rows (started locks n) s
      → i ≢ j
      → get_elem? s.threads i ≡ some (runs req1 l1)
      → get_elem? s.threads j ≡ some (runs req2 l2)
      → l1 ≢ l2
  Reach-exclusive rows locks n {s} i j req1 req2 l1 l2 r ne e f same =
      let h = Reach-IsExclusive (started-IsExclusive locks n) r in
      let two = two_running l1 i j s.threads (runs req1 l1) (runs req2 l2) ne e f in
      let second : holds l1 (runs req2 l2) ≡ 1 = rw same (holds_self req2 l2) in
      let first = holds_self req1 l1 in
      elim (Option-cases (get_elem? s.locks l1)) [
        | inl missing ↦ omega (arith, two, first, second, h.none_else l1 missing)
        | inr (sem, found) ↦ omega (arith, two, first, second, (h.one l1 sem found).0)
      ]
