-- ===== src/Lin/Fine.antt =====
-- The configuration functions of lin.c, their buffers and their locks.
use jabi.Prelude.{
  ℕ, ◌≡◌, ◌≢◌, ◌⊎◌, inl, inr, refl, ◌∙◌, arith, Bool, true, false, Option, none, some, List, get_or,
  if◌then◌else◌, ◌==◌, ltb, leb, not, ◌&&◌, ◌||◌, length-set, Bool-cases,
}
use jabi.Periph.{JabiErr, Reply, IsFit, uninitialized_err, fail, done}
use jabi.Lin.Driver.{BusMode, LinEnv}
use jabi.Lin.Device.{Filter, Lin}
use jabi.Lin.Config.{
  mode_of, filter_type_of, enter_mode, lin_set_mode_j, lin_set_rate, store_filter, lin_set_filter,
  lin_mode, lin_status,
}
use jabi.Lin.Sound.{IsSound, borrow_token, purged-HasParts}

module _ (e : LinEnv) where
  -- A call that stays in its buffers, keeps the device sound and does not wait for ever.
  pub record Fine (out : Lin e × Reply) : Type 0 where
    pub fits : IsFit e.target out.1
    pub sound : IsSound e out.0
    pub returns : out.1.retcode ≢ uninitialized_err

  -- The conditional and the match on an option.
  pub Fine-if :
      (c : Bool) {x y : Lin e × Reply}
      → ((c ≡ true) → Fine x)
      → ((c ≡ false) → Fine y)
      → Fine (if c then x else y)
  Fine-if true kept other = kept refl
  Fine-if false kept other = other refl

  pub Fine-elim :
      {A : Type 0} (o : Option A) {x : Lin e × Reply} {f : A → Lin e × Reply}
      → Fine x
      → ((a : A) → o ≡ some a → Fine (f a))
      → Fine (elim o [ none ↦ x | some a ↦ f a ])
  Fine-elim none missing found = missing
  Fine-elim (some a) missing found = found a refl

  abbrev pub Refuses : JabiErr → Type 0
  Refuses err = err ≢ uninitialized_err

  pub fail-Fine : (lin : Lin e) (err : JabiErr) → IsSound e lin → Refuses err → Fine (lin, fail err)
  fail-Fine lin err h ne = record { fits = omega arith; sound = h; returns = ne }

  pub done-Fine : (lin : Lin e) → IsSound e lin → Fine (lin, done)
  done-Fine lin h = record { fits = omega arith; sound = h; returns = λ q. cc }

  enter_mode-IsSound :
      (lin : Lin e) (mode : BusMode) (m : ℕ)
      → mode_of m ≡ some mode
      → IsSound e lin
      → IsSound e (enter_mode e lin m)
  enter_mode-IsSound lin mode m known h =
      let valid : (m ≡ 0) ⊎ (m ≡ 1) = ground arith in
      elim (Bool-cases (lin.mode == 1 && m == 0)) [
        | inl change ↦ rw change (purged-HasParts e lin m h valid)
        | inr keep ↦ rw keep (record {
          filters_size = h.filters_size;
          tx_size = h.tx_size;
          tx_frames = h.tx_frames;
          rx_frames = h.rx_frames;
          rx_room = h.rx_room;
          unlocked = h.unlocked;
          no_command = h.no_command;
          known_mode = valid;
          drained = ground arith;
        })
      ]

  pub lin_set_mode_j-Fine :
      (lin : Lin e) (req : List ℕ) (n : ℕ) → IsSound e lin → Fine (lin_set_mode_j e lin req n)
  unfolding lin_set_mode_j
  lin_set_mode_j-Fine lin req n h =
      Fine-if (not (n == 1)) (λ _. fail-Fine lin _ h (λ q. cc))
        (λ _. Fine-elim (mode_of (get_or req 0 0)) (fail-Fine lin _ h (λ q. cc)) (λ mode known.
          Fine-if (not (e.set_mode lin.ctl mode).0) (λ _. fail-Fine _ _ h (λ q. cc))
            (λ _. done-Fine _ (enter_mode-IsSound _ mode (get_or req 0 0) known h))))

  pub lin_set_rate-Fine :
      (lin : Lin e) (req : List ℕ) (n : ℕ) → IsSound e lin → Fine (lin_set_rate e lin req n)
  unfolding lin_set_rate
  lin_set_rate-Fine lin req n h =
      Fine-if (not (n == 4)) (λ _. fail-Fine lin _ h (λ q. cc))
        (λ _. record { fits = ground arith; sound = h; returns = λ q. ground arith })

  pub lin_mode-Fine :
      (lin : Lin e) (req : List ℕ) (n : ℕ) → IsSound e lin → Fine (lin_mode e lin req n)
  unfolding lin_mode
  lin_mode-Fine lin req n h = record {
    fits = ground (arith, e.resp_max-ge);
    sound = h;
    returns = λ q. ground arith;
  }

  pub lin_status-Fine :
      (lin : Lin e) (req : List ℕ) (n : ℕ) → IsSound e lin → Fine (lin_status e lin req n)
  unfolding lin_status
  lin_status-Fine lin req n h = record {
    fits = ground (arith, e.resp_max-ge, e.length-store16 (e.cpu_to_le16 lin.status_retcode));
    sound = h;
    returns = λ q. ground arith;
  }

  store_filter-Fine :
      (lin : Lin e) (id : ℕ) (f : Filter) → IsSound e lin → Fine (store_filter e lin id f)
  unfolding store_filter
  store_filter-Fine lin id f h =
      let (lock, got, held) = borrow_token e lin.msg_lock h.unlocked in
      rw (got, store_filter)
        (done-Fine _ (record {
          filters_size = length-set lin.filters id f ∙ h.filters_size;
          tx_size = h.tx_size;
          tx_frames = h.tx_frames;
          rx_frames = h.rx_frames;
          rx_room = h.rx_room;
          unlocked = held;
          no_command = h.no_command;
          known_mode = h.known_mode;
          drained = h.drained;
        }))

  pub lin_set_filter-Fine :
      (lin : Lin e) (req : List ℕ) (n : ℕ) → IsSound e lin → Fine (lin_set_filter e lin req n)
  unfolding lin_set_filter
  lin_set_filter-Fine lin req n h =
      Fine-if (not (n == 3)) (λ _. fail-Fine lin _ h (λ q. cc))
        (λ _.
          Fine-if (leb e.num_id (get_or req 0 0) || ltb e.max_dlen (get_or req 2 0))
            (λ _. fail-Fine lin _ h (λ q. cc))
            (λ _.
              Fine-elim (filter_type_of (get_or req 1 0)) (fail-Fine lin _ h (λ q. cc))
                (λ type _. store_filter-Fine lin _ _ h)))
