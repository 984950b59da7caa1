-- ===== src/Client/Remote/Spi/Ask.antt =====
-- What a client may ask of an SPI device, and what it wants of it.
use jabi.Prelude.{
  ℕ, zero, suc, ◌%◌, ◌/◌, ◌^◌, ◌≤◌, ◌<◌, ◌≡◌, refl, arith, Bool, true, false, not, Option, some,
  List, [], ◌∷◌, ◌++◌, ◌==◌, leb, length, get_elem?, set, All, Bool-cases, inl, inr,
}
use jabi.Bytes.{IsByte, le_bytes32, le32_value}
use jabi.Spi.Driver.{SpiConfig, SpiEnv}
use jabi.Spi.Device.{Spi, mode_bits, spi_set_freq, spi_set_mode, spi_set_bitorder}
use jabi.Client.{IfaceDynamicResp}
use jabi.Client.Interface.{Result, ok, throw}
use jabi.Client.Can.{byte_of}
use jabi.Client.Remote.{finish, finish_size}

-- A call of the client.
pub data Ask : Type 0 where
  asks_freq asks_mode : ℕ → Ask
  asks_order : Bool → Ask
  asks_exchange : List ℕ → Ask

-- The configuration that the caller wants after it: the clock idles high in modes 2 and 3, and
-- the second edge samples in modes 1 and 3.
abbrev pub wants : SpiConfig → Ask → SpiConfig
wants c (asks_freq f) = record c { frequency = f }
wants c (asks_mode m) = record c { cpol = leb 2 m; cpha = m % 2 == 1 }
wants c (asks_order msb) = record c { lsb_first = not msb }
wants c (asks_exchange bytes) = c

-- The configurations that the exchanges are to run in. A call comes with what k_sem_take says of
-- the device's lock: without the lock it has no effect.
abbrev pub wanted : SpiConfig → List (Bool × Ask) → List (Option SpiConfig)
wanted c [] = []
wanted c ((false, ask) ∷ asks) = wanted c asks
wanted c ((true, asks_exchange bytes) ∷ asks) = some c ∷ wanted c asks
wanted c ((true, asks_freq f) ∷ asks) = wanted (wants c (asks_freq f)) asks
wanted c ((true, asks_mode m) ∷ asks) = wanted (wants c (asks_mode m)) asks
wanted c ((true, asks_order msb) ∷ asks) = wanted (wants c (asks_order msb)) asks

-- The arguments are in range and fit the packets of both ends.
abbrev pub IsAsk : ℕ → ℕ → ℕ → Ask → Type 0
IsAsk sent received answered (asks_freq f) = f < 2 ^ 32
IsAsk sent received answered (asks_mode m) = m ≤ 3
IsAsk sent received answered (asks_order msb) = Unit {0}
IsAsk sent received answered (asks_exchange bytes) =
    (length bytes ≤ sent) × (length bytes ≤ received) × (length bytes ≤ answered) × All IsByte bytes

mode_bits_lem : (m : ℕ) → m ≤ 3 → mode_bits m ≡ some (leb 2 m, m % 2 == 1)
mode_bits_lem m h = ground arith

pub byte_of-IsByte : (v : Bool) → IsByte (byte_of v)
byte_of-IsByte true = omega arith
byte_of-IsByte false = omega arith

pub finish-world : {W : Type 0} (r : Result IfaceDynamicResp) (w : W) → (finish r w).1 ≡ w
finish-world (throw f) w = refl
finish-world (ok resp) w = elim (Bool-cases (length resp.payload == 0)) [
  | inl empty ↦ rw empty refl
  | inr data_there ↦ rw data_there refl
]

pub finish_size-world :
    {W : Type 0} (n : ℕ) (r : Result IfaceDynamicResp) (w : W) → (finish_size n r w).1 ≡ w
finish_size-world n (throw f) w = refl
finish_size-world n (ok resp) w = elim (Bool-cases (length resp.payload == n)) [
  | inl whole ↦ rw whole refl
  | inr wrong ↦ rw wrong refl
]

pub get_elem?-set_found :
    {A : Type 0} (xs : List A) (i : ℕ) (x v : A)
    → get_elem? xs i ≡ some x
    → get_elem? (set xs i v) i ≡ some v
get_elem?-set_found [] i x v h = cc
get_elem?-set_found (y ∷ xs) zero x v h = refl
get_elem?-set_found (y ∷ xs) (suc i) x v h = get_elem?-set_found xs i x v h

module _ (e : SpiEnv) where
  pub set_freq-wants :
      (spi : Spi e) (f : ℕ) (rest : List ℕ)
      → f < 2 ^ 32
      → (spi_set_freq e spi (le_bytes32 f ++ rest) 4).0.config0 ≡ wants spi.config0 (asks_freq f)
  unfolding spi_set_freq
  set_freq-wants spi f rest h = rw (
    e.le32_to_cpu-load32 (f % 256) (f / 256 % 256) (f / 65536 % 256) (f / 16777216 % 256)
        (omega arith) (omega arith) (omega arith) (omega arith),
    le32_value f h,
  )

  pub set_mode-wants :
      (spi : Spi e) (m : ℕ) (rest : List ℕ)
      → m ≤ 3
      → (spi_set_mode e spi (m ∷ rest) 1).0.config0 ≡ wants spi.config0 (asks_mode m)
  unfolding spi_set_mode
  set_mode-wants spi m rest h = rw (mode_bits_lem m h) refl

  pub set_bitorder-wants :
      (spi : Spi e) (msb : Bool) (rest : List ℕ)
      → (spi_set_bitorder e spi (byte_of msb ∷ rest) 1).0.config0
        ≡ wants spi.config0 (asks_order msb)
  unfolding spi_set_bitorder
  set_bitorder-wants spi true rest = refl
  set_bitorder-wants spi false rest = refl

  -- Setting answers without data.
  pub set_freq-empty :
      (spi : Spi e) (req : List ℕ) (n : ℕ) → (spi_set_freq e spi req n).1.resp_len ≡ 0
  unfolding spi_set_freq
  set_freq-empty spi req n = ground arith

  pub set_mode-empty :
      (spi : Spi e) (req : List ℕ) (n : ℕ) → (spi_set_mode e spi req n).1.resp_len ≡ 0
  unfolding spi_set_mode
  set_mode-empty spi req n = ground arith

  pub set_bitorder-empty :
      (spi : Spi e) (req : List ℕ) (n : ℕ) → (spi_set_bitorder e spi req n).1.resp_len ≡ 0
  unfolding spi_set_bitorder
  set_bitorder-empty spi req n = ground arith
