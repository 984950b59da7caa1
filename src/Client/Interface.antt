-- ===== src/Client/Interface.antt =====
-- clients/cpp/libjabi/interfaces/interface.h: what a Device needs of its interface, and the ways a
-- call throws. `W` is the world outside the client, on which a call acts.
use jabi.Prelude.{ℕ, ◌%◌, ◌^◌, List, Bool, Option, none, some, if◌then◌else◌, length, ◌==◌, not}
use jabi.Client.{Endian, IfaceDynamicReq, IfaceDynamicResp}

-- The std::runtime_error of each message; the code of a bad response is the pattern of an int16_t.
pub data Failure : Type 0 where
  request_payload_size : Failure
  transfer_request_failed wrong_request_length transfer_zlp_failed : Failure
  transfer_response_failed wrong_response_length : Failure
  bad_response : ℕ → Failure
  unexpected_payload_length data_too_long maximum_size_too_small : Failure
  write_failed read_failed uart_timeout : Failure
  libusb_init_failed device_list_failed : Failure
  -- no exception: a remainder by zero, on which C++ may do anything
  division_by_zero : Failure

pub data Result (A : Type 0) : Type 0 where
  ok : A → Result A
  throw : Failure → Result A

-- A call that acts on the world, and returns or throws.
abbrev pub Action : Type 0 → Type 0 → Type 0
Action W A = W → Result A × W

module _ {W A : Type 0} where
  abbrev pub pure : A → Action W A
  pure a w = (ok a, w)

  abbrev pub raise : Failure → Action W A
  raise f w = (throw f, w)

infixl 5 ◌>>=◌ ◌>>◌
abbrev pub ◌>>=◌ : {W A B : Type 0} → Action W A → (A → Action W B) → Action W B
◌>>=◌ m f w = let (r, w') = m w in elim r [ ok a ↦ f a w' | throw e ↦ raise e w' ]

abbrev pub ◌>>◌ : {W A B : Type 0} → Action W A → Action W B → Action W B
m >> k = m >>= λ _. k

-- `if (c) { throw ...; }`
abbrev pub throw_if : {W : Type 0} → Bool → Failure → Action W (Unit {0})
throw_if c f w = (if c then throw f else ok tt, w)

-- A call of a library whose result may be an error.
abbrev pub checked : {W A : Type 0} → (W → Option A × W) → Failure → Action W A
checked m f w = let (r, w') = m w in (elim r [ none ↦ throw f | some a ↦ ok a ], w')

-- class Interface
pub record Interface (W : Type 0) : Type 0 where
  pub endian : Endian
  pub req_max_size : ℕ
  pub resp_max_size : ℕ
  pub send_request : IfaceDynamicReq → Action W IfaceDynamicResp

-- The request that a function of Device builds around its payload, with `idx` cast to uint16_t.
abbrev pub request : ℕ → ℕ → ℕ → List ℕ → IfaceDynamicReq
request id idx fn payload = record {
  periph_id = id;
  periph_idx = idx % 2 ^ 16;
  periph_fn = fn;
  payload_len = length payload % 2 ^ 16;
  payload = payload;
}

-- `if (resp.payload.size() != n) throw`
abbrev pub expect_size : {W : Type 0} → ℕ → IfaceDynamicResp → Action W (List ℕ)
expect_size n resp =
    if not (length resp.payload == n) then raise unexpected_payload_length else pure resp.payload

abbrev pub expect_empty : {W : Type 0} → IfaceDynamicResp → Action W (Unit {0})
expect_empty resp =
    if not (length resp.payload == 0) then raise unexpected_payload_length else pure tt
