-- ===== src/Periph.antt =====
-- include/jabi/error.h and include/jabi/peripherals.h: the error codes, what a peripheral function
-- returns, and the table entry of a peripheral.
pub mod Device
use jabi.Prelude.{
  ℕ, ◌+◌, ◌≤◌, ◌≡◌, List, [], length, get_elem?, set, none, some, Bool, if◌then◌else◌, ◌==◌, All,
  suc, zero, ◌∷◌,
}
use jabi.Bytes.{IsByte}
use jabi.Packet.{Target}

-- enum jabi_err_t
pub data JabiErr : Type 0 where
  no_err not_supported_err invalid_args_format_err uninitialized_err : JabiErr
  peripheral_err invalid_args_err busy_err timeout_err : JabiErr

abbrev pub code : JabiErr → ℕ
code no_err = 0
code not_supported_err = 1
code invalid_args_format_err = 2
code uninitialized_err = 3
code peripheral_err = 4
code invalid_args_err = 5
code busy_err = 6
code timeout_err = 7

-- What a function leaves behind: its return value, the bytes that it wrote from the start of
-- `resp`, and `*resp_len`, which is 0 before the call.
pub record Reply : Type 0 where
  pub retcode : JabiErr
  pub resp : List ℕ
  pub resp_len : ℕ

abbrev pub fail : JabiErr → Reply
fail e = record { retcode = e; resp = []; resp_len = 0 }

-- `*resp_len = 0; return JABI_NO_ERR;`
abbrev pub done : Reply
done = record { retcode = no_err; resp = []; resp_len = 0 }

-- A reply of `bytes`, all of them announced.
abbrev pub reply_with : List ℕ → Reply
reply_with bytes = record { retcode = no_err; resp = bytes; resp_len = length bytes }

-- periph_func_t: the state, the index, the request array and `req_len`.
abbrev pub Handler : Type 0 → Type 0
Handler S = S → ℕ → List ℕ → ℕ → S × Reply

-- struct periph_api_t; `num_fns` is ARRAY_SIZE of the function table.
pub record Api (S : Type 0) : Type 0 where
  pub num_idx : ℕ
  pub fns : List (Handler S)

-- A function of one device, over the array of devices: `&devs[idx]`. process_interface calls it
-- with `idx` below `num_idx` only; past the array the model answers an error.
abbrev pub on_device : {D : Type 0} → (D → List ℕ → ℕ → D × Reply) → Handler (List D)
on_device f devs idx req req_len = elim (get_elem? devs idx) [
  | none ↦ (devs, fail uninitialized_err)
  | some d ↦ let (d', reply) = f d req req_len in (set devs idx d', reply)
]

-- NUM_PERIPHERALS
abbrev pub num_peripherals : ℕ
num_peripherals = 10

-- What process_interface needs of a function: it writes within the response array, and announces
-- no byte that it did not write.
pub record IsFit (t : Target) (r : Reply) : Type 0 where
  pub written : length r.resp ≤ t.resp_max
  pub announced : r.resp_len ≤ length r.resp

-- A function that fits in every state that meets the invariant, and keeps the invariant.
abbrev pub FitsHandler : Target → {S : Type 0} → (S → Type 0) → Handler S → Type 0
FitsHandler t {S} Inv f =
    (s : S) (idx : ℕ) (req : List ℕ) (req_len : ℕ)
    → Inv s
    → length req ≡ t.req_max
    → req_len ≤ t.req_max
    → IsFit t (f s idx req req_len).1 × Inv (f s idx req req_len).0
