-- ===== src/Metadata.antt =====
-- firmware/src/peripherals/metadata.c. The functions keep no state. CONFIG_JABI_SERIAL and the
-- `num_idx` of the peripherals are what the build makes them; a board that overrides
-- jabi_metadata_custom is not modelled.
pub mod Fit
use jabi.Prelude.{
  ℕ, ◌%◌, ◌^◌, not, List, [], ◌∷◌, ◌++◌, none, some, ltb, leb, ◌==◌, if◌then◌else◌, length,
  get_elem?, take, replicate,
}
use jabi.Packet.{Target, le16_at}
use jabi.Periph.{
  Reply, Handler, Api, fail, reply_with, no_err, not_supported_err, invalid_args_format_err,
  invalid_args_err, num_peripherals,
}

-- The bytes of CONFIG_JABI_SERIAL, and the `num_idx` of each entry of `peripherals`.
pub record Build : Type 0 where
  pub target : Target
  pub open target use *
  pub serial_bytes : List ℕ
  pub num_idxs : List ℕ

-- A function without state.
abbrev pub stateless : {S : Type 0} → (List ℕ → ℕ → Reply) → Handler S
stateless f s idx req req_len = (s, f req req_len)

module _ (m : Build) where
  -- strncpy fills the whole response array, with zeros behind the string.
  unfoldable pub serial : List ℕ → ℕ → Reply
  serial req req_len = if not (req_len == 0) then fail invalid_args_format_err else record {
    retcode = no_err;
    resp = take m.resp_max (m.serial_bytes ++ replicate m.resp_max 0);
    resp_len = length m.serial_bytes % 2 ^ 16;
  }

  unfoldable pub num_inst : List ℕ → ℕ → Reply
  num_inst req req_len =
      let periph_id = le16_at m.target req 0 in
      if not (req_len == 2)
      then fail invalid_args_format_err
      else if leb num_peripherals periph_id
      then fail not_supported_err
      else elim (get_elem? m.num_idxs periph_id) [
        | none ↦ fail not_supported_err
        | some n ↦ reply_with (m.store16 (m.cpu_to_le16 n))
      ]

  unfoldable pub echo : List ℕ → ℕ → Reply
  echo req req_len =
      if ltb m.resp_max req_len
      then fail invalid_args_err
      else record { retcode = no_err; resp = take req_len req; resp_len = req_len }

  unfoldable pub req_max_size : List ℕ → ℕ → Reply
  req_max_size req req_len =
      if not (req_len == 0)
      then fail invalid_args_format_err
      else reply_with (m.store16 (m.cpu_to_le16 m.req_max))

  unfoldable pub resp_max_size : List ℕ → ℕ → Reply
  resp_max_size req req_len =
      if not (req_len == 0)
      then fail invalid_args_format_err
      else reply_with (m.store16 (m.cpu_to_le16 m.resp_max))

  -- jabi_metadata_custom
  unfoldable pub custom : List ℕ → ℕ → Reply
  custom req req_len = fail not_supported_err

  -- metadata_periph_fns and metadata_periph_api
  unfoldable pub metadata_periph_api : {S : Type 0} → Api S
  metadata_periph_api = record {
    num_idx = 1;
    fns =
        stateless serial
        ∷ stateless num_inst
        ∷ stateless echo
        ∷ stateless req_max_size
        ∷ stateless resp_max_size
        ∷ stateless custom
        ∷ [];
  }
