-- ===== src/Metadata/Fit.antt =====
-- The functions of metadata.c and their buffers.
use jabi.Prelude.{
  ℕ, ◌≤◌, ◌≡◌, arith, List, ◌++◌, length, get_elem?, replicate, All, length-append, length-take,
  length-replicate, Option-cases, inl, inr,
}
use jabi.Packet.{le16_at}
use jabi.Periph.{IsFit, FitsHandler}
use jabi.Metadata.{
  Build, serial, num_inst, echo, req_max_size, resp_max_size, custom, metadata_periph_api,
}

-- What the build has to keep to: a serial number that fits the response.
pub record IsBuild (m : Build) : Type 0 where
  pub serial_fits : length m.serial_bytes ≤ m.resp_max

module _ (m : Build) (b : IsBuild m) where
  serial-IsFit : (req : List ℕ) (n : ℕ) → IsFit m.target (serial m req n)
  unfolding serial
  serial-IsFit req n = ground (
    arith,
    b.serial_fits,
    m.resp_max-lt,
    length-take m.resp_max (m.serial_bytes ++ replicate m.resp_max 0),
    length-append m.serial_bytes (replicate {A = ℕ} m.resp_max 0),
    length-replicate {A = ℕ} m.resp_max 0,
  )

  num_inst-IsFit : (req : List ℕ) (n : ℕ) → IsFit m.target (num_inst m req n)
  unfolding num_inst
  num_inst-IsFit req n =
      let id = le16_at m.target req 0 in
      elim (Option-cases (get_elem? m.num_idxs id)) [
        | inl e ↦ ground (arith, e)
        | inr (k, e) ↦ ground (arith, e, m.length-store16 (m.cpu_to_le16 k), m.resp_max-ge)
      ]

  echo-IsFit :
      (req : List ℕ) (n : ℕ)
      → length req ≡ m.req_max
      → n ≤ m.req_max
      → IsFit m.target (echo m req n)
  unfolding echo
  echo-IsFit req n h small = ground (arith, length-take n req)

  sizes-IsFit :
      (req : List ℕ) (n : ℕ)
      → IsFit m.target (req_max_size m req n)
        × IsFit m.target (resp_max_size m req n)
        × IsFit m.target (custom m req n)
  unfolding req_max_size resp_max_size custom
  sizes-IsFit req n = (
    ground (arith, m.length-store16 (m.cpu_to_le16 m.req_max), m.resp_max-ge),
    ground (arith, m.length-store16 (m.cpu_to_le16 m.resp_max), m.resp_max-ge),
    ground arith,
  )

  -- If CONFIG_JABI_SERIAL fits the response array, every metadata function writes within that
  -- array and announces only what it wrote.
  pub metadata_periph_api-Fits :
      {S : Type 0} (Inv : S → Type 0)
      → All (FitsHandler m.target Inv) (metadata_periph_api m {S = S}).fns
  unfolding metadata_periph_api
  metadata_periph_api-Fits Inv = (
    (λ s idx req n inv h small. (serial-IsFit req n, inv)),
    (
      (λ s idx req n inv h small. (num_inst-IsFit req n, inv)),
      (
        (λ s idx req n inv h small. (echo-IsFit req n h small, inv)),
        (
          (λ s idx req n inv h small. ((sizes-IsFit req n).0, inv)),
          (
            (λ s idx req n inv h small. ((sizes-IsFit req n).1, inv)),
            ((λ s idx req n inv h small. ((sizes-IsFit req n).2, inv)), tt),
          ),
        ),
      ),
    ),
  )
