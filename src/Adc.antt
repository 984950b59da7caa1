-- ===== src/Adc.antt =====
-- firmware/src/peripherals/adc.c. Zephyr's ADC driver is a parameter. The configuration that
-- adc_channel_setup and adc_read get is the same in every call but for the channel and the
-- resolution, which the device's entry holds.
pub mod Fit
use jabi.Prelude.{ℕ, Bool, not, Option, none, some, List, [], ◌∷◌, ◌==◌, if◌then◌else◌, get_elem?}
use jabi.Packet.{Target}
use jabi.Periph.{
  Reply, Api, fail, reply_with, uninitialized_err, invalid_args_format_err, peripheral_err,
}

-- adc_dev_data_t
pub record AdcDev : Type 0 where
  pub dev : ℕ
  pub channel : ℕ
  pub resolution : ℕ
  pub vref : ℕ

-- adc_channel_setup; adc_read, with the sample that it stores; and adc_raw_to_millivolts, from a
-- sample to the bits of an int32_t. Errors are false and `none`.
pub record AdcEnv : Type 1 where
  pub target : Target
  pub open target use *
  pub adc_devs : List AdcDev
  pub Hw : Type 0
  pub channel_setup : Hw → AdcDev → Bool × Hw
  pub sample : Hw → AdcDev → Option ℕ × Hw
  pub raw_to_millivolts : AdcDev → ℕ → Option ℕ

module _ (e : AdcEnv) where
  -- From adc_raw_to_millivolts on. `mv` is stored in the CPU's own byte order.
  abbrev pub adc_reply : AdcDev → Option ℕ → Reply
  adc_reply adc none = fail peripheral_err
  adc_reply adc (some raw) = elim (e.raw_to_millivolts adc raw) [
    | none ↦ fail peripheral_err
    | some mv ↦ reply_with (e.store32 mv)
  ]

  unfoldable pub adc_read_j : e.Hw → ℕ → List ℕ → ℕ → e.Hw × Reply
  adc_read_j hw idx req req_len = elim (get_elem? e.adc_devs idx) [
    | none ↦ (hw, fail uninitialized_err)
    | some adc ↦
        let (ok, hw1) = e.channel_setup hw adc in
        let (raw, hw2) = e.sample hw1 adc in
        if not (req_len == 0)
        then (hw, fail invalid_args_format_err)
        else if not ok
        then (hw1, fail peripheral_err)
        else (hw2, adc_reply adc raw)
  ]

  -- adc_periph_fns and adc_periph_api; adc_init does nothing.
  unfoldable pub adc_periph_api : ℕ → Api e.Hw
  adc_periph_api num = record { num_idx = num; fns = adc_read_j ∷ [] }
