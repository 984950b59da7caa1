-- ===== src/Adc/Fit.antt =====
-- adc_read_j of adc.c and its buffer.
use jabi.Prelude.{ℕ, arith, Option, none, some, List, get_elem?, All, Option-cases, inl, inr}
use jabi.Periph.{IsFit, FitsHandler}
use jabi.Adc.{AdcDev, AdcEnv, adc_reply, adc_read_j, adc_periph_api}

module _ (e : AdcEnv) where
  abbrev pub AnyAdc : e.Hw → Type 0
  AnyAdc hw = Unit {0}

  reply-IsFit : (adc : AdcDev) (raw : Option ℕ) → IsFit e.target (adc_reply e adc raw)
  reply-IsFit adc none = omega arith
  reply-IsFit adc (some raw) = elim (Option-cases (e.raw_to_millivolts adc raw)) [
    | inl failed ↦ rw (failed, adc_reply) (omega arith)
    | inr (mv, got) ↦ rw (got, adc_reply) (omega (arith, e.length-store32 mv, e.resp_max-ge))
  ]

  read_j-IsFit :
      (hw : e.Hw) (idx : ℕ) (req : List ℕ) (n : ℕ) → IsFit e.target (adc_read_j e hw idx req n).1
  unfolding adc_read_j
  read_j-IsFit hw idx req n = elim (Option-cases (get_elem? e.adc_devs idx)) [
    | inl missing ↦ rw (missing, adc_read_j) (omega arith)
    | inr (adc, found) ↦
        rw (found, adc_read_j)
          (ground (arith, reply-IsFit adc (e.sample (e.channel_setup hw adc).1 adc).0))
  ]

  -- The function of the ADC table writes within the response array and announces only what it
  -- wrote, for every request and whatever the driver answers.
  pub adc_periph_api-Fits : (num : ℕ) → All (FitsHandler e.target AnyAdc) (adc_periph_api e num).fns
  unfolding adc_periph_api
  adc_periph_api-Fits num = ((λ s idx req n _ h l. (read_j-IsFit s idx req n, tt)), tt)
