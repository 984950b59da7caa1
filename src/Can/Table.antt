-- ===== src/Can/Table.antt =====
-- can_periph_fns and can_periph_api, over the devices of the build.
use jabi.Prelude.{ℕ, List, [], ◌∷◌}
use jabi.Periph.{Api, on_device}
use jabi.Can.Driver.{CanEnv}
use jabi.Can.State.{Can}
use jabi.Can.Config.{can_set_filter, can_set_rate, can_set_style, can_state}
use jabi.Can.Transfer.{can_write, can_read}

-- `num` is DT_PROP_LEN(JABI_PERIPH_NODE, can), the length of can_devs.
unfoldable pub can_periph_api : (e : CanEnv) → ℕ → Api (List (Can e))
can_periph_api e num = record {
  num_idx = num;
  fns =
      on_device (can_set_filter e)
      ∷ on_device (can_set_rate e)
      ∷ on_device (can_set_style e)
      ∷ on_device (can_state e)
      ∷ on_device (can_write e)
      ∷ on_device (can_read e)
      ∷ [];
}
