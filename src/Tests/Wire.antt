-- ===== src/Tests/Wire.antt =====
-- Bytes, addresses and frames.
use melsec_mc_net.Prelude.{false, some, [], ◌∷◌, arith}
use melsec_mc_net.Address.{mc_analysis_address}
use melsec_mc_net.Address.Devices.{input_relay}
use melsec_mc_net.Address.Parse.{Names, mc_analysis_address-Names}

mc_analysis_address-Names_example :
    Names (mc_analysis_address (some (b'x' ∷ b'1' ∷ b'F' ∷ [])) 2) input_relay (1 ∷ 15 ∷ []) 2
mc_analysis_address-Names_example =
    mc_analysis_address-Names false input_relay (1 ∷ 15 ∷ []) 2 (omega arith, (omega arith, tt))
      (omega arith)
