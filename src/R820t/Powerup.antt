-- ===== src/R820t/Powerup.antt =====
-- The power-up image and the dormancy sequence.
use libsdrgg.Prelude.{ℕ, ◌+◌, ◌-◌, List, [], ◌∷◌, u8, ltb, if◌then◌else◌, set, replicate}
use libsdrgg.R820t.Addr
use libsdrgg.R820t.Intents.{RegIntent, iseq_push_full}

abbrev pub regmap_size : ℕ
regmap_size = 27

abbrev pub frontend_defaults : List (ℕ × ℕ)
frontend_defaults = (Addr.lna_bias, 0x83) ∷ (Addr.filter_path, 0x32) ∷ (Addr.mixer_drive, 0x75) ∷ []

abbrev pub supply_defaults : List (ℕ × ℕ)
supply_defaults =
    (Addr.supply_a, 0xC0)
    ∷ (Addr.supply_b, 0x40)
    ∷ (Addr.filt_bias, 0xD6)
    ∷ (Addr.hp_control, 0x6C)
    ∷ []

abbrev pub if_chain_defaults : List (ℕ × ℕ)
if_chain_defaults =
    (Addr.if_stage, 0xE5)
    ∷ (Addr.lna_threshold, 0x63)
    ∷ (Addr.mix_threshold, 0x75)
    ∷ (Addr.clk_routing, 0x68)
    ∷ []

abbrev pub pll_idle_defaults : List (ℕ × ℕ)
pll_idle_defaults =
    (Addr.xdiv_pll, 0x6C)
    ∷ (Addr.charge_pump, 0x83)
    ∷ (Addr.vco_drive, 0x80)
    ∷ (Addr.vco_calib, 0x00)
    ∷ (Addr.pll_word, 0x0F)
    ∷ (Addr.sdm_frac_lo, 0x00)
    ∷ (Addr.sdm_frac_hi, 0xC0)
    ∷ []

abbrev pub routing_defaults : List (ℕ × ℕ)
routing_defaults =
    (Addr.drain_path, 0x30)
    ∷ (Addr.reserved_18, 0x48)
    ∷ (Addr.poly_select, 0xCC)
    ∷ (Addr.mux_routing, 0x60)
    ∷ (Addr.track_filter, 0x00)
    ∷ []

abbrev pub output_defaults : List (ℕ × ℕ)
output_defaults =
    (Addr.rf_top, 0x54)
    ∷ (Addr.detect_bw, 0xAE)
    ∷ (Addr.lna_power, 0x4A)
    ∷ (Addr.tail_atten, 0xC0)
    ∷ []

-- `entries[i].reg_addr - SDRGG_R820T_REG_START` as a `uint8_t`
abbrev pub regmap_index : ℕ → ℕ
regmap_index reg_addr = u8 (reg_addr + 256 - 5)

unfoldable pub merge_contributor : List ℕ → List (ℕ × ℕ) → List ℕ
merge_contributor regmap [] = regmap
merge_contributor regmap ((reg_addr, value) ∷ entries) =
    merge_contributor
      (if ltb (regmap_index reg_addr) regmap_size
        then set regmap (regmap_index reg_addr) value
        else regmap)
      entries

unfoldable pub compose_powerup_image : List ℕ
unfolding merge_contributor
compose_powerup_image =
    let blank = replicate regmap_size 0 in
    let frontend = merge_contributor blank frontend_defaults in
    let supply = merge_contributor frontend supply_defaults in
    let if_chain = merge_contributor supply if_chain_defaults in
    let pll_idle = merge_contributor if_chain pll_idle_defaults in
    let routing = merge_contributor pll_idle routing_defaults in
    merge_contributor routing output_defaults

unfoldable pub compose_dormancy_intents : List RegIntent
unfolding iseq_push_full
compose_dormancy_intents =
    let s0 = iseq_push_full [] Addr.filter_path 0xB1 in
    let s1 = iseq_push_full s0 Addr.lna_bias 0x03 in
    let s2 = iseq_push_full s1 Addr.mixer_drive 0x3A in
    let s3 = iseq_push_full s2 Addr.supply_a 0x40 in
    let s4 = iseq_push_full s3 Addr.supply_b 0xC0 in
    let s5 = iseq_push_full s4 Addr.filt_bias 0x36 in
    let s6 = iseq_push_full s5 Addr.if_stage 0x35 in
    let s7 = iseq_push_full s6 Addr.clk_routing 0x68 in
    let s8 = iseq_push_full s7 Addr.charge_pump 0x03 in
    let s9 = iseq_push_full s8 Addr.drain_path 0xF4 in iseq_push_full s9 Addr.poly_select 0x0C
