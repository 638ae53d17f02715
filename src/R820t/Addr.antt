-- ===== src/R820t/Addr.antt =====
-- `namespace addr` of sdrgg_r820t.cpp: the registers of the chip.
use libsdrgg.Prelude.{ℕ}

abbrev pub lna_bias : ℕ
lna_bias = 0x05

abbrev pub filter_path : ℕ
filter_path = 0x06

abbrev pub mixer_drive : ℕ
mixer_drive = 0x07

abbrev pub supply_a : ℕ
supply_a = 0x08

abbrev pub supply_b : ℕ
supply_b = 0x09

abbrev pub filt_bias : ℕ
filt_bias = 0x0A

abbrev pub hp_control : ℕ
hp_control = 0x0B

abbrev pub if_stage : ℕ
if_stage = 0x0C

abbrev pub lna_threshold : ℕ
lna_threshold = 0x0D

abbrev pub mix_threshold : ℕ
mix_threshold = 0x0E

abbrev pub clk_routing : ℕ
clk_routing = 0x0F

abbrev pub xdiv_pll : ℕ
xdiv_pll = 0x10

abbrev pub charge_pump : ℕ
charge_pump = 0x11

abbrev pub vco_drive : ℕ
vco_drive = 0x12

abbrev pub vco_calib : ℕ
vco_calib = 0x13

abbrev pub pll_word : ℕ
pll_word = 0x14

abbrev pub sdm_frac_lo : ℕ
sdm_frac_lo = 0x15

abbrev pub sdm_frac_hi : ℕ
sdm_frac_hi = 0x16

abbrev pub drain_path : ℕ
drain_path = 0x17

abbrev pub reserved_18 : ℕ
reserved_18 = 0x18

abbrev pub poly_select : ℕ
poly_select = 0x19

abbrev pub mux_routing : ℕ
mux_routing = 0x1A

abbrev pub track_filter : ℕ
track_filter = 0x1B

abbrev pub rf_top : ℕ
rf_top = 0x1C

abbrev pub detect_bw : ℕ
detect_bw = 0x1D

abbrev pub lna_power : ℕ
lna_power = 0x1E

abbrev pub tail_atten : ℕ
tail_atten = 0x1F
