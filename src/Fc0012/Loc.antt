-- ===== src/Fc0012/Loc.antt =====
-- `namespace loc` of sdrgg_fc0012.cpp: the registers of the chip.
use libsdrgg.Prelude.{ℕ}

abbrev pub rf_amp : ℕ
rf_amp = 0x01

abbrev pub rf_mix : ℕ
rf_mix = 0x02

abbrev pub frac_hi : ℕ
frac_hi = 0x03

abbrev pub frac_lo : ℕ
frac_lo = 0x04

abbrev pub out_div : ℕ
out_div = 0x05

abbrev pub vco_bw : ℕ
vco_bw = 0x06

abbrev pub xtal_cfg : ℕ
xtal_cfg = 0x07

abbrev pub agc_ceil : ℕ
agc_ceil = 0x08

abbrev pub loop_path : ℕ
loop_path = 0x09

abbrev pub lo_diag : ℕ
lo_diag = 0x0A

abbrev pub clk_out : ℕ
clk_out = 0x0B

abbrev pub agc_ctrl : ℕ
agc_ctrl = 0x0C

abbrev pub lna_override : ℕ
lna_override = 0x0D

abbrev pub vco_cal : ℕ
vco_cal = 0x0E

abbrev pub gain_ceil : ℕ
gain_ceil = 0x12

abbrev pub lna_gain : ℕ
lna_gain = 0x13

abbrev pub lna_comp : ℕ
lna_comp = 0x15
