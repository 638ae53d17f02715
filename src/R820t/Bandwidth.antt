-- ===== src/R820t/Bandwidth.antt =====
-- `set_bandwidth`: the choice of the filter registers and the IF, and its transfer.
use libsdrgg.Prelude.{
  ℕ, ◌+◌, ◌-◌, ◌*◌, ◌/◌, List, [], ◌∷◌, u8, u32, sub32, bit_or, ltb, ◌==◌, if◌then◌else◌, get_or,
  suc,
}
use libsdrgg.Exec.{Status, ◌>>◌}
use libsdrgg.Rtl.Nco.{set_if_freq}
use libsdrgg.R820t.Addr
use libsdrgg.R820t.Intents.{RegIntent, iseq_push_field, lower_intents}

abbrev pub if_low_pass_bw_table : List ℕ
if_low_pass_bw_table = 1700 ∷ 1600 ∷ 1550 ∷ 1450 ∷ 1200 ∷ 900 ∷ 700 ∷ 550 ∷ 450 ∷ 350 ∷ []

abbrev pub filt_hp_bw1 : ℕ
filt_hp_bw1 = 350

abbrev pub filt_hp_bw2 : ℕ
filt_hp_bw2 = 380

-- The first entry that `bw` exceeds, or the length of the table.
unfoldable pub first_below : ℕ → List ℕ → ℕ
first_below bw [] = 0
first_below bw (b ∷ bs) = let rest = first_below bw bs in if ltb b bw then 0 else suc rest

abbrev pub low_pass_index : ℕ → ℕ
low_pass_index bw =
    let index = first_below bw if_low_pass_bw_table in if index == 0 then 0 else index - 1

-- `reg_0a`, `reg_0b` and `if_freq_khz`
pub record BandwidthPlan : Type 0 where
  pub reg_0a : ℕ
  pub reg_0b : ℕ
  pub if_freq_khz : ℕ

-- The last branch works on these: `working_bw_khz`, `if_freq_khz`, `real_bw_khz` and `reg_0b`.
pub record NarrowPlan : Type 0 where
  pub working_bw_khz : ℕ
  pub if_khz : ℕ
  pub real_bw_khz : ℕ
  pub bits_0b : ℕ

-- One high-pass corner: taken off the width if it is too wide for `limit`, else its bit is set.
unfoldable pub take_corner : ℕ → ℕ → ℕ → NarrowPlan → NarrowPlan
take_corner limit corner flag p =
    if ltb limit p.working_bw_khz
    then record p {
      working_bw_khz = p.working_bw_khz - corner;
      if_khz = p.if_khz + corner;
      real_bw_khz = p.real_bw_khz + corner;
    }
    else record p { bits_0b = bit_or p.bits_0b flag }

unfoldable pub finish_narrow : NarrowPlan → BandwidthPlan
unfolding first_below
finish_narrow p =
    let index = low_pass_index p.working_bw_khz in
    let real_bw = p.real_bw_khz + get_or if_low_pass_bw_table index 0 in
    record {
      reg_0a = 0x00;
      reg_0b = bit_or p.bits_0b (u8 (15 - index));
      if_freq_khz = sub32 p.if_khz (real_bw / 2);
    }

unfoldable pub plan_narrow : ℕ → BandwidthPlan
unfolding take_corner finish_narrow
plan_narrow bw_khz =
    let p0 : NarrowPlan = record {
      working_bw_khz = bw_khz;
      if_khz = 2300;
      real_bw_khz = 0;
      bits_0b = 0x80;
    } in
    let p1 = take_corner (1700 + filt_hp_bw1) filt_hp_bw2 0x20 p0 in
    finish_narrow (take_corner 1700 filt_hp_bw1 0x40 p1)

unfoldable pub plan_bandwidth : ℕ → BandwidthPlan
unfolding plan_narrow
plan_bandwidth bw_khz =
    if ltb 7000 bw_khz
    then record { reg_0a = 0x10; reg_0b = 0x0B; if_freq_khz = 4570 }
    else if ltb 6000 bw_khz
    then record { reg_0a = 0x10; reg_0b = 0x2A; if_freq_khz = 4570 }
    else if ltb (1700 + filt_hp_bw1 + filt_hp_bw2) bw_khz
    then record { reg_0a = 0x10; reg_0b = 0x6B; if_freq_khz = 3570 }
    else plan_narrow bw_khz

unfoldable pub bandwidth_intents : BandwidthPlan → List RegIntent
unfolding iseq_push_field
bandwidth_intents p =
    let s0 = iseq_push_field [] Addr.filt_bias p.reg_0a 0x10 in
    iseq_push_field s0 Addr.hp_control p.reg_0b 0xEF

unfoldable pub set_bandwidth : ℕ → Status
unfolding plan_bandwidth bandwidth_intents
set_bandwidth bw_khz = do
  lower_intents (bandwidth_intents (plan_bandwidth bw_khz))
  set_if_freq (u32 ((plan_bandwidth bw_khz).if_freq_khz * 1000))
