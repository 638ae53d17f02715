-- ===== src/R820t/Gain.antt =====
-- Gain tables, profile selection and the stage registers.
use libsdrgg.Prelude.{ℕ, List, [], ◌∷◌, Option, none, some, u8, bit_or, ltb, if◌then◌else◌}
use libsdrgg.Prelude.Int.{ℤ, pos, negsuc, leb_ℤ, is_negative}
use libsdrgg.Exec.{Status}
use libsdrgg.Rtl.Tuner.{rmw}
use libsdrgg.R820t.Addr

abbrev pub lna_db : List ℤ
lna_db =
    pos 0
    ∷ pos 9
    ∷ pos 13
    ∷ pos 40
    ∷ pos 38
    ∷ pos 13
    ∷ pos 31
    ∷ pos 22
    ∷ pos 26
    ∷ pos 31
    ∷ pos 26
    ∷ pos 14
    ∷ pos 19
    ∷ pos 5
    ∷ pos 35
    ∷ pos 13
    ∷ []

abbrev pub mixer_db : List ℤ
mixer_db =
    pos 0
    ∷ pos 5
    ∷ pos 10
    ∷ pos 10
    ∷ pos 19
    ∷ pos 9
    ∷ pos 10
    ∷ pos 25
    ∷ pos 17
    ∷ pos 10
    ∷ pos 8
    ∷ pos 16
    ∷ pos 13
    ∷ pos 6
    ∷ pos 3
    ∷ negsuc 7
    ∷ []

-- `gain_profile`
pub record GainProfile : Type 0 where
  pub total_tenth_db : ℕ
  pub lna_index : ℕ
  pub mixer_index : ℕ
  pub vga_index : ℕ

abbrev pub manual_vga_index : ℕ
manual_vga_index = 8

abbrev pub auto_vga_index : ℕ
auto_vga_index = 11

abbrev pub profile : ℕ → ℕ → ℕ → GainProfile
profile total lna mixer = record {
  total_tenth_db = total;
  lna_index = lna;
  mixer_index = mixer;
  vga_index = manual_vga_index;
}

abbrev pub last_gain_profile : GainProfile
last_gain_profile = profile 496 15 14

abbrev pub manual_gain_profiles : List GainProfile
manual_gain_profiles =
    profile 0 0 0
    ∷ profile 9 1 0
    ∷ profile 14 1 1
    ∷ profile 27 2 1
    ∷ profile 37 2 2
    ∷ profile 77 3 2
    ∷ profile 87 3 3
    ∷ profile 125 4 3
    ∷ profile 144 4 4
    ∷ profile 157 5 4
    ∷ profile 166 5 5
    ∷ profile 197 6 5
    ∷ profile 207 6 6
    ∷ profile 229 7 6
    ∷ profile 254 7 7
    ∷ profile 280 8 7
    ∷ profile 297 8 8
    ∷ profile 328 9 8
    ∷ profile 338 9 9
    ∷ profile 364 10 9
    ∷ profile 372 10 10
    ∷ profile 386 11 10
    ∷ profile 402 11 11
    ∷ profile 421 12 11
    ∷ profile 434 12 12
    ∷ profile 439 13 12
    ∷ profile 445 13 13
    ∷ profile 480 14 13
    ∷ last_gain_profile
    ∷ []

-- The loop of `select_gain_profile`, and its last line where no entry is high enough.
unfoldable pub first_reaching : ℤ → List GainProfile → GainProfile
first_reaching target [] = last_gain_profile
first_reaching target (p ∷ ps) =
    let later = first_reaching target ps in if leb_ℤ target (pos p.total_tenth_db) then p else later

unfoldable pub select_gain_profile : ℤ → Option GainProfile
select_gain_profile target =
    if is_negative target then none else some (first_reaching target manual_gain_profiles)

-- `stage_descriptor` (without `max_steps`, which nothing reads) and `stage_assignment`
pub record StageDescriptor : Type 0 where
  pub control_reg : ℕ
  pub auto_mode_bit : ℕ
  pub step_field : ℕ

pub record StageAssignment : Type 0 where
  pub control_reg : ℕ
  pub composed_bits : ℕ
  pub affected_mask : ℕ

abbrev pub lna_stage : StageDescriptor
lna_stage = record { control_reg = Addr.lna_bias; auto_mode_bit = 0x10; step_field = 0x0F }

abbrev pub clamp_index : ℕ → ℕ
clamp_index index = if ltb 0x0F index then 0x0F else index

unfoldable pub compose_assignment : StageDescriptor → ℤ → StageAssignment
compose_assignment desc (negsuc _) = record {
  control_reg = desc.control_reg;
  composed_bits = 0x00;
  affected_mask = desc.auto_mode_bit;
}
compose_assignment desc (pos index) = record {
  control_reg = desc.control_reg;
  composed_bits = bit_or desc.auto_mode_bit (u8 (clamp_index index));
  affected_mask = bit_or desc.auto_mode_bit desc.step_field;
}

unfoldable pub apply_assignment : StageAssignment → Status
apply_assignment sa = rmw sa.control_reg sa.composed_bits sa.affected_mask

unfoldable pub set_lna_gain : ℤ → Status
unfolding compose_assignment apply_assignment
set_lna_gain index = apply_assignment (compose_assignment lna_stage index)

unfoldable pub set_mixer_gain : ℤ → Status
set_mixer_gain (negsuc _) = rmw Addr.mixer_drive 0x10 0x10
set_mixer_gain (pos index) = rmw Addr.mixer_drive (bit_or 0x10 (u8 (clamp_index index))) 0x1F

unfoldable pub set_vga_gain : ℤ → Status
set_vga_gain (negsuc _) = rmw Addr.if_stage 0 0x9F
set_vga_gain (pos index) = rmw Addr.if_stage (u8 (clamp_index index)) 0x9F
