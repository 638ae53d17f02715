-- ===== src/Rtl/Tuner/Merge.antt =====
-- What a read-modify-write sends.
use libsdrgg.Prelude.{ℕ, ◌≤◌, true, ◌≡◌, refl, bit_and, not8, merge, merge_keeps, merge_sets}
use libsdrgg.Types.{Host, Dev}
use libsdrgg.Exec.{gets, ◌>>=◌}
use libsdrgg.Rtl.Tuner.{is_shadowed, shadow_of, current_value, write_reg, rmw}

-- On a register of the shadow and a mask of 8 bits, a read-modify-write is the write of one value,
-- whose bits under the mask are those given and whose others are those of the shadow.
pub rmw-merges :
    (reg val mask : ℕ) (host : Host) (d : Dev)
    → is_shadowed d reg ≡ true
    → mask ≤ 255
    → (v : ℕ) × (rmw reg val mask host d ≡ write_reg reg v host d)
      × (bit_and v mask ≡ bit_and val mask)
      × (bit_and v (not8 mask) ≡ bit_and (shadow_of d reg) (not8 mask))
unfolding rmw current_value gets ◌>>=◌
rmw-merges reg val mask host d shadowed small = (
  merge 8 (shadow_of d reg) val mask,
  rw shadowed refl,
  merge_sets 8 (shadow_of d reg) val mask small,
  merge_keeps 8 (shadow_of d reg) val mask small,
)
