-- ===== src/Rtl/Gpio.antt =====
-- The GPIO functions of sdrgg_rtl.cpp. Their results are not looked at, and the byte `r` is not
-- initialised: where a read fails, what is written comes from a stale byte.
use libsdrgg.Prelude.{ℕ, ◌^◌, Bool, u8, bit_and, bit_or, not8, if◌then◌else◌}
use libsdrgg.Types.{ok, err, trap}
use libsdrgg.Exec.{M, Status, pure, ◌>>=◌, ◌>>◌, attempt, ignore, stuck, stale_byte}
use libsdrgg.Rtl.Transport.{submit_block_write, submit_block_read, block_sys}

abbrev pub sys_gpo : ℕ
sys_gpo = 0x3001

abbrev pub sys_gpoe : ℕ
sys_gpoe = 0x3003

abbrev pub sys_gpd : ℕ
sys_gpd = 0x3004

-- `submit_block_read( …, &r )` into a byte that holds `old`.
unfoldable pub read_or_keep : ℕ → ℕ → M ℕ
read_or_keep addr old = do
  rc ← attempt (submit_block_read block_sys addr)
  elim rc [ ok r ↦ pure r | err e ↦ pure old | trap ↦ stuck ]

abbrev pub gpio_mask : ℕ → ℕ
gpio_mask gpio = u8 (2 ^ gpio)

unfoldable pub set_gpio_output : ℕ → Status
set_gpio_output gpio = do
  garbage ← stale_byte
  r ← read_or_keep sys_gpd garbage
  ignore (submit_block_write block_sys sys_gpd (bit_and r (not8 (gpio_mask gpio))) 1)
  r' ← read_or_keep sys_gpoe r
  ignore (submit_block_write block_sys sys_gpoe (bit_or r' (gpio_mask gpio)) 1)

unfoldable pub set_gpio_bit : ℕ → Bool → Status
set_gpio_bit gpio val = do
  garbage ← stale_byte
  r ← read_or_keep sys_gpo garbage
  ignore (
      submit_block_write block_sys sys_gpo
        (if val then bit_or r (gpio_mask gpio) else bit_and r (not8 (gpio_mask gpio))) 1)
