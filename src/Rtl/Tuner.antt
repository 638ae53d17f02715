-- ===== src/Rtl/Tuner.antt =====
-- The I2C repeater and the public `tuner::` functions of sdrgg_rtl.cpp.
pub mod Chip
pub mod Total
pub mod Mirror
pub mod Mirrored
pub mod Merge
use libsdrgg.Prelude.{
  ℕ, zero, suc, ◌+◌, ◌-◌, List, [], ◌∷◌, Bool, true, false, ◌&&◌, u8, bit_and, bit_or, not8, ltb,
  leb, if◌then◌else◌, get_or, set, map,
}
use libsdrgg.Types.{
  err_io, err_param, Result, ok, err, trap, TunerType, Dev, is_r820t_family, is_fc001x_family,
}
use libsdrgg.Exec.{
  M, Status, pure, fail, gets, modify, ◌>>=◌, ◌>>◌, attempt, ignore, return_code, stuck, usleep,
  when,
}
use libsdrgg.Usb.{control_write, control_read, bitrev8}
use libsdrgg.Rtl.Transport.{submit_demod_write}

abbrev pub r820t_num_regs : ℕ
r820t_num_regs = 27

abbrev pub r820t_reg_start : ℕ
r820t_reg_start = 5

abbrev pub i2c_write_index : ℕ
i2c_write_index = 0x0610

abbrev pub i2c_read_index : ℕ
i2c_read_index = 0x0600

-- The register is one that the shadow file holds.
abbrev pub in_shadow : ℕ → Bool
in_shadow reg = leb r820t_reg_start reg && ltb reg (r820t_reg_start + r820t_num_regs)

-- The tuner's shadow is kept for this register.
abbrev pub is_shadowed : Dev → ℕ → Bool
is_shadowed d reg = is_r820t_family d.tuner_class && in_shadow reg

abbrev pub shadow_of : Dev → ℕ → ℕ
shadow_of d reg = get_or d.r820t_file (reg - r820t_reg_start) 0

abbrev pub succeeded : Result (Unit {0}) → Bool
succeeded (ok _) = true
succeeded _ = false

unfoldable pub enable_i2c_repeater : Bool → Status
enable_i2c_repeater enable = do
  rc ← attempt (submit_demod_write 1 0x01 (if enable then 0x18 else 0x10) 1)
  slow ← gets (λ d. is_fc001x_family d.tuner_class)
  when (enable && succeeded rc && slow) (usleep 500)
  return_code rc

unfoldable pub tuner_write : List ℕ → Status
tuner_write bytes = do
  enable_i2c_repeater true
  addr ← gets (λ d. d.tuner_bus_addr)
  rc ← attempt (control_write addr i2c_write_index bytes)
  ignore (enable_i2c_repeater false)
  return_code rc

-- FC0012 and FC0013: one address write and one read for each register.
unfoldable pub read_two_phase : ℕ → ℕ → ℕ → M (List ℕ)
read_two_phase addr reg zero = pure []
read_two_phase addr reg (suc n) = do
  control_write addr i2c_write_index (u8 reg ∷ [])
  bytes ← control_read addr i2c_read_index 1
  rest ← read_two_phase addr (reg + 1) n
  pure (get_or bytes 0 0 ∷ rest)

-- `raw[reg]`, `raw[reg + 1]`, … : `n` bytes of them.
abbrev pub window : List ℕ → ℕ → ℕ → List ℕ
window raw reg zero = []
window raw reg (suc n) = get_or raw reg 0 ∷ window raw (reg + 1) n

-- The others: the chip counts up from register 0. The R820T family sends its bits reversed.
unfoldable pub read_sequential : TunerType → ℕ → ℕ → ℕ → M (List ℕ)
read_sequential cls addr reg len = if ltb 32 (reg + len) then fail err_param else do
  raw ← control_read addr i2c_read_index (reg + len)
  if is_r820t_family cls then pure (map bitrev8 (window raw reg len)) else pure (window raw reg len)

abbrev pub read_registers : TunerType → ℕ → ℕ → ℕ → M (List ℕ)
read_registers cls addr reg len =
    if is_fc001x_family cls then read_two_phase addr reg len else read_sequential cls addr reg len

unfoldable pub tuner_read : ℕ → ℕ → M (List ℕ)
tuner_read reg len = do
  enable_i2c_repeater true
  addr ← gets (λ d. d.tuner_bus_addr)
  cls ← gets (λ d. d.tuner_class)
  rc ← attempt (read_registers cls addr reg len)
  ignore (enable_i2c_repeater false)
  return_code rc

-- The shadow is written after the chip.
unfoldable pub store_shadow : ℕ → ℕ → Dev → Dev
store_shadow reg val d =
    if is_shadowed d reg
    then record d { r820t_file = set d.r820t_file (reg - r820t_reg_start) val }
    else d

unfoldable pub write_reg : ℕ → ℕ → Status
write_reg reg val = do tuner_write (reg ∷ val ∷ []); modify (store_shadow reg val)

unfoldable pub read_reg : ℕ → M ℕ
read_reg reg = do bytes ← tuner_read reg 1; pure (get_or bytes 0 0)

unfoldable pub current_value : ℕ → M ℕ
current_value reg = do
  shadowed ← gets (λ d. is_shadowed d reg)
  if shadowed then gets (λ d. shadow_of d reg) else read_reg reg

unfoldable pub rmw : ℕ → ℕ → ℕ → Status
rmw reg val mask = do
  cur ← current_value reg
  write_reg reg (bit_or (bit_and cur (not8 mask)) (bit_and val mask))

-- `i2c_session`: the flag `active`. (`op_count` is counted and never read.)
unfoldable pub i2c_session_begin : M Bool
i2c_session_begin = do enable_i2c_repeater true; pure true

unfoldable pub i2c_session_end : Bool → Status
i2c_session_end false = pure tt
i2c_session_end true = enable_i2c_repeater false

unfoldable pub i2c_session_write : Bool → ℕ → ℕ → Status
i2c_session_write false reg val = fail err_io
i2c_session_write true reg val = do
  addr ← gets (λ d. d.tuner_bus_addr)
  control_write addr i2c_write_index (reg ∷ val ∷ [])
  modify (store_shadow reg val)

unfoldable pub i2c_session_read : Bool → ℕ → ℕ → M (List ℕ)
i2c_session_read false reg len = fail err_io
i2c_session_read true reg len = do
  addr ← gets (λ d. d.tuner_bus_addr)
  cls ← gets (λ d. d.tuner_class)
  read_registers cls addr reg len

-- The pairs of `reg_val_pairs`.
unfoldable pub write_pairs : Bool → List (ℕ × ℕ) → Status
write_pairs active [] = pure tt
write_pairs active ((reg, val) ∷ rest) = do
  i2c_session_write active reg val
  write_pairs active rest

-- The session is ended on both ways out; after an error the end's result is not looked at.
unfoldable pub write_batch : List (ℕ × ℕ) → Status
write_batch pairs = do
  active ← i2c_session_begin
  rc ← attempt (write_pairs active pairs)
  if succeeded rc
      then i2c_session_end active
      else (ignore (i2c_session_end active) >> return_code rc)

unfoldable pub read_each : Bool → List ℕ → M (List ℕ)
read_each active [] = pure []
read_each active (reg ∷ regs) = do
  bytes ← i2c_session_read active reg 1
  rest ← read_each active regs
  pure (get_or bytes 0 0 ∷ rest)

unfoldable pub read_batch : List ℕ → M (List ℕ)
read_batch regs = do
  active ← i2c_session_begin
  rc ← attempt (read_each active regs)
  elim rc [
    | ok vals ↦ i2c_session_end active >> pure vals
    | err e ↦ ignore (i2c_session_end active) >> fail e
    | trap ↦ stuck
  ]
