-- ===== src/Rtl/Transport.antt =====
-- The transport layer of sdrgg_rtl.cpp: block and demodulator registers over control transfers, the
-- public `demod::` functions, and descriptor sequences.
use libsdrgg.Prelude.{
  ℕ, zero, suc, ◌+◌, List, [], ◌∷◌, ◌++◌, length, u8, u16, bit_and, bit_or, shl, shr, ltb, ◌==◌,
  if◌then◌else◌, get_or,
}
use libsdrgg.Types.{err_param}
use libsdrgg.Exec.{M, Status, pure, fail, ◌>>=◌, ◌>>◌, ignore}
use libsdrgg.Usb.{control_write, control_read}

abbrev pub block_demod : ℕ
block_demod = 0

abbrev pub block_usb : ℕ
block_usb = 1

abbrev pub block_sys : ℕ
block_sys = 2

-- `data[]`, high byte first for two bytes.
abbrev pub payload : ℕ → ℕ → List ℕ
payload val len =
    if len == 1 then bit_and val 0xFF ∷ [] else bit_and (shr val 8) 0xFF ∷ bit_and val 0xFF ∷ []

unfoldable pub submit_block_write : ℕ → ℕ → ℕ → ℕ → Status
submit_block_write block addr val len =
    control_write addr (bit_or (u16 (shl block 8)) 0x10) (payload val len)

unfoldable pub submit_block_read : ℕ → ℕ → M ℕ
submit_block_read block addr = do
  bytes ← control_read addr (u16 (shl block 8)) 1
  pure (get_or bytes 0 0)

abbrev pub demod_value : ℕ → ℕ
demod_value reg = bit_or (u16 (shl reg 8)) 0x20

-- The write is followed by the protocol's readback, whose result is not looked at.
unfoldable pub submit_demod_write : ℕ → ℕ → ℕ → ℕ → Status
submit_demod_write page reg val len = do
  control_write (demod_value reg) (bit_or 0x10 page) (payload val len)
  ignore (control_read 0x0120 0x000a 1)

unfoldable pub submit_demod_read : ℕ → ℕ → M ℕ
submit_demod_read page reg = do
  bytes ← control_read (demod_value reg) page 1
  pure (get_or bytes 0 0)

-- Address descriptors.
pub data RegDomain : Type 0 where
  usb_fabric system_fabric demod_internal : RegDomain

pub record RegDescriptor : Type 0 where
  pub domain : RegDomain
  pub page : ℕ
  pub offset : ℕ
  pub payload_value : ℕ
  pub width : ℕ

abbrev pub desc_seq_max : ℕ
desc_seq_max = 32

-- A full sequence takes no more; the callers do not look at the flag that says so.
unfoldable pub dseq_add : List RegDescriptor → RegDescriptor → List RegDescriptor
dseq_add ds item = if ltb (length ds) desc_seq_max then ds ++ item ∷ [] else ds

unfoldable pub dseq_add_fabric : List RegDescriptor → RegDomain → ℕ → ℕ → ℕ → List RegDescriptor
unfolding dseq_add
dseq_add_fabric ds domain offset val width =
    dseq_add ds
      (record { domain = domain; page = 0; offset = offset; payload_value = val; width = width })

unfoldable pub dseq_add_demod : List RegDescriptor → ℕ → ℕ → ℕ → ℕ → List RegDescriptor
unfolding dseq_add
dseq_add_demod ds page reg val width = dseq_add ds (record {
  domain = demod_internal;
  page = page;
  offset = reg;
  payload_value = val;
  width = width;
})

abbrev pub submit_descriptor : RegDomain → RegDescriptor → Status
submit_descriptor usb_fabric rd = submit_block_write block_usb rd.offset rd.payload_value rd.width
submit_descriptor system_fabric rd =
    submit_block_write block_sys rd.offset rd.payload_value rd.width
submit_descriptor demod_internal rd =
    submit_demod_write rd.page (u8 rd.offset) rd.payload_value rd.width

unfoldable pub apply_descriptors : List RegDescriptor → Status
apply_descriptors [] = pure tt
apply_descriptors (rd ∷ ds) = do submit_descriptor rd.domain rd; apply_descriptors ds

-- `demod::write`: for the demodulator block the page is the high byte of `reg`.
unfoldable pub demod_write : ℕ → ℕ → ℕ → Status
demod_write block reg val =
    if block == block_demod
    then submit_demod_write (bit_and (shr reg 8) 0xFF) (bit_and reg 0xFF) val 1
    else if block == block_usb
    then submit_block_write block reg val 1
    else if block == block_sys
    then submit_block_write block reg val 1
    else fail err_param

unfoldable pub demod_read : ℕ → ℕ → M ℕ
demod_read block reg =
    if block == block_demod
    then submit_demod_read (bit_and (shr reg 8) 0xFF) (bit_and reg 0xFF)
    else if block == block_usb
    then submit_block_read block reg
    else if block == block_sys
    then submit_block_read block reg
    else fail err_param

-- The loops over a demodulator page: `regoff + i` is passed as a `uint8_t`.
unfoldable pub write_page : ℕ → ℕ → List ℕ → Status
write_page page reg [] = pure tt
write_page page reg (b ∷ bs) = do submit_demod_write page (u8 reg) b 1; write_page page (reg + 1) bs

unfoldable pub demod_write_bulk : ℕ → ℕ → List ℕ → Status
demod_write_bulk block reg bytes =
    if block == block_demod
    then write_page (bit_and (shr reg 8) 0xFF) (bit_and reg 0xFF) bytes
    else if block == block_usb
    then control_write reg 0x0110 bytes
    else if block == block_sys
    then control_write reg 0x0210 bytes
    else fail err_param

unfoldable pub read_page : ℕ → ℕ → ℕ → M (List ℕ)
read_page page reg zero = pure []
read_page page reg (suc n) = do
  b ← submit_demod_read page (u8 reg)
  bs ← read_page page (reg + 1) n
  pure (b ∷ bs)

unfoldable pub demod_read_bulk : ℕ → ℕ → ℕ → M (List ℕ)
demod_read_bulk block reg len =
    if block == block_demod
    then read_page (bit_and (shr reg 8) 0xFF) (bit_and reg 0xFF) len
    else if block == block_usb
    then control_read reg 0x0100 len
    else if block == block_sys
    then control_read reg 0x0200 len
    else fail err_param
