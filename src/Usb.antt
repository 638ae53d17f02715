-- ===== src/Usb.antt =====
-- sdrgg_usb.cpp, sub-layer 1: synchronous control and bulk transfers, and the interface claim.
-- The debug log and the messages on stderr are left out: they change nothing that is returned.
pub mod Bulk
pub mod Hotplug
pub mod Reversal
pub mod Received
pub mod Urb
pub mod Loop
pub mod Dispatch
pub mod Text
pub mod Sysfs
use libsdrgg.Prelude.{
  ℕ, zero, suc, ◌+◌, ◌-◌, List, [], ◌∷◌, ◌++◌, Bool, true, false, length, u8, u32, bit_and, bit_or,
  shl, shr, ltb, if◌then◌else◌,
}
use libsdrgg.Types.{
  err_usb, err_io, err_busy, Errno, other_errno, Health, health_ok, health_disconnected,
  control_out, control_in, bulk_in, claim_interface, release_interface, get_capabilities,
  get_driver, disconnect_driver, Reply, done, failed, notified_disconnect, Dev,
}
use libsdrgg.Exec.{M, Status, pure, fail, modify, ◌>>=◌, ◌>>◌, stuck, ioctl}

abbrev pub is_removal : Errno → Bool
is_removal other_errno = false
is_removal _ = true

-- The callback is taken not to call back into the library.
abbrev pub mark_disconnected : Health → Dev → Dev
mark_disconnected health_ok d = record d {
  health = health_disconnected;
  trace = if d.has_hotplug_cb then notified_disconnect ∷ d.trace else d.trace;
}
mark_disconnected _ d = d

-- The hot-plug block of a failed transfer.
unfoldable pub note_failure : Errno → Dev → Dev
note_failure e d =
    if is_removal e
    then mark_disconnected d.health (record d { usb_error_count = u32 (d.usb_error_count + 1) })
    else d

unfoldable pub note_success : Dev → Dev
note_success d = record d { usb_error_count = 0 }

-- The end of `control_write` and of `control_read`.
unfoldable pub finish_control : Reply → M (List ℕ)
finish_control (done bytes) = do modify note_success; pure bytes
finish_control (failed e) = do modify (note_failure e); fail err_usb

unfoldable pub control_write : ℕ → ℕ → List ℕ → Status
control_write value index bytes = do
  reply ← ioctl (control_out value index bytes)
  finish_control reply
  pure tt

-- The buffer as it is after the call.
unfoldable pub control_read : ℕ → ℕ → ℕ → M (List ℕ)
control_read value index len = do reply ← ioctl (control_in value index len); finish_control reply

abbrev pub max_chunk : ℕ
max_chunk = 16384

-- A failed chunk: what was read before counts, if there was any.
unfoldable pub end_bulk : ℕ → List ℕ → Errno → M (List ℕ)
end_bulk total buf e = do modify (note_failure e); if ltb 0 total then pure buf else fail err_io

-- What one round of the loop does with the answer; `next` is the rest of the loop.
unfoldable pub end_chunk : (ℕ → List ℕ → M (List ℕ)) → ℕ → List ℕ → ℕ → Reply → M (List ℕ)
end_chunk next total buf chunk (failed e) = end_bulk total buf e
end_chunk next total buf chunk (done bytes) =
    if ltb (length bytes) chunk
    then pure (buf ++ bytes)
    else next (u32 (total + length bytes)) (buf ++ bytes)

abbrev pub chunk_size : ℕ → ℕ → ℕ
chunk_size len total = if ltb max_chunk (len - total) then max_chunk else len - total

-- The `while` of `bulk_read`; `total` bytes are in `buf`. `stuck` marks that the fuel ran
-- out.
unfoldable pub bulk_chunks : ℕ → ℕ → ℕ → ℕ → List ℕ → M (List ℕ)
bulk_chunks zero len timeout total buf = stuck
bulk_chunks (suc fuel) len timeout total buf =
    let chunk = chunk_size len total in
    if ltb total len
    then (ioctl (bulk_in chunk timeout) >>= λ reply.
        end_chunk (bulk_chunks fuel len timeout) total buf chunk reply)
    else pure buf

-- The bytes read; their number is `*actual`.
unfoldable pub bulk_read : ℕ → ℕ → M (List ℕ)
bulk_read len timeout = bulk_chunks (len + 1) len timeout 0 []

-- `usb::claim`: a kernel driver is detached first.
unfoldable pub claim : Status
claim = do
  ioctl get_capabilities
  driver ← ioctl get_driver
  elim driver [ done _ ↦ ioctl disconnect_driver >> pure tt | failed _ ↦ pure tt ]
  reply ← ioctl claim_interface
  elim reply [ done _ ↦ pure tt | failed _ ↦ fail err_busy ]

unfoldable pub release : Status
release = do ioctl release_interface; pure tt

-- `usb::bitrev8`; each line's result is a `uint8_t`.
unfoldable pub swap_bits : ℕ → ℕ → ℕ → ℕ → ℕ
swap_bits hi lo k byte = u8 (bit_or (shr (bit_and byte hi) k) (shl (bit_and byte lo) k))

unfoldable pub bitrev8 : ℕ → ℕ
unfolding swap_bits
bitrev8 byte = swap_bits 0xAA 0x55 1 (swap_bits 0xCC 0x33 2 (swap_bits 0xF0 0x0F 4 byte))
