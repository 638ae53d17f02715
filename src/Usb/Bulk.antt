-- ===== src/Usb/Bulk.antt =====
-- The end of `usb::bulk_read`, and what it returns.
use libsdrgg.Prelude.{
  ℕ, zero, suc, ◌+◌, ◌-◌, ◌^◌, ◌≤◌, ◌<◌, List, [], ◌++◌, ◌≡◌, refl, arith, length, length-append,
  u32, ltb, inl, inr, Bool-cases,
}
use libsdrgg.Types.{
  Result, ok, err, trap, err_io, Errno, Request, bulk_in, Reply, done, failed, Event, Host, Dev,
}
use libsdrgg.Exec.{M, pure, fail, modify, ioctl, ◌>>=◌}
use libsdrgg.Usb.{chunk_size, end_bulk, end_chunk, bulk_chunks, bulk_read}

-- The kernel answers a bulk transfer with no more bytes than were asked for.
abbrev pub AnswerFits : Request → Reply → Type 0
AnswerFits (bulk_in n timeout) (done bytes) = length bytes ≤ n
AnswerFits _ _ = Unit

pub record IsBounded (host : Host) : Type 0 where
  pub fits : (trace : List Event) (req : Request) → AnswerFits req (host.ioctl trace req)

-- The bytes fit the buffer, or the transfer failed with SDRGG_ERR_IO.
abbrev pub Within : ℕ → Result (List ℕ) → Type 0
Within len (ok buf) = length buf ≤ len
Within len (err e) = e ≡ err_io
Within len trap = ⊥

end_bulk-Within :
    (len total : ℕ) (buf : List ℕ) (e : Errno) (host : Host) (d : Dev)
    → length buf ≤ len
    → Within len (end_bulk total buf e host d).0
unfolding end_bulk ◌>>=◌ modify pure fail
end_bulk-Within len total buf e host d fits = elim (Bool-cases (ltb 0 total)) [
  | inl some_read ↦ rw some_read fits
  | inr none_read ↦ rw none_read refl
]

end_chunk-Within :
    (next : ℕ → List ℕ → M (List ℕ)) (len total : ℕ) (buf : List ℕ) (chunk timeout : ℕ)
    (reply : Reply) (host : Host) (d : Dev)
    → AnswerFits (bulk_in chunk timeout) reply
    → length buf + chunk ≤ len
    → ((bytes : List ℕ)
        → length bytes ≡ chunk
        → Within len (next (u32 (total + length bytes)) (buf ++ bytes) host d).0)
    → Within len (end_chunk next total buf chunk reply host d).0
unfolding end_chunk pure
end_chunk-Within next len total buf chunk timeout (failed e) host d fits room ih =
    end_bulk-Within len total buf e host d (omega arith)
end_chunk-Within next len total buf chunk timeout (done bytes) host d fits room ih =
    elim (Bool-cases (ltb (length bytes) chunk)) [
      | inl short ↦ rw short (omega (arith, length-append buf bytes))
      | inr full ↦ rw full (ih bytes (ground arith))
    ]

chunks-Within :
    (fuel len timeout total : ℕ) (buf : List ℕ) (host : Host) (d : Dev)
    → IsBounded host
    → len < 2 ^ 32
    → length buf ≡ total
    → total ≤ len
    → len - total < fuel
    → Within len (bulk_chunks fuel len timeout total buf host d).0
unfolding bulk_chunks pure ◌>>=◌ ioctl
chunks-Within zero len timeout total buf host d honest small size below run = absurd (omega arith)
chunks-Within (suc fuel) len timeout total buf host d honest small size below run =
    elim (Bool-cases (ltb total len)) [
      | inr full ↦ rw full (omega arith)
      | inl more ↦ rw more (
          end_chunk-Within (bulk_chunks fuel len timeout) len total buf (chunk_size len total)
            timeout (host.ioctl d.trace (bulk_in (chunk_size len total) timeout)) host _
            (honest.fits d.trace (bulk_in (chunk_size len total) timeout)) (ground (arith, size))
            (λ bytes whole.
              chunks-Within fuel len timeout (u32 (total + length bytes)) (buf ++ bytes) host _
                honest small (ground (arith, length-append buf bytes)) (ground arith)
                (ground arith)))
    ]

-- On a host whose answers fit what was asked for, a bulk read of less than 2^32 bytes returns:
-- with no more bytes than the buffer holds, or with SDRGG_ERR_IO.
pub bulk_read-Within :
    (len timeout : ℕ) (host : Host) (d : Dev)
    → IsBounded host
    → len < 2 ^ 32
    → Within len (bulk_read len timeout host d).0
unfolding bulk_read
bulk_read-Within len timeout host d honest small =
    chunks-Within (len + 1) len timeout 0 [] host d honest small refl (omega arith) (omega arith)
