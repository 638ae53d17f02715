-- ===== src/Usb/Received.antt =====
-- What `usb::bulk_read` returns is what the kernel handed over.
use libsdrgg.Prelude.{
  ℕ, zero, suc, ◌+◌, ◌-◌, ◌^◌, ◌≤◌, ◌<◌, List, [], ◌∷◌, ◌++◌, ◌≡◌, refl, sym, ◌∙◌, ap, arith,
  length, length-append, u32, ltb, inl, inr, Bool-cases,
}
use libsdrgg.Types.{
  Result, ok, err, trap, Errno, Health, health_ok, health_usb_errors, health_disconnected,
  health_dead, bulk_in, Reply, done, failed, Event, io, slept, notified_disconnect, Host, Dev,
}
use libsdrgg.Exec.{M, pure, fail, modify, ioctl, ◌>>=◌}
use libsdrgg.Usb.{
  is_removal, mark_disconnected, note_failure, chunk_size, end_bulk, end_chunk, bulk_chunks,
  bulk_read,
}
use libsdrgg.Usb.Bulk.{IsBounded, AnswerFits}

-- The bytes of all bulk transfers, oldest first.
abbrev pub received : List Event → List ℕ
received [] = []
received (io (bulk_in n timeout) (done bytes) ∷ t) = received t ++ bytes
received (io _ _ ∷ t) = received t
received (slept us ∷ t) = received t
received (notified_disconnect ∷ t) = received t

-- A read's bytes were added to those received before.
abbrev pub Reads : List ℕ → Result (List ℕ) → Dev → Type 0
Reads before (ok buf) d = received d.trace ≡ before ++ buf
Reads before (err e) d = received d.trace ≡ before
Reads before trap d = ⊥

append_assoc : (xs ys zs : List ℕ) → (xs ++ ys) ++ zs ≡ xs ++ (ys ++ zs)
append_assoc [] ys zs = refl
append_assoc (x ∷ xs) ys zs = ap (λ l. x ∷ l) (append_assoc xs ys zs)

pub append_nil : (xs : List ℕ) → xs ++ [] ≡ xs
append_nil [] = refl
append_nil (x ∷ xs) = ap (λ l. x ∷ l) (append_nil xs)

pub empty : (xs : List ℕ) → length xs ≡ 0 → xs ≡ []
empty [] h = refl
empty (x ∷ xs) h = absurd (omega arith)

mark-received : (h : Health) (d : Dev) → received (mark_disconnected h d).trace ≡ received d.trace
mark-received health_ok d = elim (Bool-cases d.has_hotplug_cb) [
  | inl cb ↦ rw cb refl
  | inr none' ↦ rw none' refl
]
mark-received health_usb_errors d = refl
mark-received health_disconnected d = refl
mark-received health_dead d = refl

failure-received : (e : Errno) (d : Dev) → received (note_failure e d).trace ≡ received d.trace
unfolding note_failure
failure-received e d = elim (Bool-cases (is_removal e)) [
  | inl gone ↦ rw gone (mark-received d.health _)
  | inr other ↦ rw other refl
]

end_bulk-Reads :
    (before : List ℕ) (total : ℕ) (buf : List ℕ) (e : Errno) (host : Host) (d : Dev)
    → length buf ≡ total
    → received d.trace ≡ before ++ buf
    → let (r, d') = end_bulk total buf e host d in Reads before r d'
unfolding end_bulk ◌>>=◌ modify pure fail
end_bulk-Reads before total buf e host d size h = elim (Bool-cases (ltb 0 total)) [
  | inl some_read ↦ rw some_read (failure-received e d ∙ h)
  | inr none_read ↦
      let nothing : length buf ≡ 0 = ground arith in
      rw none_read
        (failure-received e d ∙ h ∙ ap (λ b. before ++ b) (empty buf nothing) ∙ append_nil before)
]

end_chunk-Reads :
    (before : List ℕ) (next : ℕ → List ℕ → M (List ℕ)) (total : ℕ) (buf : List ℕ)
    (chunk timeout : ℕ) (reply : Reply) (host : Host) (d : Dev)
    → length buf ≡ total
    → received d.trace ≡ before ++ buf
    → let d1 = record d { trace = io (bulk_in chunk timeout) reply ∷ d.trace } in
      ((bytes : List ℕ)
        → length bytes ≡ chunk
        → received d1.trace ≡ before ++ (buf ++ bytes)
        → let (r, d') = next (u32 (total + length bytes)) (buf ++ bytes) host d1 in
          Reads before r d')
      → AnswerFits (bulk_in chunk timeout) reply
      → let (r, d') = end_chunk next total buf chunk reply host d1 in Reads before r d'
unfolding end_chunk pure
end_chunk-Reads before next total buf chunk timeout (failed e) host d size h ih fits =
    end_bulk-Reads before total buf e host _ size h
end_chunk-Reads before next total buf chunk timeout (done bytes) host d size h ih fits =
    let more = ap (λ l. l ++ bytes) h ∙ append_assoc before buf bytes in
    elim (Bool-cases (ltb (length bytes) chunk)) [
      | inl short ↦ rw short more
      | inr full ↦ rw full (ih bytes (ground arith) more)
    ]

chunks-Reads :
    (before : List ℕ) (fuel len timeout total : ℕ) (buf : List ℕ) (host : Host) (d : Dev)
    → IsBounded host
    → len < 2 ^ 32
    → length buf ≡ total
    → total ≤ len
    → len - total < fuel
    → received d.trace ≡ before ++ buf
    → let (r, d') = bulk_chunks fuel len timeout total buf host d in Reads before r d'
unfolding bulk_chunks pure ◌>>=◌ ioctl
chunks-Reads before zero len timeout total buf host d honest small size below run h =
    absurd (omega arith)
chunks-Reads before (suc fuel) len timeout total buf host d honest small size below run h =
    elim (Bool-cases (ltb total len)) [
      | inr full ↦ rw full h
      | inl more ↦ rw more (
          end_chunk-Reads before (bulk_chunks fuel len timeout) total buf (chunk_size len total)
            timeout (host.ioctl d.trace (bulk_in (chunk_size len total) timeout)) host d size h
            (λ bytes whole so_far.
              chunks-Reads before fuel len timeout (u32 (total + length bytes)) (buf ++ bytes) host
                _ honest small (ground (arith, length-append buf bytes)) (ground arith)
                (ground arith) so_far)
            (honest.fits d.trace (bulk_in (chunk_size len total) timeout)))
    ]

-- On a host whose answers fit what was asked for, a bulk read of less than 2^32 bytes returns all
-- the bytes that the kernel handed over in it, in order, and after an error there were none.
pub bulk_read-Reads :
    (len timeout : ℕ) (host : Host) (d : Dev)
    → IsBounded host
    → len < 2 ^ 32
    → let (r, d') = bulk_read len timeout host d in Reads (received d.trace) r d'
unfolding bulk_read
bulk_read-Reads len timeout host d honest small =
    chunks-Reads (received d.trace) (len + 1) len timeout 0 [] host d honest small refl
      (omega arith) (omega arith) (sym (append_nil (received d.trace)))
