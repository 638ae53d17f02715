-- ===== src/Usb/Hotplug.antt =====
-- The calls of the hot-plug callback by the transfers of sdrgg_usb.cpp.
use libsdrgg.Prelude.{ℕ, zero, suc, ◌+◌, ◌≤◌, List, [], ◌∷◌, ◌≡◌, refl, arith, inl, inr, Bool-cases}
use libsdrgg.Types.{
  Health, health_ok, health_disconnected, health_usb_errors, health_dead, Errno, Request, Reply,
  done, failed, Event, notified_disconnect, Host, Dev,
}
use libsdrgg.Exec.{M, modify, ioctl}
use libsdrgg.Exec.Keeps.{
  Keeps, keeps_rules, Keeps-bind, Keeps-modify, Keeps-if, Keeps-pure, Keeps-stuck,
}
use libsdrgg.Usb.{
  is_removal, mark_disconnected, note_failure, note_success, finish_control, control_write,
  control_read, end_bulk, end_chunk, bulk_chunks, bulk_read,
}

-- How often the callback was called.
abbrev pub notifications : List Event → ℕ
notifications [] = 0
notifications (notified_disconnect ∷ es) = suc (notifications es)
notifications (_ ∷ es) = notifications es

-- At most once, and never while the device is healthy.
abbrev notified_at_most : Health → ℕ
notified_at_most health_ok = 0
notified_at_most _ = 1

pub record IsNotifiedOnce (d : Dev) : Type 0 where
  pub bound : notifications d.trace ≤ notified_at_most d.health

mark-once :
    (h : Health) (d : Dev)
    → notifications d.trace ≤ notified_at_most h
    → d.health ≡ h
    → IsNotifiedOnce (mark_disconnected h d)
mark-once health_ok d once same = elim (Bool-cases (d.has_hotplug_cb)) [
  | inl cb ↦ rw (cb, mark_disconnected) record { bound = omega (arith, once) }
  | inr none ↦ rw (none, mark_disconnected) record { bound = omega (arith, once) }
]
mark-once health_usb_errors d once same = record { bound = rw same once }
mark-once health_disconnected d once same = record { bound = rw same once }
mark-once health_dead d once same = record { bound = rw same once }

note_failure-once : (e : Errno) → Keeps IsNotifiedOnce (modify (note_failure e))
unfolding note_failure
note_failure-once e = Keeps-modify (note_failure e) λ d once. elim (Bool-cases (is_removal e)) [
  | inl gone ↦ rw (gone, note_failure) (mark-once d.health _ once.bound refl)
  | inr other ↦ rw (other, note_failure) once
]

note_success-once : Keeps IsNotifiedOnce (modify note_success)
unfolding note_success
note_success-once = Keeps-modify _ λ d once. record { bound = once.bound }

ioctl-once : (req : Request) → Keeps IsNotifiedOnce (ioctl req)
unfolding ioctl
ioctl-once req = record { at = λ host d once. record { bound = once.bound } }

finish_control-once : (r : Reply) → Keeps IsNotifiedOnce (finish_control r)
unfolding finish_control
finish_control-once (done bytes) = search (keeps_rules, note_success-once)
finish_control-once (failed e) = search (keeps_rules, note_failure-once)

pub control_write-once :
    (value index : ℕ) (bytes : List ℕ) → Keeps IsNotifiedOnce (control_write value index bytes)
unfolding control_write
control_write-once value index bytes = search (keeps_rules, ioctl-once, finish_control-once)

pub control_read-once : (value index len : ℕ) → Keeps IsNotifiedOnce (control_read value index len)
unfolding control_read
control_read-once value index len = search (keeps_rules, ioctl-once, finish_control-once)

end_bulk-once : (total : ℕ) (buf : List ℕ) (e : Errno) → Keeps IsNotifiedOnce (end_bulk total buf e)
unfolding end_bulk
end_bulk-once total buf e = search (keeps_rules, note_failure-once)

-- Where the rest of a bulk read keeps it, so does a chunk's end.
end_chunk-once :
    (next : ℕ → List ℕ → M (List ℕ)) (total : ℕ) (buf : List ℕ) (chunk : ℕ) (r : Reply)
    → ((t : ℕ) (b : List ℕ) → Keeps IsNotifiedOnce (next t b))
    → Keeps IsNotifiedOnce (end_chunk next total buf chunk r)
unfolding end_chunk
end_chunk-once next total buf chunk (failed e) ih = end_bulk-once total buf e
end_chunk-once next total buf chunk (done bytes) ih = Keeps-if _ _ _ (Keeps-pure _) (ih _ _)

bulk_chunks-once :
    (fuel len timeout total : ℕ) (buf : List ℕ)
    → Keeps IsNotifiedOnce (bulk_chunks fuel len timeout total buf)
unfolding bulk_chunks
bulk_chunks-once zero len timeout total buf = Keeps-stuck
bulk_chunks-once (suc fuel) len timeout total buf =
    Keeps-if _ _ _
      (Keeps-bind _ _ (ioctl-once _) λ r.
        end_chunk-once (bulk_chunks fuel len timeout) total buf _ r
          (λ t b. bulk_chunks-once fuel len timeout t b))
      (Keeps-pure _)

pub bulk_read-once : (len timeout : ℕ) → Keeps IsNotifiedOnce (bulk_read len timeout)
unfolding bulk_read
bulk_read-once len timeout = bulk_chunks-once (len + 1) len timeout 0 []

-- Whatever the host answers, control transfers and bulk reads keep it that the hot-plug callback
-- was called at most once, and not at all while the device's health is DEV_HEALTH_OK.
pub transfers-IsNotifiedOnce :
    (value index len timeout : ℕ) (bytes : List ℕ) (host : Host) (d : Dev)
    → IsNotifiedOnce d
    → IsNotifiedOnce (control_write value index bytes host d).1
      × IsNotifiedOnce (control_read value index len host d).1
      × IsNotifiedOnce (bulk_read len timeout host d).1
transfers-IsNotifiedOnce value index len timeout bytes host d once = (
  (control_write-once value index bytes).at host d once,
  (control_read-once value index len).at host d once,
  (bulk_read-once len timeout).at host d once,
)
