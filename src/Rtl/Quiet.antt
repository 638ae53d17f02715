-- ===== src/Rtl/Quiet.antt =====
-- What holds of the trace and is kept by every control transfer, sleep and call of the hot-plug
-- callback, the transport keeps.
use libsdrgg.Prelude.{ℕ, List, ◌∷◌, true, ◌≡◌, by_branch}
use libsdrgg.Types.{
  Health, health_ok, health_usb_errors, health_disconnected, health_dead, Errno, Request, Reply,
  Event, io, slept, notified_disconnect, Dev,
}
use libsdrgg.Exec.{modify, ioctl, usleep}
use libsdrgg.Exec.Keeps.{Keeps, Keeps-modify}
use libsdrgg.Usb.{is_removal, mark_disconnected, note_failure, note_success}
use libsdrgg.Rtl.Frame.{is_transfer, IsFrame}

abbrev pub OnTrace : (List Event → Type 0) → Dev → Type 0
OnTrace T d = T d.trace

pub record IsQuiet (T : List Event → Type 0) : Type 0 where
  pub on_transfer :
      (req : Request) (reply : Reply) (t : List Event)
      → is_transfer req ≡ true
      → T t
      → T (io req reply ∷ t)
  pub on_slept : (us : ℕ) (t : List Event) → T t → T (slept us ∷ t)
  pub on_notified : (t : List Event) → T t → T (notified_disconnect ∷ t)

module _ {T : List Event → Type 0} (quiet : IsQuiet T) where
  mark-quiet : (h : Health) (d : Dev) → T d.trace → T (mark_disconnected h d).trace
  mark-quiet health_ok d c =
      by_branch T d.has_hotplug_cb _ _ (λ e. quiet.on_notified d.trace c) (λ e. c)
  mark-quiet health_usb_errors d c = c
  mark-quiet health_disconnected d c = c
  mark-quiet health_dead d c = c

  failure-quiet : (e : Errno) → Keeps (OnTrace T) (modify (note_failure e))
  unfolding note_failure
  failure-quiet e =
      Keeps-modify (note_failure e)
        λ d c. by_branch (OnTrace T) (is_removal e) _ _ (λ _. mark-quiet d.health _ c) (λ _. c)

  pub frame : IsFrame (OnTrace T)
  unfolding ioctl usleep note_success
  frame = record {
    on_ioctl = λ req transfer. record {
      at = λ host d c. quiet.on_transfer req (host.ioctl d.trace req) d.trace transfer c;
    };
    on_sleep = λ us. record { at = λ host d c. quiet.on_slept us d.trace c };
    on_failure = failure-quiet;
    on_success = Keeps-modify _ (λ d c. c);
  }
