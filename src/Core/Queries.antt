-- ===== src/Core/Queries.antt =====
-- sdrgg_core.cpp, the synchronous read and the queries.
use libsdrgg.Prelude.{ℕ, List, Bool, true, false, if◌then◌else◌}
use libsdrgg.Types.{TunerType, err_busy, Health, health_ok, DevInfo}
use libsdrgg.Exec.{M, fail, gets, ◌>>=◌, ◌>>◌, attempt, ignore, return_code}
use libsdrgg.Usb.{bulk_read}
use libsdrgg.Rtl.Nco.{start_bulk, stop_bulk}

-- `read_sync`: the bytes, whose number it returns.
unfoldable pub read_sync : ℕ → ℕ → M (List ℕ)
read_sync max_bytes timeout_ms = do
  streaming ← gets (λ d. d.stream_active)
  if streaming then fail err_busy else (do
    start_bulk
    rc ← attempt (bulk_read max_bytes timeout_ms)
    ignore stop_bulk
    return_code rc)

unfoldable pub get_tuner_type : M TunerType
get_tuner_type = gets (λ d. d.tuner_class)

unfoldable pub get_devinfo : M DevInfo
get_devinfo = gets (λ d. d.info)

unfoldable pub get_xtal_freq : M ℕ
get_xtal_freq = gets (λ d. d.oscillator_hz)

abbrev pub is_health_ok : Health → Bool
is_health_ok health_ok = true
is_health_ok _ = false

unfoldable pub is_alive : M Bool
is_alive = gets (λ d. is_health_ok d.health)
