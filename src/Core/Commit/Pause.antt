-- ===== src/Core/Commit/Pause.antt =====
-- The pause of the bulk endpoint round a change of the tuner.
use libsdrgg.Prelude.{ℕ}
use libsdrgg.Prelude.Int.{ℤ}
use libsdrgg.Types.{Tuning}
use libsdrgg.Exec.{usleep}
use libsdrgg.Exec.Keeps.{Keeps, keeps_rules}
use libsdrgg.Exec.Always.{Always, always-ignore, always-bind}
use libsdrgg.Rtl.Frame.{block_write-frame}
use libsdrgg.Rtl.Nco.{start_bulk, stop_bulk}
use libsdrgg.Rtl.Tuner.Total.{start_bulk-Returns, stop_bulk-Returns}
use libsdrgg.Core.{pause_bulk, resume_bulk}
use libsdrgg.Core.Commit.Frame.{Steady, steady}

module _ (o : ℕ) (ppm : ℤ) (t : Tuning) where
  usleep-Always : (us : ℕ) → Always (Steady o ppm t) (usleep us) (λ _. Steady o ppm t)
  unfolding usleep
  usleep-Always us = record { yields = record { at = λ host d h. h } }

  start-Keeps : Keeps (Steady o ppm t) start_bulk
  unfolding start_bulk
  start-Keeps = search (keeps_rules, block_write-frame (steady o ppm t))

  stop-Keeps : Keeps (Steady o ppm t) stop_bulk
  unfolding stop_bulk
  stop-Keeps = block_write-frame (steady o ppm t) _ _ _ _

  pub pause-Always : Always (Steady o ppm t) pause_bulk (λ _. Steady o ppm t)
  unfolding pause_bulk
  pause-Always =
      always-bind (λ _. Steady o ppm t) (λ _. Steady o ppm t) _ _
        (always-ignore stop_bulk stop_bulk-Returns stop-Keeps) (λ _. usleep-Always 5000)

  pub resume-Always : Always (Steady o ppm t) resume_bulk (λ _. Steady o ppm t)
  unfolding resume_bulk
  resume-Always =
      always-bind (λ _. Steady o ppm t) (λ _. Steady o ppm t) _ _ (usleep-Always 5000)
        (λ _. always-ignore start_bulk start_bulk-Returns start-Keeps)
