-- ===== src/Core/Select/Listed.antt =====
-- What is opened by index.
use libsdrgg.Prelude.{ℕ, ◌≡◌, ◌⊎◌, List, Bool, true, false, Option, none, some}
use libsdrgg.Prelude.Int.{ℤ}
use libsdrgg.Types.{DevInfo, Result, ok, Dev}
use libsdrgg.Exec.Yields.{OrStop, Nowhere}
use libsdrgg.Usb.Text.{Text}
use libsdrgg.Usb.Sysfs.{Sysfs}
use libsdrgg.Usb.Sysfs.Listed.{IsListed}
use libsdrgg.Core.Attach.{Context}
use libsdrgg.Core.Attach.Released.{closings}
use libsdrgg.Core.Attach.Named.{IsNamed}
use libsdrgg.Core.Attach.Opened.{IsOpened}
use libsdrgg.Core.Select.{at_index}

abbrev pub Finds : List DevInfo → ℤ → DevInfo → Type 0
Finds infos index info = (at_index infos index ≡ some info) × IsListed info

-- An entry of the enumeration that cannot be opened, or no entry: nothing was done.
abbrev pub IsRefused : (Text → Bool) → List DevInfo → ℤ → Type 0
IsRefused opens infos index =
    (at_index infos index ≡ none)
    ⊎ ((info : DevInfo) × (at_index infos index ≡ some info) × (opens info.path ≡ false))

-- An entry that was opened, or whose opening was undone: the device records the entry's path, bus and
-- address, unless there was no memory for it.
abbrev pub IsSelected :
    (Text → Bool)
    → Bool
    → List DevInfo
    → ℕ
    → Context
    → ℤ
    → Dev
    → Result (Option ℕ × Context)
    → Dev
    → Type 0
IsSelected opens memory infos dev ctx index d r d' =
    (IsRefused opens infos index × (r ≡ ok (none, ctx)) × (d' ≡ d))
    ⊎ ((info : DevInfo) × Finds infos index info
        × (opens info.path ≡ true)
        × OrStop (IsOpened (closings d.trace) dev ctx) Nowhere r d'
        × ((memory ≡ false) ⊎ IsNamed info d'.info))
