-- ===== src/Core/Select.antt =====
-- `open` of sdrgg_core.cpp, which opens a device by its index in the enumeration.
pub mod Listed
use libsdrgg.Prelude.{
  ℕ, zero, suc, List, [], ◌∷◌, Bool, true, false, Option, none, some, if◌then◌else◌,
}
use libsdrgg.Prelude.Int.{ℤ, pos, negsuc}
use libsdrgg.Exec.{M, pure}
use libsdrgg.Types.{DevInfo}
use libsdrgg.Usb.Text.{Text}
use libsdrgg.Usb.Sysfs.{Sysfs, enumerate}
use libsdrgg.Core.Attach.{Context, open_path}

-- The entry of this index, if there are more than that.
abbrev pub nth : List DevInfo → ℕ → Option DevInfo
nth [] n = none
nth (info ∷ infos) zero = some info
nth (info ∷ infos) (suc n) = nth infos n

abbrev pub at_index : List DevInfo → ℤ → Option DevInfo
at_index infos (pos n) = nth infos n
at_index infos (negsuc n) = none

-- `open_path` at the entry's path; `opens` says which paths the system call opens.
abbrev pub open_entry : (Text → Bool) → Bool → ℕ → Context → Option DevInfo → M (Option ℕ × Context)
open_entry opens memory dev ctx none = pure (none, ctx)
open_entry opens memory dev ctx (some info) =
    if opens info.path then open_path memory info.path dev ctx else pure (none, ctx)

unfoldable pub open_index : Sysfs → (Text → Bool) → Bool → ℕ → Context → ℤ → M (Option ℕ × Context)
open_index sysfs opens memory dev ctx index =
    open_entry opens memory dev ctx (at_index (enumerate sysfs 8) index)
