-- ===== src/Rtl/Ppm.antt =====
-- The PPM correction that sdrgg_rtl.cpp and sdrgg_r820t.cpp write out: a signed 64-bit product,
-- divided with truncation towards zero, and cast to uint32_t. (The sum with the correction is an
-- `int32_t` in sdrgg_rtl.cpp; corrections are taken small enough for it.)
use libsdrgg.Prelude.{ℕ, suc, ◌+◌, ◌-◌, ◌*◌, ◌/◌, ◌%◌, ◌^◌, u32, leb, if◌then◌else◌}
use libsdrgg.Prelude.Int.{ℤ, pos, negsuc, is_zero}

abbrev million : ℕ
million = 1000000

unfoldable pub scale_ppm : ℕ → ℤ → ℕ
scale_ppm base (pos p) = u32 (base * (million + p) / million)
scale_ppm base (negsuc n) =
    if leb (suc n) million
    then u32 (base * (million - suc n) / million)
    else (2 ^ 32 - u32 (base * (suc n - million) / million)) % 2 ^ 32

-- `if( ppm != 0 ) base = …`
unfoldable pub correct_ppm : ℕ → ℤ → ℕ
unfolding scale_ppm
correct_ppm base ppm = if is_zero ppm then base else scale_ppm base ppm
