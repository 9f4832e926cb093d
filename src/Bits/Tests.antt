-- ===== src/Bits/Tests.antt =====
-- The mask functions of cxb/cxb.h at concrete words.
use cxb.Prelude.{◌≡◌, refl}
use cxb.Bits.{pow2mod}

masked : pow2mod 77 64 ≡ 13
unfolding pow2mod
masked = refl
