-- ===== src/Error/Laws.antt =====
-- The translation of errno values.
use libusbgx.Base.{◌≢◌, arith}
use libusbgx.Base.Int.{ℤ, pos, negsuc}
use libusbgx.Error.{translate_error, success}

-- `usbg_translate_error` translates no number to success.
translate_error-ne-success : (e : ℤ) → translate_error e ≢ success
unfolding translate_error
translate_error-ne-success (pos n) = ground arith
translate_error-ne-success (negsuc n) = ground arith
