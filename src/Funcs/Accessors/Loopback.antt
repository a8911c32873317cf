-- ===== src/Funcs/Accessors/Loopback.antt =====
-- The accessors of one attribute in include/usbg/function/loopback.h. A number is that of the enumeration.
use libusbgx.Base.{ℕ}
use libusbgx.Base.Int.{ℤ}
use libusbgx.Funcs.Accessors.{as_int, of_int}
use libusbgx.Funcs.Types.{f_loopback_get_attr_val, f_loopback_set_attr_val}
use libusbgx.Heap.{Ptr}
use libusbgx.Heap.Monad.{M}
use libusbgx.Os.{Os}

abbrev loopback_buflen : ℕ
loopback_buflen = 0

abbrev loopback_qlen : ℕ
loopback_qlen = 1

module _ ⦃os : Os⦄ where
  f_loopback_get_buflen : Ptr → M ℤ
  f_loopback_get_buflen f = as_int (f_loopback_get_attr_val f loopback_buflen)

  f_loopback_set_buflen : Ptr → ℤ → M (Unit {0})
  f_loopback_set_buflen f v = f_loopback_set_attr_val f loopback_buflen (of_int v)

  f_loopback_get_qlen : Ptr → M ℤ
  f_loopback_get_qlen f = as_int (f_loopback_get_attr_val f loopback_qlen)

  f_loopback_set_qlen : Ptr → ℤ → M (Unit {0})
  f_loopback_set_qlen f v = f_loopback_set_attr_val f loopback_qlen (of_int v)
