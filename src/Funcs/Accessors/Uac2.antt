-- ===== src/Funcs/Accessors/Uac2.antt =====
-- The accessors of one attribute in include/usbg/function/uac2.h. A number is that of the enumeration.
use libusbgx.Base.{ℕ}
use libusbgx.Base.Int.{ℤ}
use libusbgx.Funcs.Accessors.{as_int, of_int}
use libusbgx.Funcs.Types.{f_uac2_get_attr_val, f_uac2_set_attr_val}
use libusbgx.Heap.{Ptr}
use libusbgx.Heap.Monad.{M}
use libusbgx.Os.{Os}

abbrev uac2_c_chmask : ℕ
uac2_c_chmask = 0

abbrev uac2_c_srate : ℕ
uac2_c_srate = 1

abbrev uac2_c_ssize : ℕ
uac2_c_ssize = 2

abbrev uac2_p_chmask : ℕ
uac2_p_chmask = 3

abbrev uac2_p_srate : ℕ
uac2_p_srate = 4

abbrev uac2_p_ssize : ℕ
uac2_p_ssize = 5

module _ ⦃os : Os⦄ where
  f_uac2_get_c_chmask : Ptr → M ℤ
  f_uac2_get_c_chmask f = as_int (f_uac2_get_attr_val f uac2_c_chmask)

  f_uac2_set_c_chmask : Ptr → ℤ → M (Unit {0})
  f_uac2_set_c_chmask f v = f_uac2_set_attr_val f uac2_c_chmask (of_int v)

  f_uac2_get_c_srate : Ptr → M ℤ
  f_uac2_get_c_srate f = as_int (f_uac2_get_attr_val f uac2_c_srate)

  f_uac2_set_c_srate : Ptr → ℤ → M (Unit {0})
  f_uac2_set_c_srate f v = f_uac2_set_attr_val f uac2_c_srate (of_int v)

  f_uac2_get_c_ssize : Ptr → M ℤ
  f_uac2_get_c_ssize f = as_int (f_uac2_get_attr_val f uac2_c_ssize)

  f_uac2_set_c_ssize : Ptr → ℤ → M (Unit {0})
  f_uac2_set_c_ssize f v = f_uac2_set_attr_val f uac2_c_ssize (of_int v)

  f_uac2_get_p_chmask : Ptr → M ℤ
  f_uac2_get_p_chmask f = as_int (f_uac2_get_attr_val f uac2_p_chmask)

  f_uac2_set_p_chmask : Ptr → ℤ → M (Unit {0})
  f_uac2_set_p_chmask f v = f_uac2_set_attr_val f uac2_p_chmask (of_int v)

  f_uac2_get_p_srate : Ptr → M ℤ
  f_uac2_get_p_srate f = as_int (f_uac2_get_attr_val f uac2_p_srate)

  f_uac2_set_p_srate : Ptr → ℤ → M (Unit {0})
  f_uac2_set_p_srate f v = f_uac2_set_attr_val f uac2_p_srate (of_int v)

  f_uac2_get_p_ssize : Ptr → M ℤ
  f_uac2_get_p_ssize f = as_int (f_uac2_get_attr_val f uac2_p_ssize)

  f_uac2_set_p_ssize : Ptr → ℤ → M (Unit {0})
  f_uac2_set_p_ssize f v = f_uac2_set_attr_val f uac2_p_ssize (of_int v)
