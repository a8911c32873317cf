-- ===== src/Funcs/Accessors/Luns.antt =====
-- The accessors of one attribute in include/usbg/function/ms.h. A number is that of the enumeration.
use libusbgx.Base.{Bool, Option, ℕ}
use libusbgx.Base.Int.{ℤ}
use libusbgx.CStr.{CString}
use libusbgx.Funcs.Accessors.{as_bool, as_text, of_bool, of_text}
use libusbgx.Funcs.Luns.{get_lun_attr_val, set_lun_attr_val}
use libusbgx.Heap.{Ptr}
use libusbgx.Heap.Monad.{M}
use libusbgx.Os.{Os}

abbrev ms_lun_cdrom : ℕ
ms_lun_cdrom = 0

abbrev ms_lun_ro : ℕ
ms_lun_ro = 1

abbrev ms_lun_nofua : ℕ
ms_lun_nofua = 2

abbrev ms_lun_removable : ℕ
ms_lun_removable = 3

abbrev ms_lun_file : ℕ
ms_lun_file = 4

abbrev ms_lun_inquiry_string : ℕ
ms_lun_inquiry_string = 5

module _ ⦃os : Os⦄ where
  f_ms_get_lun_cdrom : Ptr → ℤ → M Bool
  f_ms_get_lun_cdrom mf lun_id = as_bool (get_lun_attr_val mf lun_id ms_lun_cdrom)

  f_ms_set_lun_cdrom : Ptr → ℤ → Bool → M (Unit {0})
  f_ms_set_lun_cdrom mf lun_id v = set_lun_attr_val mf lun_id ms_lun_cdrom (of_bool v)

  f_ms_get_lun_ro : Ptr → ℤ → M Bool
  f_ms_get_lun_ro mf lun_id = as_bool (get_lun_attr_val mf lun_id ms_lun_ro)

  f_ms_set_lun_ro : Ptr → ℤ → Bool → M (Unit {0})
  f_ms_set_lun_ro mf lun_id v = set_lun_attr_val mf lun_id ms_lun_ro (of_bool v)

  f_ms_get_lun_nofua : Ptr → ℤ → M Bool
  f_ms_get_lun_nofua mf lun_id = as_bool (get_lun_attr_val mf lun_id ms_lun_nofua)

  f_ms_set_lun_nofua : Ptr → ℤ → Bool → M (Unit {0})
  f_ms_set_lun_nofua mf lun_id v = set_lun_attr_val mf lun_id ms_lun_nofua (of_bool v)

  f_ms_get_lun_removable : Ptr → ℤ → M Bool
  f_ms_get_lun_removable mf lun_id = as_bool (get_lun_attr_val mf lun_id ms_lun_removable)

  f_ms_set_lun_removable : Ptr → ℤ → Bool → M (Unit {0})
  f_ms_set_lun_removable mf lun_id v = set_lun_attr_val mf lun_id ms_lun_removable (of_bool v)

  f_ms_get_lun_file : Ptr → ℤ → M (Option CString)
  f_ms_get_lun_file mf lun_id = as_text (get_lun_attr_val mf lun_id ms_lun_file)

  f_ms_set_lun_file : Ptr → ℤ → Option CString → M (Unit {0})
  f_ms_set_lun_file mf lun_id v = set_lun_attr_val mf lun_id ms_lun_file (of_text v)

  f_ms_get_lun_inquiry_string : Ptr → ℤ → M (Option CString)
  f_ms_get_lun_inquiry_string mf lun_id = as_text (get_lun_attr_val mf lun_id ms_lun_inquiry_string)

  f_ms_set_lun_inquiry_string : Ptr → ℤ → Option CString → M (Unit {0})
  f_ms_set_lun_inquiry_string mf lun_id v =
      set_lun_attr_val mf lun_id ms_lun_inquiry_string (of_text v)
