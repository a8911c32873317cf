-- ===== src/Funcs/Accessors/Hid.antt =====
-- The accessors of one attribute in include/usbg/function/hid.h. A number is that of the enumeration.
use libusbgx.Base.{List, length, take, ℕ}
use libusbgx.Funcs.Accessors.{as_dev, as_report, as_unsigned, of_report, of_unsigned}
use libusbgx.Funcs.Types.{f_hid_get_attr_val, f_hid_set_attr_val}
use libusbgx.Heap.{Ptr}
use libusbgx.Heap.Monad.{M, return, ◌>>=◌}
use libusbgx.Os.{Os}

abbrev hid_dev : ℕ
hid_dev = 0

abbrev hid_protocol : ℕ
hid_protocol = 1

abbrev hid_report_desc : ℕ
hid_report_desc = 2

abbrev hid_report_length : ℕ
hid_report_length = 3

abbrev hid_subclass : ℕ
hid_subclass = 4

module _ ⦃os : Os⦄ where
  f_hid_get_dev : Ptr → M (ℕ × ℕ)
  f_hid_get_dev f = as_dev (f_hid_get_attr_val f hid_dev)

  f_hid_get_protocol : Ptr → M ℕ
  f_hid_get_protocol f = as_unsigned (f_hid_get_attr_val f hid_protocol)

  f_hid_set_protocol : Ptr → ℕ → M (Unit {0})
  f_hid_set_protocol f v = f_hid_set_attr_val f hid_protocol (of_unsigned v)

  f_hid_get_report_desc : Ptr → M (List ℕ)
  f_hid_get_report_desc f = as_report (f_hid_get_attr_val f hid_report_desc)

  f_hid_set_report_desc : Ptr → List ℕ → M (Unit {0})
  f_hid_set_report_desc f v = f_hid_set_attr_val f hid_report_desc (of_report v)

  f_hid_get_report_length : Ptr → M ℕ
  f_hid_get_report_length f = as_unsigned (f_hid_get_attr_val f hid_report_length)

  f_hid_set_report_length : Ptr → ℕ → M (Unit {0})
  f_hid_set_report_length f v = f_hid_set_attr_val f hid_report_length (of_unsigned v)

  f_hid_get_subclass : Ptr → M ℕ
  f_hid_get_subclass f = as_unsigned (f_hid_get_attr_val f hid_subclass)

  f_hid_set_subclass : Ptr → ℕ → M (Unit {0})
  f_hid_set_subclass f v = f_hid_set_attr_val f hid_subclass (of_unsigned v)

  -- The bytes and their number.
  f_hid_get_report_desc_raw : Ptr → M (List ℕ × ℕ)
  f_hid_get_report_desc_raw f = do
    desc ← as_report (f_hid_get_attr_val f hid_report_desc)
    return (desc, length desc)

  -- `desc` has at least `len` bytes.
  f_hid_set_report_desc_raw : Ptr → List ℕ → ℕ → M (Unit {0})
  f_hid_set_report_desc_raw f desc len =
      f_hid_set_attr_val f hid_report_desc (of_report (take len desc))
