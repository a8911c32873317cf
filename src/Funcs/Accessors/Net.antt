-- ===== src/Funcs/Accessors/Net.antt =====
-- The accessors of one attribute in include/usbg/function/net.h. A number is that of the enumeration.
use libusbgx.Base.{List, Option, ℕ}
use libusbgx.Base.Int.{ℤ}
use libusbgx.CStr.{CString}
use libusbgx.Funcs.Accessors.{as_int, as_text, as_unsigned, of_addr, of_unsigned}
use libusbgx.Funcs.Types.{f_net_get_attr_val, f_net_set_attr_val}
use libusbgx.Heap.{Ptr}
use libusbgx.Heap.Monad.{M}
use libusbgx.Os.{Os}

abbrev net_dev_addr : ℕ
net_dev_addr = 0

abbrev net_host_addr : ℕ
net_host_addr = 1

abbrev net_ifname : ℕ
net_ifname = 2

abbrev net_qmult : ℕ
net_qmult = 3

abbrev net_class : ℕ
net_class = 4

abbrev net_subclass : ℕ
net_subclass = 5

abbrev net_protocol : ℕ
net_protocol = 6

module _ ⦃os : Os⦄ where
  f_net_set_dev_addr : Ptr → List ℕ → M (Unit {0})
  f_net_set_dev_addr f v = f_net_set_attr_val f net_dev_addr (of_addr v)

  f_net_set_host_addr : Ptr → List ℕ → M (Unit {0})
  f_net_set_host_addr f v = f_net_set_attr_val f net_host_addr (of_addr v)

  f_net_get_ifname : Ptr → M (Option CString)
  f_net_get_ifname f = as_text (f_net_get_attr_val f net_ifname)

  f_net_get_qmult : Ptr → M ℕ
  f_net_get_qmult f = as_unsigned (f_net_get_attr_val f net_qmult)

  f_net_set_qmult : Ptr → ℕ → M (Unit {0})
  f_net_set_qmult f v = f_net_set_attr_val f net_qmult (of_unsigned v)

  f_net_get_class : Ptr → M ℕ
  f_net_get_class f = as_unsigned (f_net_get_attr_val f net_class)

  f_net_set_class : Ptr → ℕ → M (Unit {0})
  f_net_set_class f v = f_net_set_attr_val f net_class (of_unsigned v)

  f_net_get_subclass : Ptr → M ℤ
  f_net_get_subclass f = as_int (f_net_get_attr_val f net_subclass)

  f_net_set_subclass : Ptr → ℕ → M (Unit {0})
  f_net_set_subclass f v = f_net_set_attr_val f net_subclass (of_unsigned v)

  f_net_get_protocol : Ptr → M ℤ
  f_net_get_protocol f = as_int (f_net_get_attr_val f net_protocol)

  f_net_set_protocol : Ptr → ℕ → M (Unit {0})
  f_net_set_protocol f v = f_net_set_attr_val f net_protocol (of_unsigned v)
