-- ===== src/Tests/Attributes.antt =====
-- The attributes of a gadget read from files.
use libusbgx.Base.{◌≡◌, refl, [], ◌∷◌, ◌++◌, arith, true}
use libusbgx.Attrs.{GadgetAttrs, get_gadget_attrs}
use libusbgx.Attrs.ReadBack.{AreStored, get_gadget_attrs-AreStored}
use libusbgx.CStr.{CString, c, strcmp}
use libusbgx.Files.{read_buf}
use libusbgx.Heap.Monad.{returned}
use libusbgx.Num.{print_hex}
use libusbgx.Tests.Configfs.{configfs, Disk, Node, file, norm, find}
use libusbgx.Tests.Structures.{heap, gadget-Live}

abbrev attrs : GadgetAttrs
attrs = record {
  bcd_usb = 0x200;
  b_device_class = 0;
  b_device_sub_class = 1;
  b_device_protocol = 0xff;
  b_max_packet_size0 = 0x40;
  id_vendor = 0x1d6b;
  id_product = 0xffff;
  bcd_device = 1;
}

abbrev line : CString → Node
line s = file (s ++ b'\n' ∷ [])

abbrev files : Disk
files = record {
  nodes =
      (c "/u/g/bcdUSB", line (c "0x0200"))
      ∷ (c "/u/g/bDeviceClass", line (c "0x00"))
      ∷ (c "/u/g/bDeviceSubClass", line (c "0x01"))
      ∷ (c "/u/g/bDeviceProtocol", line (c "0xff"))
      ∷ (c "/u/g/bMaxPacketSize0", line (c "0x40"))
      ∷ (c "/u/g/idVendor", line (c "0x1d6b"))
      ∷ (c "/u/g/idProduct", line (c "0xffff"))
      ∷ (c "/u/g/bcdDevice", line (c "0x0001"))
      ∷ [];
  memory = true;
}

attrs-AreStored : AreStored (c "/u") (c "g") files attrs
unfolding read_buf norm find strcmp print_hex
attrs-AreStored = record {
  usb = record { width = 4; fits_field = omega arith; content = refl };
  class = record { width = 2; fits_field = omega arith; content = refl };
  sub_class = record { width = 2; fits_field = omega arith; content = refl };
  protocol = record { width = 2; fits_field = omega arith; content = refl };
  packet = record { width = 2; fits_field = omega arith; content = refl };
  vendor = record { width = 4; fits_field = omega arith; content = refl };
  product = record { width = 4; fits_field = omega arith; content = refl };
  device = record { width = 4; fits_field = omega arith; content = refl };
}

get_gadget_attrs-AreStored_example :
    get_gadget_attrs 2 (record { world = files; heap = heap })
    ≡ returned attrs (record { world = files; heap = heap })
get_gadget_attrs-AreStored_example =
    get_gadget_attrs-AreStored heap files attrs gadget-Live attrs-AreStored
