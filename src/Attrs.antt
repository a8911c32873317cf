-- ===== src/Attrs.antt =====
-- usbg.c, the attributes of gadgets and configurations: files of numbers, read and written one by
-- one. A field of `w` bits takes the low bits of what is read.
pub mod ReadBack
use libusbgx.Base.{ℕ, none, some, ◌==◌, if◌then◌else◌}
use libusbgx.Base.Int.{ℤ, pos}
use libusbgx.CStr.{CString, c}
use libusbgx.Error.{invalid_param}
use libusbgx.Files.{read_hex, read_dec, write_hex, write_dec}
use libusbgx.Heap.{Ptr, null, Mem}
use libusbgx.Heap.Monad.{
  M, Run, returned, raised, fault, return, raise, io, load, gadget_at, config_at, ◌>>=◌, ◌>>◌,
}
use libusbgx.Names.{get_gadget_attr_str}
use libusbgx.Num.{to_unsigned}
use libusbgx.Os.{Os}

-- `struct usbg_gadget_attrs`
pub record GadgetAttrs : Type 0 where
  pub bcd_usb : ℕ
  pub b_device_class : ℕ
  pub b_device_sub_class : ℕ
  pub b_device_protocol : ℕ
  pub b_max_packet_size0 : ℕ
  pub id_vendor : ℕ
  pub id_product : ℕ
  pub bcd_device : ℕ

-- `struct usbg_config_attrs`
pub record ConfigAttrs : Type 0 where
  pub bm_attributes : ℕ
  pub b_max_power : ℕ

module _ ⦃os : Os⦄ where
  -- A read, and the conversion to the field.
  read_field : ℕ → CString → CString → CString → M ℕ
  read_field bits path name file = do
    buf ← io (read_hex path name file)
    return (to_unsigned bits buf)

  parse_gadget_attrs : CString → CString → M GadgetAttrs
  unfolding read_field
  parse_gadget_attrs path name = do
    usb ← read_field 16 path name (c "bcdUSB")
    class ← read_field 8 path name (c "bDeviceClass")
    sub_class ← read_field 8 path name (c "bDeviceSubClass")
    protocol ← read_field 8 path name (c "bDeviceProtocol")
    packet ← read_field 8 path name (c "bMaxPacketSize0")
    vendor ← read_field 16 path name (c "idVendor")
    product ← read_field 16 path name (c "idProduct")
    device ← read_field 16 path name (c "bcdDevice")
    return (record {
      bcd_usb = usb;
      b_device_class = class;
      b_device_sub_class = sub_class;
      b_device_protocol = protocol;
      b_max_packet_size0 = packet;
      id_vendor = vendor;
      id_product = product;
      bcd_device = device;
    })

  unfoldable pub get_gadget_attrs : Ptr → M GadgetAttrs
  unfolding parse_gadget_attrs
  get_gadget_attrs g =
      if g == null
      then raise invalid_param
      else do gad ← load gadget_at g; parse_gadget_attrs gad.path gad.name

  unfoldable pub set_gadget_attrs : Ptr → GadgetAttrs → M (Unit {0})
  set_gadget_attrs g a = if g == null then raise invalid_param else do
    gad ← load gadget_at g
    io (write_hex 4 gad.path gad.name (c "bcdUSB") a.bcd_usb)
    io (write_hex 2 gad.path gad.name (c "bDeviceClass") a.b_device_class)
    io (write_hex 2 gad.path gad.name (c "bDeviceSubClass") a.b_device_sub_class)
    io (write_hex 2 gad.path gad.name (c "bDeviceProtocol") a.b_device_protocol)
    io (write_hex 2 gad.path gad.name (c "bMaxPacketSize0") a.b_max_packet_size0)
    io (write_hex 4 gad.path gad.name (c "idVendor") a.id_vendor)
    io (write_hex 4 gad.path gad.name (c "idProduct") a.id_product)
    io (write_hex 4 gad.path gad.name (c "bcdDevice") a.bcd_device)

  -- `usbg_write_hex` of an `int`.
  unfoldable pub set_gadget_attr : Ptr → ℕ → ℤ → M (Unit {0})
  set_gadget_attr g attr val = if g == null then raise invalid_param else do
    gad ← load gadget_at g
    elim (get_gadget_attr_str attr) [
      | none ↦ raise invalid_param
      | some name ↦ io (write_hex 0 gad.path gad.name name (to_unsigned 32 val))
    ]

  -- The code does not look at what `usbg_read_hex` returns: after a failed read the result is the
  -- value that `ret` had before, USBG_ERROR_INVALID_PARAM.
  read_or_invalid : Run (Mem os) ℤ → Run (Mem os) ℤ
  read_or_invalid (returned v m) = returned v m
  read_or_invalid (raised e m) = raised invalid_param m
  read_or_invalid fault = fault

  unfoldable pub get_gadget_attr : Ptr → ℕ → M ℤ
  unfolding read_or_invalid
  get_gadget_attr g attr = if g == null then raise invalid_param else do
    gad ← load gadget_at g
    elim (get_gadget_attr_str attr) [
      | none ↦ raise invalid_param
      | some name ↦ λ m. read_or_invalid (io (read_hex gad.path gad.name name) m)
    ]

  -- The setters of one attribute of a gadget.
  abbrev set_one : ℕ → CString → Ptr → ℕ → M (Unit {0})
  set_one width file g value =
      if g == null
      then raise invalid_param
      else do gad ← load gadget_at g; io (write_hex width gad.path gad.name file value)

  unfoldable pub set_gadget_vendor_id : Ptr → ℕ → M (Unit {0})
  set_gadget_vendor_id = set_one 4 (c "idVendor")

  unfoldable pub set_gadget_product_id : Ptr → ℕ → M (Unit {0})
  set_gadget_product_id = set_one 4 (c "idProduct")

  unfoldable pub set_gadget_device_class : Ptr → ℕ → M (Unit {0})
  set_gadget_device_class = set_one 2 (c "bDeviceClass")

  unfoldable pub set_gadget_device_protocol : Ptr → ℕ → M (Unit {0})
  set_gadget_device_protocol = set_one 2 (c "bDeviceProtocol")

  unfoldable pub set_gadget_device_subclass : Ptr → ℕ → M (Unit {0})
  set_gadget_device_subclass = set_one 2 (c "bDeviceSubClass")

  unfoldable pub set_gadget_device_max_packet : Ptr → ℕ → M (Unit {0})
  set_gadget_device_max_packet = set_one 2 (c "bMaxPacketSize0")

  unfoldable pub set_gadget_device_bcd_device : Ptr → ℕ → M (Unit {0})
  set_gadget_device_bcd_device = set_one 4 (c "bcdDevice")

  unfoldable pub set_gadget_device_bcd_usb : Ptr → ℕ → M (Unit {0})
  set_gadget_device_bcd_usb = set_one 4 (c "bcdUSB")

  parse_config_attrs : CString → CString → M ConfigAttrs
  parse_config_attrs path name = do
    power ← io (read_dec path name (c "MaxPower"))
    attributes ← io (read_hex path name (c "bmAttributes"))
    return (record { bm_attributes = to_unsigned 8 attributes; b_max_power = to_unsigned 8 power })

  unfoldable pub get_config_attrs : Ptr → M ConfigAttrs
  unfolding parse_config_attrs
  get_config_attrs p =
      if p == null
      then raise invalid_param
      else do conf ← load config_at p; parse_config_attrs conf.path conf.name

  unfoldable pub set_config_attrs : Ptr → ConfigAttrs → M (Unit {0})
  set_config_attrs p a = if p == null then raise invalid_param else do
    conf ← load config_at p
    io (write_dec conf.path conf.name (c "MaxPower") (pos a.b_max_power))
    io (write_hex 2 conf.path conf.name (c "bmAttributes") a.bm_attributes)

  unfoldable pub set_config_max_power : Ptr → ℤ → M (Unit {0})
  set_config_max_power p value =
      if p == null
      then raise invalid_param
      else do conf ← load config_at p; io (write_dec conf.path conf.name (c "MaxPower") value)

  unfoldable pub set_config_bm_attrs : Ptr → ℤ → M (Unit {0})
  set_config_bm_attrs p value = if p == null then raise invalid_param else do
    conf ← load config_at p
    io (write_hex 2 conf.path conf.name (c "bmAttributes") (to_unsigned 32 value))
