-- ===== src/Attrs/ReadBack.antt =====
-- Reading the attributes of a gadget back from files that hold what was written to them.
use mathlib.Core.List.{append_assoc}
use libusbgx.Base.{◌≡◌, refl, ℕ, ◌<◌, ◌^◌, ◌++◌, [], ◌∷◌, arith, ◌==◌, false}
use libusbgx.Attrs.{GadgetAttrs, get_gadget_attrs, read_field, parse_gadget_attrs}
use libusbgx.CStr.{CString, c}
use libusbgx.Files.{read_buf, read_int}
use libusbgx.Heap.{Ptr, null, Heap, Gadget}
use libusbgx.Heap.Monad.{returned, gadget_at}
use libusbgx.Heap.Post.{Live, load-returned}
use libusbgx.Num.{print_hex}
use libusbgx.Num.Hex.{to_unsigned-strtol-print_hex}
use libusbgx.Os.{Os}
use libusbgx.Os.Io.{ok}

module _ ⦃os : Os⦄ (path name : CString) (w : os.World) where
  -- The file can be read, as often as one likes, and holds `value` as "0x%x", with zeros up to a
  -- width in front, and a newline.
  pub record IsStored (file : CString) (bits value : ℕ) : Type 0 where
    pub width : ℕ
    pub fits_field : value < 2 ^ bits
    pub content :
        read_buf path name file w ≡ (ok ((c "0x" ++ print_hex width value) ++ b'\n' ∷ []), w)

  pub record AreStored (a : GadgetAttrs) : Type 0 where
    pub usb : IsStored (c "bcdUSB") 16 a.bcd_usb
    pub class : IsStored (c "bDeviceClass") 8 a.b_device_class
    pub sub_class : IsStored (c "bDeviceSubClass") 8 a.b_device_sub_class
    pub protocol : IsStored (c "bDeviceProtocol") 8 a.b_device_protocol
    pub packet : IsStored (c "bMaxPacketSize0") 8 a.b_max_packet_size0
    pub vendor : IsStored (c "idVendor") 16 a.id_vendor
    pub product : IsStored (c "idProduct") 16 a.id_product
    pub device : IsStored (c "bcdDevice") 16 a.bcd_device

  read_field-IsStored :
      (h : Heap) (file : CString) (bits value : ℕ)
      → value < 2 ^ 31
      → IsStored file bits value
      → read_field bits path name file (record { world = w; heap = h })
        ≡ returned value (record { world = w; heap = h })
  unfolding read_field read_int
  read_field-IsStored h file bits value small stored =
      let text : CString = c "0x" ++ print_hex stored.width value in
      let same : (text ++ b'\n' ∷ []) ++ os.stack w ≡ text ++ b'\n' ∷ os.stack w =
        append_assoc text (b'\n' ∷ []) (os.stack w) in
      let number =
        to_unsigned-strtol-print_hex bits stored.width value (os.stack w) small stored.fits_field in
      rw (stored.content, same, number) refl

-- `usbg_get_gadget_attrs` of a live gadget, whose eight files can be read and hold the attributes
-- in hexadecimal as `usbg_set_gadget_attrs` writes them, with leading zeros up to any width,
-- returns these attributes and changes nothing, provided that each fits its field of 16 or 8 bits.
pub get_gadget_attrs-AreStored :
    ⦃os : Os⦄ (h : Heap) (w : os.World) {g : Ptr} {gad : Gadget} (a : GadgetAttrs)
    → Live gadget_at h g gad
    → AreStored gad.path gad.name w a
    → get_gadget_attrs g (record { world = w; heap = h })
      ≡ returned a (record { world = w; heap = h })
unfolding get_gadget_attrs parse_gadget_attrs
get_gadget_attrs-AreStored ⦃os⦄ h w {g} {gad} a gadget stored =
    let read =
      λ (file : CString) (bits value : ℕ) (small : value < 2 ^ 31)
          (s : IsStored gad.path gad.name w file bits value).
        read_field-IsStored gad.path gad.name w h file bits value small s in
    let ne : (g == null) ≡ false = ground (arith, gadget.ne_null) in
    rw
      (
        ne,
        load-returned {m = record { world = w; heap = h }} gadget,
        read (c "bcdUSB") 16 a.bcd_usb (omega (arith, stored.usb.fits_field)) stored.usb,
        read (c "bDeviceClass") 8 a.b_device_class (omega (arith, stored.class.fits_field))
            stored.class,
        read (c "bDeviceSubClass") 8 a.b_device_sub_class
            (omega (arith, stored.sub_class.fits_field)) stored.sub_class,
        read (c "bDeviceProtocol") 8 a.b_device_protocol (omega (arith, stored.protocol.fits_field))
            stored.protocol,
        read (c "bMaxPacketSize0") 8 a.b_max_packet_size0 (omega (arith, stored.packet.fits_field))
            stored.packet,
        read (c "idVendor") 16 a.id_vendor (omega (arith, stored.vendor.fits_field)) stored.vendor,
        read (c "idProduct") 16 a.id_product (omega (arith, stored.product.fits_field))
            stored.product,
        read (c "bcdDevice") 16 a.bcd_device (omega (arith, stored.device.fits_field))
            stored.device,
      )
      refl
