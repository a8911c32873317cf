-- ===== src/Names.antt =====
-- The tables of names at the top of usbg.c and their lookups. An enumerator of usbg.h is the index
-- of its entry, a number; the name of a function type is that of its `struct usbg_function_type`
-- in src/function.
pub mod Laws
use libusbgx.Base.{ℕ, zero, suc, ◌+◌, List, [], ◌∷◌, Option, none, some, get_elem?, if◌then◌else◌}
use libusbgx.CStr.{CString, c, str_eq}
use libusbgx.Error.{UsbgError, invalid_param, not_found}

-- An index, or the error that the negative return value stands for.
pub data Found : Type 0 where
  found : ℕ → Found
  failed : UsbgError → Found

abbrev pub f_mass_storage : ℕ
f_mass_storage = 10

-- `function_types[i]->name`, in the order of the enum `usbg_function_type`.
unfoldable pub function_type_names : List CString
function_type_names =
    c "gser"
    ∷ c "acm"
    ∷ c "obex"
    ∷ c "ecm"
    ∷ c "geth"
    ∷ c "ncm"
    ∷ c "eem"
    ∷ c "rndis"
    ∷ c "phonet"
    ∷ c "ffs"
    ∷ c "mass_storage"
    ∷ c "midi"
    ∷ c "Loopback"
    ∷ c "hid"
    ∷ c "uac2"
    ∷ c "uvc"
    ∷ c "printer"
    ∷ c "usb9pfs"
    ∷ []

unfoldable pub gadget_attr_names : List CString
gadget_attr_names =
    c "bcdUSB"
    ∷ c "bDeviceClass"
    ∷ c "bDeviceSubClass"
    ∷ c "bDeviceProtocol"
    ∷ c "bMaxPacketSize0"
    ∷ c "idVendor"
    ∷ c "idProduct"
    ∷ c "bcdDevice"
    ∷ []

unfoldable pub gadget_str_names : List CString
gadget_str_names = c "manufacturer" ∷ c "product" ∷ c "serialnumber" ∷ []

unfoldable pub gadget_os_desc_names : List CString
gadget_os_desc_names = c "use" ∷ c "b_vendor_code" ∷ c "qw_sign" ∷ []

-- The do-while loop of the lookups, at the index `i`, with the entries from there on.
abbrev lookup_loop : ℕ → List CString → CString → Found
lookup_loop i [] name = failed not_found
lookup_loop i (n ∷ rest) name =
    let later = lookup_loop (suc i) rest name in if str_eq name n then found i else later

-- A NULL name is `none`.
abbrev lookup : List CString → Option CString → Found
lookup names none = failed invalid_param
lookup names (some name) = lookup_loop 0 names name

unfoldable pub lookup_function_type : Option CString → Found
unfolding function_type_names
lookup_function_type = lookup function_type_names

unfoldable pub lookup_gadget_attr : Option CString → Found
unfolding gadget_attr_names
lookup_gadget_attr = lookup gadget_attr_names

unfoldable pub lookup_gadget_str : Option CString → Found
unfolding gadget_str_names
lookup_gadget_str = lookup gadget_str_names

-- `none` is the NULL for an enumerator out of range.
unfoldable pub get_function_type_str : ℕ → Option CString
unfolding function_type_names
get_function_type_str type = get_elem? function_type_names type

unfoldable pub get_gadget_attr_str : ℕ → Option CString
unfolding gadget_attr_names
get_gadget_attr_str attr = get_elem? gadget_attr_names attr

unfoldable pub get_gadget_str_name : ℕ → Option CString
unfolding gadget_str_names
get_gadget_str_name str = get_elem? gadget_str_names str

unfoldable pub get_gadget_os_desc_name : ℕ → Option CString
unfolding gadget_os_desc_names
get_gadget_os_desc_name str = get_elem? gadget_os_desc_names str
