-- ===== src/Funcs/Tables.antt =====
-- The attributes of the types of functions that have a table: midi.c, loopback.c, hid.c, ether.c
-- and uac2.c. An enumerator of the headers is the index of its entry.
pub mod ReadBack
pub mod Frame
use libusbgx.Base.{
  ℕ, Bool, true, false, not, ◌&&◌, ◌||◌, List, [], ◌∷◌, Option, none, some, ◌==◌, if◌then◌else◌,
}
use libusbgx.CStr.{CString, c}
use libusbgx.Error.{invalid_param}
use libusbgx.Funcs.Attrs.{Attr, Fields, Union, Value, get_fields, set_fields, get_field, set_field}
use libusbgx.Funcs.Values.{Kind}
use libusbgx.Heap.{Ptr, null}
use libusbgx.Heap.Monad.{M, return, raise, load, function_at, ◌>>=◌}
use libusbgx.Os.{Os}

-- The macros MIDI_DEC_ATTR, UAC2_BOOL_ATTR, MIDI_STRING_ATTR and NET_ETHER_ADDR_ATTR and their
-- like in the other files.
abbrev pub dec_attr : CString → Attr
dec_attr name = record { name = name; ro = false; kind = Kind.dec }

abbrev pub bool_attr : CString → Attr
bool_attr name = record { name = name; ro = false; kind = Kind.boolean }

abbrev pub string_attr : CString → Attr
string_attr name = record { name = name; ro = false; kind = Kind.text }

abbrev ether_addr_attr : CString → Attr
ether_addr_attr name = record { name = name; ro = false; kind = Kind.ether }

abbrev ro_string_attr : CString → Attr
ro_string_attr name = record { name = name; ro = true; kind = Kind.text }

abbrev dev_attr_ro : CString → Attr
dev_attr_ro name = record { name = name; ro = true; kind = Kind.dev }

abbrev rd_attr : CString → Attr
rd_attr name = record { name = name; ro = false; kind = Kind.report }

-- `midi_attr`
abbrev pub midi_attr : List Attr
midi_attr =
    dec_attr (c "index")
    ∷ string_attr (c "id")
    ∷ dec_attr (c "in_ports")
    ∷ dec_attr (c "out_ports")
    ∷ dec_attr (c "buflen")
    ∷ dec_attr (c "qlen")
    ∷ []

-- `loopback_attr_names`, whose attributes are all read and written as numbers.
abbrev pub loopback_attr : List Attr
loopback_attr = dec_attr (c "buflen") ∷ dec_attr (c "qlen") ∷ []

-- `hid_attr`
abbrev pub hid_attr : List Attr
hid_attr =
    dev_attr_ro (c "dev")
    ∷ dec_attr (c "protocol")
    ∷ rd_attr (c "report_desc")
    ∷ dec_attr (c "report_length")
    ∷ dec_attr (c "subclass")
    ∷ []

-- `net_attr`
abbrev pub net_attr : List Attr
net_attr =
    ether_addr_attr (c "dev_addr")
    ∷ ether_addr_attr (c "host_addr")
    ∷ ro_string_attr (c "ifname")
    ∷ dec_attr (c "qmult")
    ∷ dec_attr (c "class_")
    ∷ dec_attr (c "subclass")
    ∷ dec_attr (c "protocol")
    ∷ []

-- `uac2_attr`. For a field that is a `short`, setters have the `int` that the code reads at the
-- offset of the field, with the two bytes behind it.
abbrev pub uac2_attr : List Attr
uac2_attr =
    dec_attr (c "c_chmask")
    ∷ dec_attr (c "c_srate")
    ∷ dec_attr (c "c_ssize")
    ∷ dec_attr (c "p_chmask")
    ∷ dec_attr (c "p_srate")
    ∷ dec_attr (c "p_ssize")
    ∷ dec_attr (c "p_hs_bint")
    ∷ dec_attr (c "c_hs_bint")
    ∷ string_attr (c "c_sync")
    ∷ dec_attr (c "req_number")
    ∷ dec_attr (c "fb_max")
    ∷ bool_attr (c "p_mute_present")
    ∷ bool_attr (c "p_volume_present")
    ∷ dec_attr (c "p_volume_min")
    ∷ dec_attr (c "p_volume_max")
    ∷ dec_attr (c "p_volume_res")
    ∷ bool_attr (c "c_mute_present")
    ∷ bool_attr (c "c_volume_present")
    ∷ dec_attr (c "c_volume_min")
    ∷ dec_attr (c "c_volume_max")
    ∷ dec_attr (c "c_volume_res")
    ∷ string_attr (c "function_name")
    ∷ []

-- Which fields of `struct usbg_f_uac2_attrs` are `aligned_uchar` or `aligned_short`: both are a
-- `short`.
abbrev pub uac2_shorts : List Bool
uac2_shorts =
    false ∷ false ∷ false ∷ false ∷ false ∷ false ∷ true ∷ true ∷ false ∷ false ∷ false ∷ false
    ∷ false ∷ true ∷ true ∷ true ∷ false ∷ false ∷ true ∷ true ∷ true ∷ false ∷ []

-- `usbg_f_type_*`: the types that share their operations.
abbrev pub serial_types : List ℕ
serial_types = 0 ∷ 1 ∷ 2 ∷ []

abbrev pub net_types : List ℕ
net_types = 3 ∷ 4 ∷ 5 ∷ 6 ∷ 7 ∷ []

abbrev is_among : ℕ → List ℕ → Bool
is_among t [] = false
is_among t (u ∷ us) = t == u || is_among t us

module _ ⦃os : Os⦄ where
  -- `usbg_to_midi_function` and its like: the structure around the function, which starts with it,
  -- or NULL for another type.
  unfoldable pub to_function : List ℕ → Ptr → M Ptr
  to_function types f = do
    func ← load function_at f
    return (if is_among func.type types then f else null)

  -- `usbg_f_midi_get_attrs` and its like.
  unfoldable pub get_attrs : (table : List Attr) → Ptr → M (Fields table)
  get_attrs table f = do func ← load function_at f; get_fields func.path func.name table

  unfoldable pub set_attrs : (table : List Attr) → Ptr → Fields table → M (Unit {0})
  set_attrs table f a = do func ← load function_at f; set_fields func.path func.name table a

  unfoldable pub get_attr_val : List Attr → Ptr → ℕ → M Value
  get_attr_val table f attr = do func ← load function_at f; get_field func.path func.name table attr

  unfoldable pub set_attr_val : List Attr → Ptr → ℕ → Union → M (Unit {0})
  set_attr_val table f attr val = do
    func ← load function_at f
    set_field func.path func.name table attr val

  -- A text that is not NULL and not empty.
  abbrev pub is_given : Option CString → Bool
  is_given none = false
  is_given (some []) = false
  is_given (some (x ∷ s)) = true

  -- `usbg_f_net_get_dev_addr` and `usbg_f_net_get_host_addr` (net.h), as what `*addr` holds
  -- afterwards: the value is read into a variable of their own.
  unfoldable pub net_get_dev_addr : Ptr → List ℕ → M (List ℕ)
  unfolding get_attr_val
  net_get_dev_addr f addr = do val ← get_attr_val net_attr f 0; return addr

  unfoldable pub net_get_host_addr : Ptr → List ℕ → M (List ℕ)
  unfolding get_attr_val
  net_get_host_addr f addr = do val ← get_attr_val net_attr f 1; return addr
