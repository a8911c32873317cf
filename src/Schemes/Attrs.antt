-- ===== src/Schemes/Attrs.antt =====
-- `.import` and `.export` of the types of functions with a table: midi.c, hid.c, ether.c, uac2.c
-- and loopback.c.
pub mod Booleans
use libusbgx.Base.{ℕ, Bool, true, false, List, [], ◌∷◌, Option, none, some, if◌then◌else◌, not}
use libusbgx.Base.Int.{ℤ, pos, negsuc}
use libusbgx.CStr.{CString}
use libusbgx.Error.{UsbgError, invalid_param, invalid_value}
use libusbgx.Funcs.Attrs.{Attr}
use libusbgx.Funcs.Tables.{midi_attr, loopback_attr, hid_attr, net_attr, uac2_attr}
use libusbgx.Funcs.Types.{
  to_midi_function, to_loopback_function, to_hid_function, to_net_function, to_uac2_function,
}
use libusbgx.Funcs.Values.{Kind, Val, get_value, set_value}
use libusbgx.Heap.{Ptr}
use libusbgx.Heap.Monad.{M, return, raise, io, load, function_at, ◌>>=◌, ◌>>◌}
use libusbgx.Libconfig.{Libconfig, SettingType, type_int, ask}
use libusbgx.Os.{Os}
use libusbgx.Schemes.Nodes.{Setting, import_value, export_value, set_config_node_int, if_member}

module _ ⦃os : Os⦄ ⦃lc : Libconfig os⦄ where
  -- How an attribute of this type and name is read and written.
  abbrev pub Getter : Type 0
  Getter = (k : Kind) → CString → M (Val k)

  abbrev pub Setter : Type 0
  Setter = (k : Kind) → CString → Val k → M (Unit {0})

  abbrev pub set_if_found : {A : Type 0} → (A → M (Unit {0})) → Option A → M (Unit {0})
  set_if_found set none = return tt
  set_if_found set (some v) = set v

  -- The loop of `midi_libconfig_import` and its like: read only attributes and those that are not
  -- found are left out.
  unfoldable pub import_fields : Setter → Setting → List Attr → M (Unit {0})
  import_fields set root [] = return tt
  import_fields set root (e ∷ es) = do
    if e.ro
        then return tt
        else (import_value e.kind root e.name >>= set_if_found (set e.kind e.name))
    import_fields set root es

  -- The loop of `midi_libconfig_export` and its like. For a network function `skip` leaves out the
  -- attributes that are read only.
  unfoldable pub export_fields : Bool → Getter → Setting → List Attr → M (Unit {0})
  export_fields skip get root [] = return tt
  export_fields true get root (e ∷ es) = do
    if e.ro then return tt else (get e.kind e.name >>= export_value e.kind root e.name)
    export_fields true get root es
  export_fields false get root (e ∷ es) = do
    get e.kind e.name >>= export_value e.kind root e.name
    export_fields false get root es

  -- `usbg_f_midi_get_attr_val` and `usbg_f_midi_set_attr_val` and their like, for an entry of the
  -- table that is not read only.
  abbrev function_getter : Ptr → Getter
  function_getter f k file = do func ← load function_at f; io (get_value k func.path func.name file)

  abbrev function_setter : Ptr → Setter
  function_setter f k file v = do func ← load function_at f; set_value k func.path func.name file v

  unfoldable pub midi_libconfig_import : Ptr → Setting → M (Unit {0})
  midi_libconfig_import f root = do
    mf ← to_midi_function f
    import_fields (function_setter mf) root midi_attr

  unfoldable pub midi_libconfig_export : Ptr → Setting → M (Unit {0})
  midi_libconfig_export f root = do
    mf ← to_midi_function f
    export_fields false (function_getter mf) root midi_attr

  unfoldable pub hid_libconfig_import : Ptr → Setting → M (Unit {0})
  hid_libconfig_import f root = do
    hf ← to_hid_function f
    import_fields (function_setter hf) root hid_attr

  unfoldable pub hid_libconfig_export : Ptr → Setting → M (Unit {0})
  hid_libconfig_export f root = do
    hf ← to_hid_function f
    export_fields false (function_getter hf) root hid_attr

  unfoldable pub uac2_libconfig_import : Ptr → Setting → M (Unit {0})
  uac2_libconfig_import f root = do
    af ← to_uac2_function f
    import_fields (function_setter af) root uac2_attr

  unfoldable pub uac2_libconfig_export : Ptr → Setting → M (Unit {0})
  uac2_libconfig_export f root = do
    af ← to_uac2_function f
    export_fields false (function_getter af) root uac2_attr

  unfoldable pub ether_libconfig_import : Ptr → Setting → M (Unit {0})
  ether_libconfig_import f root = do
    nf ← to_net_function f
    import_fields (function_setter nf) root net_attr

  unfoldable pub ether_libconfig_export : Ptr → Setting → M (Unit {0})
  ether_libconfig_export f root = do
    nf ← to_net_function f
    export_fields true (function_getter nf) root net_attr

  abbrev not_negative : ℤ → UsbgError → M ℤ
  not_negative (pos n) e = return (pos n)
  not_negative (negsuc n) e = raise e

  -- The type of the node is not looked at.
  loopback_import_each : Ptr → Setting → List Attr → M (Unit {0})
  loopback_import_each lf root [] = return tt
  loopback_import_each lf root (e ∷ es) = do
    if_member root e.name (return tt) (λ node. do
      tmp ← ask (lc.get_int node)
      v ← not_negative tmp invalid_param
      function_setter lf Kind.dec e.name v)
    loopback_import_each lf root es

  unfoldable pub loopback_libconfig_import : Ptr → Setting → M (Unit {0})
  unfolding loopback_import_each
  loopback_libconfig_import f root = do
    lf ← to_loopback_function f
    loopback_import_each lf root loopback_attr

  loopback_export_each : Ptr → Setting → List Attr → M (Unit {0})
  loopback_export_each lf root [] = return tt
  loopback_export_each lf root (e ∷ es) = do
    tmp ← function_getter lf Kind.dec e.name
    v ← not_negative tmp invalid_value
    set_config_node_int root (some e.name) v
    loopback_export_each lf root es

  unfoldable pub loopback_libconfig_export : Ptr → Setting → M (Unit {0})
  unfolding loopback_export_each
  loopback_libconfig_export f root = do
    lf ← to_loopback_function f
    loopback_export_each lf root loopback_attr
