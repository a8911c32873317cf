-- ===== src/Schemes/Export/Gadgets.antt =====
-- usbg_schemes_libconfig.c: the trees that functions and gadgets are exported to.
use libusbgx.Base.{
  ℕ, Bool, true, false, List, [], ◌∷◌, Option, none, some, ◌==◌, get_elem?, if◌then◌else◌,
}
use libusbgx.Base.Int.{pos}
use libusbgx.CStr.{CString, c}
use libusbgx.Error.{UsbgError, not_supported}
use libusbgx.Files.{read_string_alloc}
use libusbgx.Attrs.{get_gadget_attrs}
use libusbgx.Funcs.Ops.{Impl, function_types}
use libusbgx.Heap.{Ptr, null, Function, Mem}
use libusbgx.Heap.Monad.{
  M, Run, returned, raised, fault, return, raise, io, load, gadget_at, config_at, function_at,
  ◌>>=◌, ◌>>◌,
}
use libusbgx.Libconfig.{Libconfig, type_list, type_group}
use libusbgx.Names.{get_function_type_str}
use libusbgx.Os.{Os}
use libusbgx.OsDesc.{FunctionOsDesc, get_gadget_os_descs, get_interf_os_desc}
use libusbgx.Schemes.Attrs.{
  midi_libconfig_export, hid_libconfig_export, uac2_libconfig_export, ether_libconfig_export,
  loopback_libconfig_export,
}
use libusbgx.Schemes.Ms.{ms_libconfig_export}
use libusbgx.Schemes.Uvc.{unless, is_not_found}
use libusbgx.Schemes.Uvc.Export.{uvc_libconfig_export}
use libusbgx.Schemes.Nodes.{
  Setting, add_node, set_config_node_int, set_config_node_int_hex, set_config_node_string,
}
use libusbgx.Strings.{GadgetStrs, existing_lang_dir, get_gadget_strs_langs}
use libusbgx.Schemes.Export.{
  os_desc_iname, checked_label, in_groups, set_lang, up_to_zero, export_gadget_configs,
}

module _ ⦃os : Os⦄ ⦃lc : Libconfig os⦄ where
  -- `.export`. A printer has none.
  export_of : Impl → Ptr → Setting → M (Unit {0})
  export_of Impl.serial f root = return tt
  export_of Impl.net f root = ether_libconfig_export f root
  export_of Impl.phonet f root = return tt
  export_of Impl.ffs f root = return tt
  export_of Impl.mass_storage f root = ms_libconfig_export f root
  export_of Impl.midi f root = midi_libconfig_export f root
  export_of Impl.loopback f root = loopback_libconfig_export f root
  export_of Impl.hid f root = hid_libconfig_export f root
  export_of Impl.uac2 f root = uac2_libconfig_export f root
  export_of Impl.uvc f root = uvc_libconfig_export f root
  export_of Impl.printer f root = raise not_supported
  export_of Impl.p9fs f root = return tt

  unfoldable pub export_function_attrs : Ptr → Setting → M (Unit {0})
  unfolding function_types export_of
  export_function_attrs f root = do
    func ← load function_at f
    elim (get_elem? function_types func.type) [ none ↦ λ m. fault | some i ↦ export_of i f root ]

  -- `usbg_set_config_node_string` of a text that is not NULL.
  abbrev put_given : Setting → CString → Option CString → M (Unit {0})
  put_given root name none = return tt
  put_given root name (some s) = set_config_node_string root (some name) (some s)

  unfoldable pub set_config_node_os_desc : Setting → CString → FunctionOsDesc → M (Unit {0})
  set_config_node_os_desc root iname d = do
    groot ← add_node root none type_group
    set_config_node_string groot (some (c "interface")) (some iname)
    put_given groot (c "compatible_id") d.compatible_id
    put_given groot (c "sub_compatible_id") d.sub_compatible_id

  -- The loop over the names of the interfaces.
  export_os_descs : Ptr → Setting → List CString → M (Unit {0})
  export_os_descs f root [] = return tt
  export_os_descs f root (iname ∷ inames) = do
    d ← get_interf_os_desc f (some iname)
    set_config_node_os_desc root iname d
    export_os_descs f root inames

  abbrev is_not_supported : UsbgError → Bool
  is_not_supported not_supported = true
  is_not_supported _ = false

  unfoldable pub export_function_prep : Ptr → Setting → M (Unit {0})
  unfolding export_os_descs
  export_function_prep f root = do
    func ← load function_at f
    set_config_node_string root (some (c "type")) (get_function_type_str func.type)
    attrs ← add_node root (some (c "attrs")) type_group
    export_function_attrs f attrs
    descs ← add_node root (some (c "os_descs")) type_list
    λ m. unless is_not_supported (export_os_descs f descs (os_desc_iname func.type) m)

  function_label : Function → M CString
  unfolding checked_label
  function_label f = elim f.label [ some label ↦ return label | none ↦ checked_label f ]

  -- The loop over the functions of a gadget.
  export_functions : Setting → List Ptr → M (Unit {0})
  export_functions root [] = return tt
  export_functions root (f ∷ fs) = do
    func ← load function_at f
    label ← function_label func
    node ← add_node root (some label) type_group
    set_config_node_string node (some (c "instance")) (some func.instance_name)
    export_function_prep f node
    export_functions root fs

  unfoldable pub export_gadget_functions : Ptr → Setting → M (Unit {0})
  unfolding export_functions function_label
  export_gadget_functions g root = do gad ← load gadget_at g; export_functions root gad.functions

  abbrev faulty : {A : Type 0} → Run (Mem os) A → Run (Mem os) A
  faulty (returned a m) = returned a m
  faulty (raised e m) = fault
  faulty fault = fault

  -- `usbg_get_gadget_strs(g, lang, &strs)`, and what `usbg_free_gadget_strs(&strs)` makes of a
  -- failure: before the texts are set to NULL it frees what was never assigned, after the
  -- first text was read it frees again what was freed, and both are faults. Where the first
  -- text cannot be read, it has three NULLs.
  unfoldable pub get_strs_or_free : Ptr → ℕ → M GadgetStrs
  unfolding existing_lang_dir
  get_strs_or_free g lang = if g == null then (λ m. fault) else do
    gad ← load gadget_at g
    dir ← (λ m. faulty (existing_lang_dir gad.path gad.name lang m))
    mnf ← io (read_string_alloc dir [] (c "manufacturer"))
    prd ← (λ m. faulty (io (read_string_alloc dir [] (c "product")) m))
    serno ← (λ m. faulty (io (read_string_alloc dir [] (c "serialnumber")) m))
    return (record { manufacturer = some mnf; product = some prd; serial = some serno })

  unfoldable pub export_gadget_strs_lang : Ptr → ℕ → Setting → M (Unit {0})
  unfolding set_lang get_strs_or_free
  export_gadget_strs_lang g lang root = do
    strs ← get_strs_or_free g lang
    set_lang root lang
    set_config_node_string root (some (c "manufacturer")) strs.manufacturer
    set_config_node_string root (some (c "product")) strs.product
    set_config_node_string root (some (c "serialnumber")) strs.serial

  unfoldable pub export_gadget_strings : Ptr → Setting → M (Unit {0})
  unfolding up_to_zero
  export_gadget_strings g root = do
    langs ← get_gadget_strs_langs g
    in_groups root (export_gadget_strs_lang g) (up_to_zero langs)

  unfoldable pub export_gadget_attrs : Ptr → Setting → M (Unit {0})
  export_gadget_attrs g root = do
    a ← get_gadget_attrs g
    set_config_node_int_hex root (some (c "bcdUSB")) (pos a.bcd_usb)
    set_config_node_int_hex root (some (c "bDeviceClass")) (pos a.b_device_class)
    set_config_node_int_hex root (some (c "bDeviceSubClass")) (pos a.b_device_sub_class)
    set_config_node_int_hex root (some (c "bDeviceProtocol")) (pos a.b_device_protocol)
    set_config_node_int_hex root (some (c "bMaxPacketSize0")) (pos a.b_max_packet_size0)
    set_config_node_int_hex root (some (c "idVendor")) (pos a.id_vendor)
    set_config_node_int_hex root (some (c "idProduct")) (pos a.id_product)
    set_config_node_int_hex root (some (c "bcdDevice")) (pos a.bcd_device)

  -- The id of the configuration that is linked to the OS descriptors.
  export_os_desc_config : Ptr → Setting → M (Unit {0})
  export_os_desc_config p root =
      if p == null
      then return tt
      else do conf ← load config_at p; set_config_node_int root (some (c "config_id")) (pos conf.id)

  unfoldable pub export_gadget_os_descs : Ptr → Setting → M (Unit {0})
  unfolding export_os_desc_config
  export_gadget_os_descs g root = do
    gad ← load gadget_at g
    export_os_desc_config gad.os_desc_binding root
    d ← get_gadget_os_descs g
    set_config_node_int root (some (c "use")) (pos (if d.enabled then 1 else 0))
    set_config_node_string root (some (c "qw_sign")) d.qw_sign
    set_config_node_int_hex root (some (c "b_vendor_code")) (pos d.b_vendor_code)

  unfoldable pub export_gadget_prep : Ptr → Setting → M (Unit {0})
  export_gadget_prep g root = do
    attrs ← add_node root (some (c "attrs")) type_group
    export_gadget_attrs g attrs
    descs ← add_node root (some (c "os_descs")) type_group
    (λ m. unless is_not_found (export_gadget_os_descs g descs m))
    strings ← add_node root (some (c "strings")) type_list
    export_gadget_strings g strings
    functions ← add_node root (some (c "functions")) type_group
    export_gadget_functions g functions
    configs ← add_node root (some (c "configs")) type_list
    export_gadget_configs g configs
