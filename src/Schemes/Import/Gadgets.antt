-- ===== src/Schemes/Import/Gadgets.antt =====
-- usbg_schemes_libconfig.c: gadgets made from trees. An error removes the gadget again.
pub mod Fields
use libusbgx.Base.{ℕ, ◌^◌, Bool, true, false, not, Option, none, some, ltb, ◌==◌, if◌then◌else◌}
use libusbgx.Attrs.{
  set_gadget_device_bcd_usb, set_gadget_device_class, set_gadget_device_subclass,
  set_gadget_device_protocol, set_gadget_device_max_packet, set_gadget_vendor_id,
  set_gadget_product_id, set_gadget_device_bcd_device,
}
use libusbgx.Base.Int.{ℤ, pos, negsuc}
use libusbgx.CStr.{CString, c}
use libusbgx.Create.{create_gadget}
use libusbgx.Error.{
  UsbgError, not_found, invalid_type, invalid_value, missing_tag, other_error, no_mem,
}
use libusbgx.FunctionOps.{FunctionOps}
use libusbgx.Heap.{Ptr, null, Mem}
use libusbgx.Heap.Monad.{
  M, Run, returned, raised, fault, return, raise, require, io, load, store, on_error, ignored,
  function_at, ◌>>=◌, ◌>>◌,
}
use libusbgx.Libconfig.{Libconfig, is_int, is_string, ask}
use libusbgx.Os.{Os}
use libusbgx.Os.Io.{allocate}
use libusbgx.OsDesc.{GadgetOsDescs, set_gadget_os_descs, set_os_desc_config}
use libusbgx.Query.{get_config}
use libusbgx.Remove.{rm_gadget}
use libusbgx.Schemes.Import.{
  rm_recurse, each_elem, require_group, text_or, optional, number, section, get_lang, get_text,
}
use libusbgx.Schemes.Import.Configs.{import_function_run, import_config_run}
use libusbgx.Schemes.Nodes.{Setting, if_member}
use libusbgx.Strings.{GadgetStrs, set_gadget_strs}

-- `val < 0 || val > ((1L << w) - 1)` for a type of `w` bits.
abbrev pub fits_field : ℕ → ℤ → Bool
fits_field w (negsuc n) = false
fits_field w (pos n) = ltb n (2 ^ w)

abbrev pub field_of : ℤ → ℕ
field_of (negsuc n) = 0
field_of (pos n) = n

module _ ⦃os : Os⦄ ⦃lc : Libconfig os⦄ where
  unfoldable pub import_gadget_strs_lang : Ptr → Setting → M (Unit {0})
  import_gadget_strs_lang g root = do
    lang ← get_lang root
    manufacturer ← get_text root (c "manufacturer")
    product ← get_text root (c "product")
    serial ← get_text root (c "serialnumber")
    set_gadget_strs g lang
        (record { manufacturer = manufacturer; product = product; serial = serial })

  unfoldable pub import_gadget_strings : Setting → Ptr → M (Unit {0})
  import_gadget_strings root g = do
    count ← ask (lc.length root)
    each_elem (λ node. do require_group node; import_gadget_strs_lang g node) (λ m. fault) root
        count 0

  -- GET_OPTIONAL_GADGET_ATTR for a type of `w` bits.
  unfoldable pub optional_attr : ℕ → Setting → CString → (ℕ → M (Unit {0})) → M (Unit {0})
  optional_attr w root name set =
      number root name (λ val. do require (fits_field w val) invalid_value; set (field_of val))

  unfoldable pub import_gadget_attrs : Setting → Ptr → M (Unit {0})
  import_gadget_attrs root g = do
    optional_attr 16 root (c "bcdUSB") (set_gadget_device_bcd_usb g)
    optional_attr 8 root (c "bDeviceClass") (set_gadget_device_class g)
    optional_attr 8 root (c "bDeviceSubClass") (set_gadget_device_subclass g)
    optional_attr 8 root (c "bDeviceProtocol") (set_gadget_device_protocol g)
    optional_attr 8 root (c "bMaxPacketSize0") (set_gadget_device_max_packet g)
    optional_attr 16 root (c "idVendor") (set_gadget_vendor_id g)
    optional_attr 16 root (c "idProduct") (set_gadget_product_id g)
    optional_attr 16 root (c "bcdDevice") (set_gadget_device_bcd_device g)

  -- The same macro for a field of a structure that starts as zeros.
  optional_field : Setting → CString → M ℕ
  optional_field root name = if_member root name (return 0) (λ node. do
    t ← ask (lc.type node)
    require (is_int t) invalid_type
    val ← ask (lc.get_int node)
    require (fits_field 8 val) invalid_value
    return (field_of val))

  -- An error that is kept for later, and reported then.
  abbrev kept_error : Run (Mem os) (Unit {0}) → Run (Mem os) (Option UsbgError)
  kept_error (returned _ m) = returned none m
  kept_error (raised e m) = returned (some e) m
  kept_error fault = fault

  abbrev report : Option UsbgError → M (Unit {0})
  report none = return tt
  report (some e) = raise e

  abbrev config_with : Ptr → ℤ → M Ptr
  config_with g (pos id) = get_config g id none
  config_with g (negsuc n) = return null

  -- The link to a configuration. That the node is no number, or that the link cannot be made, is
  -- not reported.
  import_os_desc_config : Setting → Ptr → M (Unit {0})
  import_os_desc_config root g = optional root (c "config_id") (λ node. do
    t ← ask (lc.type node)
    if not (is_int t) then return tt else do
      val ← ask (lc.get_int node)
      target ← config_with g val
      require (not (target == null)) not_found
      ignored (set_os_desc_config g target))

  unfoldable pub import_gadget_os_descs : Setting → Ptr → M (Unit {0})
  unfolding optional_field import_os_desc_config
  import_gadget_os_descs root g = do
    use_value ← optional_field root (c "use")
    code ← optional_field root (c "b_vendor_code")
    sign ← get_text root (c "qw_sign")
    result ← (λ m. kept_error (
        set_gadget_os_descs g
          (record { enabled = not (use_value == 0); b_vendor_code = code; qw_sign = sign }) m))
    import_os_desc_config root g
    report result

  module _ (ops : FunctionOps os) where
    import_config : Ptr → Setting → M (Unit {0})
    import_config g node = do
      require_group node
      if_member node (c "id") (raise missing_tag) (λ id_node. do
        t ← ask (lc.type id_node)
        require (is_int t) invalid_type
        id ← ask (lc.get_int id_node)
        p ← import_config_run ops g node id
        return tt)

    unfoldable pub import_gadget_configs : Setting → Ptr → M (Unit {0})
    unfolding import_config
    import_gadget_configs root g = do
      count ← ask (lc.length root)
      each_elem (import_config g) (raise other_error) root count 0

    -- The label is the name of the node.
    set_label : Ptr → Setting → M (Unit {0})
    set_label f node = do
      label ← ask (lc.name node)
      elim label [
        | none ↦ raise other_error
        | some l ↦ do
          io (allocate no_mem)
          func ← load function_at f
          store function_at f (record func { label = some l })
      ]

    import_function : Ptr → Setting → M (Unit {0})
    unfolding set_label
    import_function g node = do
      require_group node
      if_member node (c "instance") (raise missing_tag) (λ inst. do
        t ← ask (lc.type inst)
        require (is_string t) invalid_type
        text_or inst (raise other_error)
            (λ instance. do f ← import_function_run ops g node instance; set_label f node))

    unfoldable pub import_gadget_functions : Setting → Ptr → M (Unit {0})
    unfolding import_function
    import_gadget_functions root g = do
      count ← ask (lc.length root)
      each_elem (import_function g) (raise other_error) root count 0

    gadget_sections : Setting → Ptr → M (Unit {0})
    gadget_sections root g = do
      section root (c "attrs") false (λ n. import_gadget_attrs n g)
      section root (c "strings") true (λ n. import_gadget_strings n g)
      section root (c "functions") false (λ n. import_gadget_functions n g)
      section root (c "configs") true (λ n. import_gadget_configs n g)
      section root (c "os_descs") false (λ n. import_gadget_os_descs n g)

    unfoldable pub import_gadget_run : Ptr → Setting → CString → M Ptr
    unfolding gadget_sections
    import_gadget_run s root name = do
      newg ← create_gadget s name none none
      on_error (gadget_sections root newg) (ignored (rm_gadget ops newg rm_recurse))
      return newg
