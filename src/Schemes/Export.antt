-- ===== src/Schemes/Export.antt =====
-- usbg_schemes_libconfig.c: the trees that gadgets, configurations and functions are exported to.
-- The functions usbg_export_* around them only make the tree and write it to a stream.
pub mod Gadgets
use libusbgx.Base.{
  ℕ, Bool, true, false, not, List, [], ◌∷◌, ◌++◌, Option, none, some, length, ltb, ◌==◌, get_elem?,
  if◌then◌else◌,
}
use libusbgx.Base.Int.{ℤ, pos}
use libusbgx.CStr.{CString, c}
use libusbgx.Error.{UsbgError, other_error, not_supported, not_found}
use libusbgx.Attrs.{GadgetAttrs, ConfigAttrs, get_gadget_attrs, get_config_attrs}
use libusbgx.Funcs.Ops.{Impl, function_types}
use libusbgx.Heap.{Ptr, null, Function, Binding, Mem}
use libusbgx.Heap.Monad.{
  M, Run, returned, raised, fault, return, raise, require, load, gadget_at, config_at, function_at,
  binding_at, ◌>>=◌, ◌>>◌,
}
use libusbgx.Libconfig.{Libconfig, type_int, type_string, type_list, type_group}
use libusbgx.Names.{get_function_type_str}
use libusbgx.Num.{to_int}
use libusbgx.Os.{Os}
use libusbgx.OsDesc.{GadgetOsDescs, FunctionOsDesc, get_gadget_os_descs, get_interf_os_desc}
use libusbgx.Schemes.Attrs.{
  midi_libconfig_export, hid_libconfig_export, uac2_libconfig_export, ether_libconfig_export,
  loopback_libconfig_export,
}
use libusbgx.Schemes.Ms.{ms_libconfig_export}
use libusbgx.Schemes.Nodes.{
  Setting, add_node, set_config_node_int, set_config_node_int_hex, set_config_node_string,
}
use libusbgx.Strings.{
  GadgetStrs, get_gadget_strs, get_config_strs, get_gadget_strs_langs, get_config_strs_langs,
}

abbrev pub max_name_length : ℕ
max_name_length = 40

-- The names of the interfaces with OS descriptors (`.os_desc_iname`), for ncm and rndis.
abbrev pub os_desc_iname : ℕ → List CString
os_desc_iname t = if t == 5 then c "ncm" ∷ [] else if t == 7 then c "rndis" ∷ [] else []

-- "%s_%s"; a type beyond the table gives a NULL, which is shown as such.
unfoldable pub generate_function_label : Function → CString
generate_function_label f =
    let type_name : CString = elim (get_function_type_str f.type) [
      | none ↦ c "(null)"
      | some s ↦ s
    ] in
    type_name ++ b'_' ∷ f.instance_name

module _ ⦃os : Os⦄ ⦃lc : Libconfig os⦄ where
  -- The label, which has to fit a buffer of USBG_MAX_NAME_LENGTH bytes.
  pub checked_label : Function → M CString
  checked_label f = do
    require (ltb (length (generate_function_label f)) max_name_length) other_error
    return (generate_function_label f)

  unfoldable pub export_binding : Setting → Binding → M (Unit {0})
  unfolding checked_label
  export_binding root b = do
    set_config_node_string root (some (c "name")) (some b.name)
    target ← load function_at b.target
    label ← checked_label target
    set_config_node_string root (some (c "function")) (some label)

  -- A loop that makes a group for each entry and fills it.
  unfoldable pub in_groups :
      {A : Type 0} → Setting → (A → Setting → M (Unit {0})) → List A → M (Unit {0})
  in_groups root fill [] = return tt
  in_groups root fill (a ∷ as') = do
    node ← add_node root none type_group
    fill a node
    in_groups root fill as'

  unfoldable pub export_config_bindings : Ptr → Setting → M (Unit {0})
  export_config_bindings p root = do
    conf ← load config_at p
    in_groups root (λ q node. do b ← load binding_at q; export_binding node b) conf.bindings

  pub set_lang : Setting → ℕ → M (Unit {0})
  set_lang root lang = set_config_node_int_hex root (some (c "lang")) (to_int (pos lang))

  unfoldable pub export_config_strs_lang : Ptr → ℕ → Setting → M (Unit {0})
  unfolding set_lang
  export_config_strs_lang p lang root = do
    text ← get_config_strs p lang
    set_lang root lang
    set_config_node_string root (some (c "configuration")) (some text)

  -- The loop over the languages ends at 0.
  pub up_to_zero : List ℕ → List ℕ
  up_to_zero [] = []
  up_to_zero (l ∷ ls) = let rest = up_to_zero ls in if l == 0 then [] else l ∷ rest

  unfoldable pub export_config_strings : Ptr → Setting → M (Unit {0})
  unfolding up_to_zero
  export_config_strings p root = do
    langs ← get_config_strs_langs p
    in_groups root (export_config_strs_lang p) (up_to_zero langs)

  unfoldable pub export_config_attrs : Ptr → Setting → M (Unit {0})
  export_config_attrs p root = do
    attrs ← get_config_attrs p
    set_config_node_int_hex root (some (c "bmAttributes")) (pos attrs.bm_attributes)
    set_config_node_int_hex root (some (c "bMaxPower")) (pos attrs.b_max_power)

  unfoldable pub export_config_prep : Ptr → Setting → M (Unit {0})
  export_config_prep p root = do
    conf ← load config_at p
    set_config_node_string root (some (c "name")) (some conf.label)
    attrs ← add_node root (some (c "attrs")) type_group
    export_config_attrs p attrs
    strings ← add_node root (some (c "strings")) type_list
    export_config_strings p strings
    functions ← add_node root (some (c "functions")) type_list
    export_config_bindings p functions

  unfoldable pub export_gadget_configs : Ptr → Setting → M (Unit {0})
  export_gadget_configs g root = do
    gad ← load gadget_at g
    in_groups root
        (λ p node. do
          conf ← load config_at p
          set_config_node_int node (some (c "id")) (pos conf.id)
          export_config_prep p node)
        gad.configs
