-- ===== src/Schemes/Import/Configs.antt =====
-- usbg_schemes_libconfig.c: functions and configurations made from trees, with the bindings of a
-- configuration. An error after the creation of a configuration removes it again.
use libusbgx.Base.{true, false, none, some, get_elem?, if◌then◌else◌}
use libusbgx.Base.Int.{ℤ}
use libusbgx.CStr.{CString, c}
use libusbgx.Create.{create_config, create_function, add_config_function}
use libusbgx.Error.{not_supported, invalid_type, missing_tag, other_error}
use libusbgx.FunctionOps.{FunctionOps}
use libusbgx.Funcs.Ops.{Impl, function_types}
use libusbgx.Heap.{Ptr}
use libusbgx.Heap.Monad.{
  M, fault, return, raise, require, load, on_error, ignored, config_at, function_at, ◌>>=◌, ◌>>◌,
}
use libusbgx.Libconfig.{Libconfig, is_string, is_group, ask}
use libusbgx.Names.{found, failed, lookup_function_type}
use libusbgx.Os.{Os}
use libusbgx.Remove.{rm_config}
use libusbgx.Schemes.Attrs.{
  midi_libconfig_import, hid_libconfig_import, uac2_libconfig_import, ether_libconfig_import,
  loopback_libconfig_import,
}
use libusbgx.Schemes.Ms.{ms_libconfig_import}
use libusbgx.Schemes.Uvc.Import.{uvc_libconfig_import}
use libusbgx.Schemes.Nodes.{Setting, if_member}
use libusbgx.Schemes.Import.{
  rm_recurse, text_or, each_elem, import_function_os_descs, optional, labelled,
  import_binding_string, binding_name, import_config_strings, import_config_attrs, section,
}

module _ ⦃os : Os⦄ ⦃lc : Libconfig os⦄ (ops : FunctionOps os) where
  -- `.import`. A printer has none.
  import_of : Impl → Ptr → Setting → M (Unit {0})
  import_of Impl.serial f root = return tt
  import_of Impl.net f root = ether_libconfig_import f root
  import_of Impl.phonet f root = return tt
  import_of Impl.ffs f root = return tt
  import_of Impl.mass_storage f root = ms_libconfig_import f root
  import_of Impl.midi f root = midi_libconfig_import f root
  import_of Impl.loopback f root = loopback_libconfig_import f root
  import_of Impl.hid f root = hid_libconfig_import f root
  import_of Impl.uac2 f root = uac2_libconfig_import f root
  import_of Impl.uvc f root = uvc_libconfig_import f root
  import_of Impl.printer f root = raise not_supported
  import_of Impl.p9fs f root = return tt

  unfoldable pub import_function_attrs : Setting → Ptr → M (Unit {0})
  unfolding function_types import_of
  import_function_attrs root f = do
    func ← load function_at f
    elim (get_elem? function_types func.type) [ none ↦ λ m. fault | some i ↦ import_of i f root ]

  unfoldable pub import_function_run : Ptr → Setting → CString → M Ptr
  import_function_run g root instance = if_member root (c "type") (raise missing_tag) (λ node.
      text_or node (raise invalid_type) (λ type_str. elim (lookup_function_type (some type_str)) [
        | failed e ↦ raise not_supported
        | found type ↦ do
          f ← create_function ops g type (some instance) none
          optional root (c "attrs") (λ n. import_function_attrs n f)
          optional root (c "os_descs") (λ n. import_function_os_descs n f)
          return f
      ]))

  -- The function of a binding: a label, or a function that is defined here.
  binding_target : Setting → Ptr → M Ptr
  unfolding labelled
  binding_target node p = do
    t ← ask (lc.type node)
    if is_string t then labelled p node else do
      require (is_group t) invalid_type
      if_member node (c "instance") (raise missing_tag) (λ inst.
          text_or inst (raise other_error)
            (λ instance. do conf ← load config_at p; import_function_run conf.parent node instance))

  unfoldable pub import_binding_group : Setting → Ptr → M (Unit {0})
  unfolding binding_target binding_name
  import_binding_group root p = if_member root (c "function") (raise missing_tag) (λ node. do
    target ← binding_target node p
    name ← binding_name root target
    add_config_function p (some name) target)

  import_binding : Ptr → Setting → M (Unit {0})
  import_binding p node = do
    t ← ask (lc.type node)
    if is_string t
        then import_binding_string node p
        else do require (is_group t) invalid_type; import_binding_group node p

  -- The elements are not tested for NULL.
  unfoldable pub import_config_bindings : Setting → Ptr → M (Unit {0})
  unfolding import_binding
  import_config_bindings root p = do
    count ← ask (lc.length root)
    each_elem (import_binding p) (λ m. fault) root count 0

  config_sections : Setting → Ptr → M (Unit {0})
  config_sections root p = do
    section root (c "attrs") false (λ n. import_config_attrs n p)
    section root (c "strings") true (λ n. import_config_strings n p)
    section root (c "functions") true (λ n. import_config_bindings n p)

  unfoldable pub import_config_run : Ptr → Setting → ℤ → M Ptr
  unfolding config_sections
  import_config_run g root id = if_member root (c "name") (raise missing_tag) (λ node.
      text_or node (raise invalid_type) (λ name. do
        newc ← create_config g id (some name) none none
        on_error (config_sections root newc) (ignored (rm_config newc rm_recurse))
        return newc))
