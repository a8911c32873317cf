-- ===== src/Schemes/Streams.antt =====
-- usbg_schemes_libconfig.c: import from and export to a stream, and the errors of the imports.
pub mod Errors
use libusbgx.Base.{ℕ, Bool, true, false, not, ◌||◌, Option, none, ◌==◌, if◌then◌else◌}
use libusbgx.Base.Int.{ℤ, pos, negsuc}
use libusbgx.CStr.{CString}
use libusbgx.Error.{invalid_param, invalid_format, no_mem}
use libusbgx.FunctionOps.{FunctionOps}
use libusbgx.Heap.{Ptr, null, State, Gadget}
use libusbgx.Heap.Monad.{
  Slot, M, returned, return, raise, require, io, load, store, on_error, state_at, gadget_at, ◌>>=◌,
  ◌>>◌,
}
use libusbgx.Libconfig.{Libconfig, ask, change}
use libusbgx.Os.{Os}
use libusbgx.Os.Io.{allocate}
use libusbgx.Schemes.Export.{export_config_prep}
use libusbgx.Schemes.Export.Gadgets.{export_function_prep, export_gadget_prep}
use libusbgx.Schemes.Import.Configs.{import_function_run, import_config_run}
use libusbgx.Schemes.Import.Gadgets.{import_gadget_run}
use libusbgx.Schemes.Nodes.{Setting}

-- A structure with a field `last_failed_import`.
record Importer (A : Type 0) : Type 0 where
  slot : Slot A
  failed_import : A → Ptr
  with_failed_import : Ptr → A → A

abbrev of_gadget : Importer Gadget
of_gadget = record {
  slot = gadget_at;
  failed_import = λ g. g.last_failed_import;
  with_failed_import = λ cfg g. record g { last_failed_import = cfg };
}

abbrev of_state : Importer State
of_state = record {
  slot = state_at;
  failed_import = λ s. s.last_failed_import;
  with_failed_import = λ cfg s. record s { last_failed_import = cfg };
}

module _ ⦃os : Os⦄ ⦃lc : Libconfig os⦄ where
  abbrev destroy : Ptr → M (Unit {0})
  destroy cfg m = returned tt (record m { world = lc.destroy cfg m.world })

  -- The tree of the import that failed before is released.
  set_failed_import : {A : Type 0} → Importer A → Ptr → Ptr → M (Unit {0})
  set_failed_import importer p cfg = do
    a ← load importer.slot p
    if importer.failed_import a == null then return tt else destroy (importer.failed_import a)
    store importer.slot p (importer.with_failed_import cfg a)

  -- `usbg_export_function` and its like. What `config_write` returns is not looked at.
  export_to : (Ptr → Setting → M (Unit {0})) → Ptr → os.File → M (Unit {0})
  export_to prep p stream = do
    require (not (p == null)) invalid_param
    cfg ← change lc.init
    root ← ask (lc.root_setting cfg)
    on_error (prep p root) (destroy cfg)
    written ← change (lc.write cfg stream)
    destroy cfg

  unfoldable pub export_function : Ptr → os.File → M (Unit {0})
  unfolding export_to
  export_function = export_to export_function_prep

  unfoldable pub export_config : Ptr → os.File → M (Unit {0})
  unfolding export_to
  export_config = export_to export_config_prep

  unfoldable pub export_gadget : Ptr → os.File → M (Unit {0})
  unfolding export_to
  export_gadget = export_to export_gadget_prep

  -- `usbg_import_function` and its like: the tree is kept if the import fails, and its owner has none
  -- if it succeeds.
  import_from : {A : Type 0} → Importer A → Ptr → (Setting → M Ptr) → os.File → M Ptr
  unfolding set_failed_import
  import_from importer p run stream = do
    io (allocate no_mem)
    cfg ← change lc.init
    readable ← change (lc.read cfg stream)
    if readable then return tt else do set_failed_import importer p cfg; raise invalid_format
    root ← ask (lc.root_setting cfg)
    made ← on_error (run root) (set_failed_import importer p cfg)
    destroy cfg
    set_failed_import importer p null
    return made

  abbrev is_negative : ℤ → Bool
  is_negative (pos n) = false
  is_negative (negsuc n) = true

  module _ (ops : FunctionOps os) where
    unfoldable pub import_function : Ptr → os.File → CString → M Ptr
    unfolding import_from
    import_function g stream instance = do
      require (not (g == null)) invalid_param
      import_from of_gadget g (λ root. import_function_run ops g root instance) stream

    unfoldable pub import_config : Ptr → os.File → ℤ → M Ptr
    unfolding import_from
    import_config g stream id = do
      require (not (g == null || is_negative id)) invalid_param
      import_from of_gadget g (λ root. import_config_run ops g root id) stream

    unfoldable pub import_gadget : Ptr → os.File → CString → M Ptr
    unfolding import_from
    import_gadget s stream name = do
      require (not (s == null)) invalid_param
      import_from of_state s (λ root. import_gadget_run ops s root name) stream

  -- The error of the last import of this structure, if it failed.
  import_error : {A B : Type 0} → Importer A → B → (ℕ → os.World → B) → Ptr → M B
  import_error importer missing get p = if p == null then return missing else do
    a ← load importer.slot p
    if importer.failed_import a == null
        then return missing
        else ask (get (importer.failed_import a))

  unfoldable pub get_func_import_error_text : Ptr → M (Option CString)
  unfolding import_error
  get_func_import_error_text = import_error of_gadget none lc.error_text

  unfoldable pub get_func_import_error_line : Ptr → M ℤ
  unfolding import_error
  get_func_import_error_line = import_error of_gadget (negsuc 0) lc.error_line

  unfoldable pub get_config_import_error_text : Ptr → M (Option CString)
  unfolding import_error
  get_config_import_error_text = import_error of_gadget none lc.error_text

  unfoldable pub get_config_import_error_line : Ptr → M ℤ
  unfolding import_error
  get_config_import_error_line = import_error of_gadget (negsuc 0) lc.error_line

  unfoldable pub get_gadget_import_error_text : Ptr → M (Option CString)
  unfolding import_error
  get_gadget_import_error_text = import_error of_state none lc.error_text

  unfoldable pub get_gadget_import_error_line : Ptr → M ℤ
  unfolding import_error
  get_gadget_import_error_line = import_error of_state (negsuc 0) lc.error_line
