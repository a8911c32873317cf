-- ===== src/Schemes/Without.antt =====
-- src/usbg_schemes_none.c: what stands for import and export in a library that is built without
-- libconfig.
use libusbgx.Base.{Option, none}
use libusbgx.Base.Int.{ℤ}
use libusbgx.CStr.{CString}
use libusbgx.Error.{not_supported, error_code}
use libusbgx.Heap.{Ptr}
use libusbgx.Heap.Monad.{M, return, raise}
use libusbgx.Os.{Os}

module _ ⦃os : Os⦄ where
  export_function : Ptr → os.File → M (Unit {0})
  export_function f stream = raise not_supported

  export_config : Ptr → os.File → M (Unit {0})
  export_config conf stream = raise not_supported

  export_gadget : Ptr → os.File → M (Unit {0})
  export_gadget g stream = raise not_supported

  import_function : Ptr → os.File → CString → M Ptr
  import_function g stream instance = raise not_supported

  import_config : Ptr → os.File → ℤ → M Ptr
  import_config g stream id = raise not_supported

  import_gadget : Ptr → os.File → CString → M Ptr
  import_gadget s stream name = raise not_supported

  get_func_import_error_text : Ptr → M (Option CString)
  get_func_import_error_text g = return none

  -- The line is the number of an error.
  get_func_import_error_line : Ptr → M ℤ
  get_func_import_error_line g = return (error_code not_supported)

  get_config_import_error_text : Ptr → M (Option CString)
  get_config_import_error_text g = return none

  get_config_import_error_line : Ptr → M ℤ
  get_config_import_error_line g = return (error_code not_supported)

  get_gadget_import_error_text : Ptr → M (Option CString)
  get_gadget_import_error_text s = return none

  get_gadget_import_error_line : Ptr → M ℤ
  get_gadget_import_error_line s = return (error_code not_supported)
