-- ===== src/OsDesc.antt =====
-- usbg.c, Microsoft OS descriptors of gadgets and of functions' interfaces, and the link from a
-- gadget's os_desc directory to a configuration.
pub mod Links
use libusbgx.Base.{
  ℕ, Bool, true, false, not, List, [], ◌∷◌, ◌++◌, Option, none, some, ◌==◌, if◌then◌else◌,
}
use libusbgx.Base.Int.{ℤ, pos, negsuc}
use libusbgx.CStr.{CString, c}
use libusbgx.Error.{UsbgError, invalid_param, path_too_long, exist, not_found, not_supported}
use libusbgx.Files.{
  join, fits, bindings_select, scandir, rm_file, check_dir, write_string, write_hex, write_dec,
  read_string_alloc, read_hex, read_dec, is_nonzero,
}
use libusbgx.Heap.{Ptr, null, Gadget, Config, Function, Mem}
use libusbgx.Heap.Monad.{
  M, return, raise, require, io, load, store, gadget_at, config_at, function_at, ◌>>=◌, ◌>>◌,
}
use libusbgx.Num.{to_unsigned}
use libusbgx.Os.{Os}
use libusbgx.Os.Io.{Io, call, from_res, ok}

-- `struct usbg_gadget_os_descs` and `struct usbg_function_os_desc`; `none` is a NULL text.
pub record GadgetOsDescs : Type 0 where
  pub enabled : Bool
  pub b_vendor_code : ℕ
  pub qw_sign : Option CString

pub record FunctionOsDesc : Type 0 where
  pub compatible_id : Option CString
  pub sub_compatible_id : Option CString

-- "%s/%s/os_desc"
abbrev pub os_desc_dir : CString → CString → CString
os_desc_dir path name = join path (join name (c "os_desc"))

module _ ⦃os : Os⦄ where
  create_os_desc_link : Ptr → Ptr → M (Unit {0})
  create_os_desc_link g p = do
    conf ← load config_at p
    gad ← load gadget_at g
    let target = join conf.path conf.name
    let link = join (os_desc_dir gad.path gad.name) conf.name
    require (fits target) path_too_long
    require (fits link) path_too_long
    io (call (os.symlink target link))
    store gadget_at g (record gad { os_desc_binding = p })

  rm_first : CString → List CString → M (Unit {0})
  rm_first path [] = raise not_found
  rm_first path (n ∷ ns) = io (rm_file path n)

  -- The gadget's structure keeps its `os_desc_binding`.
  rm_os_desc_link : Ptr → M (Unit {0})
  unfolding rm_first
  rm_os_desc_link g = do
    gad ← load gadget_at g
    let path = os_desc_dir gad.path gad.name
    require (fits path) path_too_long
    ns ← io (scandir bindings_select path)
    rm_first path ns

  link_new : Ptr → Ptr → M (Unit {0})
  unfolding create_os_desc_link
  link_new g p = do
    gad ← load gadget_at g
    require (gad.os_desc_binding == null) exist
    create_os_desc_link g p

  unfoldable pub set_os_desc_config : Ptr → Ptr → M (Unit {0})
  unfolding link_new rm_os_desc_link
  set_os_desc_config g p =
      if g == null
      then raise invalid_param
      else if p == null
      then rm_os_desc_link g
      else link_new g p

  parse_gadget_os_descs : CString → CString → M GadgetOsDescs
  parse_gadget_os_descs path name = do
    let dir = os_desc_dir path name
    require (fits dir) path_too_long
    sign ← io (read_string_alloc dir [] (c "qw_sign"))
    code ← io (read_hex dir [] (c "b_vendor_code"))
    used ← io (read_dec dir [] (c "use"))
    return (record {
      enabled = is_nonzero used;
      b_vendor_code = to_unsigned 8 code;
      qw_sign = some sign;
    })

  -- The caller's structure is never NULL here.
  unfoldable pub get_gadget_os_descs : Ptr → M GadgetOsDescs
  unfolding parse_gadget_os_descs
  get_gadget_os_descs g =
      if g == null
      then raise invalid_param
      else do gad ← load gadget_at g; parse_gadget_os_descs gad.path gad.name

  unfoldable pub set_gadget_os_descs : Ptr → GadgetOsDescs → M (Unit {0})
  set_gadget_os_descs g d = do
    gad ← load gadget_at g
    let path = os_desc_dir gad.path gad.name
    require (fits path) path_too_long
    io (check_dir path)
    io (write_string path [] (c "qw_sign") d.qw_sign)
    io (write_hex 2 path [] (c "b_vendor_code") d.b_vendor_code)
    io (write_dec path [] (c "use") (pos (if d.enabled then 1 else 0)))

  -- "%s/%s/os_desc/interface.%s"
  interface_dir : CString → CString → CString → CString
  interface_dir path name iname = join (os_desc_dir path name) (c "interface." ++ iname)

  unfoldable pub get_interf_os_desc : Ptr → Option CString → M FunctionOsDesc
  unfolding interface_dir
  get_interf_os_desc p none = raise not_supported
  get_interf_os_desc p (some iname) = do
    f ← load function_at p
    let path = interface_dir f.path f.name iname
    require (fits path) path_too_long
    compatible ← io (read_string_alloc path [] (c "compatible_id"))
    sub ← io (read_string_alloc path [] (c "sub_compatible_id"))
    return (record { compatible_id = some compatible; sub_compatible_id = some sub })

  unfoldable pub set_interf_os_desc : Ptr → Option CString → FunctionOsDesc → M (Unit {0})
  unfolding interface_dir
  set_interf_os_desc p none d = raise not_supported
  set_interf_os_desc p (some iname) d = do
    f ← load function_at p
    let path = interface_dir f.path f.name iname
    require (fits path) path_too_long
    io (write_string path [] (c "compatible_id") d.compatible_id)
    io (write_string path [] (c "sub_compatible_id") d.sub_compatible_id)
