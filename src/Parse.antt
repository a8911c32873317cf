-- ===== src/Parse.antt =====
-- usbg.c, reading what configfs holds when the library starts: `usbg_init` and the usbg_parse_*.
-- Each loop stops its work at the first error and reports that error.
use libusbgx.Base.{Bool, true, false, List, [], ◌∷◌, ◌++◌, none, some, ◌==◌, ◌-◌, if◌then◌else◌}
use libusbgx.CStr.{CString, c, strrchr}
use libusbgx.Create.{link_udc}
use libusbgx.Error.{UsbgError, no_mem, path_too_long, other_error, not_found, no_access}
use libusbgx.Files.{join, fits, max_path_length, file_select, bindings_select, scandir, read_string}
use libusbgx.Heap.{Ptr, null, Mem}
use libusbgx.Heap.Monad.{
  M, Run, returned, raised, fault, return, raise, require, on_error, io, load, store, state_at,
  gadget_at, config_at, ◌>>=◌, ◌>>◌,
}
use libusbgx.Objects.{
  allocate_gadget, allocate_config, allocate_function, allocate_binding, allocate_udc,
  allocate_state, free_gadget, free_config, free_state,
}
use libusbgx.Os.{Os}
use libusbgx.Os.Io.{call, allocate}
use libusbgx.OsDesc.{os_desc_dir}
use libusbgx.Query.{get_function, get_config, get_udc}
use libusbgx.Split.{split_function_instance_type, split_config_label_id}

-- The errors of `usbg_parse_udcs` that `usbg_parse_state` passes over.
abbrev is_tolerated : UsbgError → Bool
is_tolerated not_found = true
is_tolerated no_access = true
is_tolerated _ = false

module _ ⦃os : Os⦄ where
  for_each : (CString → M (Unit {0})) → List CString → M (Unit {0})
  for_each f [] = return tt
  for_each f (n ∷ ns) = do f n; for_each f ns

  -- TAILQ_INSERT_TAIL
  append_function : Ptr → Ptr → M (Unit {0})
  append_function g f = do
    gad ← load gadget_at g
    store gadget_at g (record gad { functions = gad.functions ++ f ∷ [] })

  append_config : Ptr → Ptr → M (Unit {0})
  append_config g p = do
    gad ← load gadget_at g
    store gadget_at g (record gad { configs = gad.configs ++ p ∷ [] })

  append_binding : Ptr → Ptr → M (Unit {0})
  append_binding p b = do
    conf ← load config_at p
    store config_at p (record conf { bindings = conf.bindings ++ b ∷ [] })

  append_gadget : Ptr → Ptr → M (Unit {0})
  append_gadget s g = do
    st ← load state_at s
    store state_at s (record st { gadgets = st.gadgets ++ g ∷ [] })

  append_udc : Ptr → Ptr → M (Unit {0})
  append_udc s u = do
    st ← load state_at s
    store state_at s (record st { udcs = st.udcs ++ u ∷ [] })

  parse_function : CString → Ptr → CString → M (Unit {0})
  unfolding append_function
  parse_function fpath g name = do
    (type, instance) ← io (split_function_instance_type name)
    f ← allocate_function fpath type instance g
    append_function g f

  unfoldable pub parse_functions : CString → Ptr → M (Unit {0})
  unfolding for_each parse_function
  parse_functions path g = do
    gad ← load gadget_at g
    let fpath = join path (join gad.name (c "functions"))
    require (fits fpath) path_too_long
    names ← io (scandir file_select fpath)
    for_each (parse_function fpath g) names

  -- `strrchr(target, '/') + 1`, which must find a slash.
  after_slash : CString → M CString
  after_slash target = elim (strrchr b'/' target) [
    | none ↦ λ m. fault
    | some (front, name) ↦ return name
  ]

  link_target : CString → M CString
  unfolding after_slash
  link_target path = do
    target ← io (call (os.readlink path (max_path_length - 1)))
    after_slash target

  parse_config_binding : Ptr → CString → CString → M (Unit {0})
  unfolding link_target append_binding
  parse_config_binding p dir name = do
    let bpath = join dir name
    require (fits bpath) path_too_long
    target ← link_target bpath
    (type, instance) ← io (split_function_instance_type target)
    conf ← load config_at p
    f ← get_function conf.parent type instance
    if f == null then raise other_error else return tt
    b ← allocate_binding dir name p f
    append_binding p b

  parse_config_bindings : Ptr → M (Unit {0})
  unfolding for_each parse_config_binding
  parse_config_bindings p = do
    conf ← load config_at p
    let dir = join conf.path conf.name
    require (fits dir) path_too_long
    names ← io (scandir bindings_select dir)
    for_each (parse_config_binding p dir) names

  read_os_desc_link : Ptr → CString → CString → M (Unit {0})
  unfolding link_target
  read_os_desc_link g dir name = do
    let bpath = join dir name
    require (fits bpath) path_too_long
    target ← link_target bpath
    (label, id) ← io (split_config_label_id target)
    if id == 0 then return tt else do
      p ← get_config g id (some label)
      if p == null
          then raise no_mem
          else do gad ← load gadget_at g; store gadget_at g (record gad { os_desc_binding = p })

  -- Only the first link counts. Having none is no error.
  first_os_desc_link : Ptr → CString → List CString → M (Unit {0})
  unfolding read_os_desc_link
  first_os_desc_link g dir [] = return tt
  first_os_desc_link g dir (n ∷ ns) = read_os_desc_link g dir n

  parse_gadget_os_desc_binding : Ptr → M (Unit {0})
  unfolding first_os_desc_link
  parse_gadget_os_desc_binding g = do
    gad ← load gadget_at g
    let dir = os_desc_dir gad.path gad.name
    require (fits dir) path_too_long
    names ← io (scandir bindings_select dir)
    first_os_desc_link g dir names

  -- A configuration with the id 0 is passed over without an error.
  parse_config : CString → Ptr → CString → M (Unit {0})
  unfolding parse_config_bindings append_config
  parse_config path g name = do
    (label, id) ← io (split_config_label_id name)
    if id == 0 then return tt else do
      p ← allocate_config path label id g
      on_error (parse_config_bindings p) (free_config p)
      append_config g p

  parse_configs : CString → Ptr → M (Unit {0})
  unfolding for_each parse_config
  parse_configs path g = do
    gad ← load gadget_at g
    let cpath = join path (join gad.name (c "configs"))
    require (fits cpath) path_too_long
    names ← io (scandir file_select cpath)
    for_each (parse_config cpath g) names

  unfoldable pub parse_gadget : Ptr → M (Unit {0})
  unfolding parse_functions parse_configs parse_gadget_os_desc_binding link_udc
  parse_gadget g = do
    gad ← load gadget_at g
    buf ← io (read_string gad.path gad.name (c "UDC"))
    u ← get_udc gad.parent buf
    link_udc g u
    parse_functions gad.path g
    parse_configs gad.path g
    parse_gadget_os_desc_binding g

  parse_one_gadget : CString → Ptr → CString → M (Unit {0})
  unfolding parse_gadget append_gadget
  parse_one_gadget path s name = do
    g ← allocate_gadget path name s
    on_error (parse_gadget g) (free_gadget g)
    append_gadget s g

  parse_gadgets : CString → Ptr → M (Unit {0})
  unfolding for_each parse_one_gadget
  parse_gadgets path s = do
    names ← io (scandir file_select path)
    for_each (parse_one_gadget path s) names

  parse_udc : Ptr → CString → M (Unit {0})
  unfolding append_udc
  parse_udc s name = do u ← allocate_udc s name; append_udc s u

  parse_udcs : Ptr → M (Unit {0})
  unfolding for_each parse_udc
  parse_udcs s = do
    names ← io (scandir file_select (c "/sys/class/udc"))
    for_each (parse_udc s) names

  tolerate : Run (Mem os) (Unit {0}) → Run (Mem os) (Unit {0})
  tolerate (returned _ m) = returned tt m
  tolerate (raised e m) = if is_tolerated e then returned tt m else raised e m
  tolerate fault = fault

  -- Without /sys/class/udc, or without the right to read it, the library runs with no UDC.
  unfoldable pub parse_state : Ptr → M (Unit {0})
  unfolding parse_udcs parse_gadgets tolerate
  parse_state s = do λ m. tolerate (parse_udcs s m); st ← load state_at s; parse_gadgets st.path s

  unfoldable pub init : CString → M Ptr
  unfolding parse_state
  init configfs_path = do
    io (allocate no_mem)
    let path = join configfs_path (c "usb_gadget")
    io (call (os.opendir path))
    s ← allocate_state configfs_path path
    on_error (parse_state s) (free_state s)
    return s
