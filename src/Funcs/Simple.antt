-- ===== src/Funcs/Simple.antt =====
-- The types of functions with one attribute, which is read only: serial.c, phonet.c, ffs.c and
-- 9pfs.c.
use libusbgx.Base.{ℕ, ◌-◌, take, length, ◌==◌, Option, some, [], ◌∷◌, if◌then◌else◌}
use libusbgx.Base.Int.{ℤ}
use libusbgx.CStr.{CString, c}
use libusbgx.Error.{no_mem, invalid_param}
use libusbgx.Files.{read_dec, read_string_alloc, is_nonzero}
use libusbgx.Funcs.Tables.{serial_types, to_function, is_given}
use libusbgx.Heap.{Ptr, null}
use libusbgx.Heap.Monad.{M, return, raise, io, load, function_at, ◌>>=◌, ◌>>◌}
use libusbgx.Os.{Os}
use libusbgx.Os.Io.{allocate}

module _ ⦃os : Os⦄ where
  unfoldable pub serial_get_port_num : Ptr → M ℤ
  serial_get_port_num sf = do
    func ← load function_at sf
    io (read_dec func.path func.name (c "port_num"))

  unfoldable pub serial_set_attrs : Ptr → ℤ → M (Unit {0})
  serial_set_attrs f port_num = if is_nonzero port_num then raise invalid_param else return tt

  unfoldable pub serial_get_attrs : Ptr → M ℤ
  unfolding to_function serial_get_port_num
  serial_get_attrs f = do sf ← to_function serial_types f; serial_get_port_num sf

  unfoldable pub phonet_set_attrs : Ptr → Option CString → M (Unit {0})
  phonet_set_attrs f ifname = if is_given ifname then raise invalid_param else return tt

  unfoldable pub ffs_set_attrs : Ptr → Option CString → M (Unit {0})
  ffs_set_attrs f dev_name = if is_given dev_name then raise invalid_param else return tt

  unfoldable pub phonet_get_ifname : Ptr → M CString
  phonet_get_ifname pf =
      if pf == null
      then raise invalid_param
      else do func ← load function_at pf; io (read_string_alloc func.path func.name (c "ifname"))

  unfoldable pub phonet_get_attrs : Ptr → M (Option CString)
  unfolding to_function phonet_get_ifname
  phonet_get_attrs f = do pf ← to_function (8 ∷ []) f; s ← phonet_get_ifname pf; return (some s)

  unfoldable pub fs_get_dev_name : Ptr → M CString
  fs_get_dev_name ff =
      if ff == null
      then raise invalid_param
      else do func ← load function_at ff; io (allocate no_mem); return func.instance_name

  unfoldable pub ffs_get_attrs : Ptr → M (Option CString)
  unfolding to_function fs_get_dev_name
  ffs_get_attrs f = do ff ← to_function (9 ∷ []) f; s ← fs_get_dev_name ff; return (some s)

  -- The text that a buffer of `len` bytes, at least one, then holds, and the length of the whole
  -- text.
  f_fs_get_dev_name_s : Ptr → ℕ → M (CString × ℕ)
  f_fs_get_dev_name_s ff len = if ff == null then raise invalid_param else do
    func ← load function_at ff
    return (take (len - 1) func.instance_name, length func.instance_name)

  unfoldable pub p9fs_set_attrs : Ptr → Option CString → M (Unit {0})
  p9fs_set_attrs f dev_name = if is_given dev_name then raise invalid_param else return tt

  f_9pfs_get_dev_name : Ptr → M CString
  f_9pfs_get_dev_name p9fs =
      if p9fs == null
      then raise invalid_param
      else do func ← load function_at p9fs; io (allocate no_mem); return func.instance_name

  unfoldable pub p9fs_get_attrs : Ptr → M (Option CString)
  unfolding to_function f_9pfs_get_dev_name
  p9fs_get_attrs f = do
    p9fs ← to_function (17 ∷ []) f
    s ← f_9pfs_get_dev_name p9fs
    return (some s)

  f_9pfs_get_dev_name_s : Ptr → ℕ → M (CString × ℕ)
  f_9pfs_get_dev_name_s p9fs len = if p9fs == null then raise invalid_param else do
    func ← load function_at p9fs
    return (take (len - 1) func.instance_name, length func.instance_name)
