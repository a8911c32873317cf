-- ===== src/Schemes/Uvc.antt =====
-- What import and export of a video function share (uvc.c), and usbg_set_config_node_guid.
pub mod Import
pub mod Export
use libusbgx.Base.{
  ℕ, suc, ◌+◌, Bool, true, false, List, [], ◌∷◌, Option, none, some, ◌==◌, length, if◌then◌else◌,
}
use libusbgx.CStr.{CString, c}
use libusbgx.Base.Int.{ℤ}
use libusbgx.Error.{UsbgError, not_found, path_too_long}
use libusbgx.Files.{fits}
use libusbgx.Funcs.Guid.{guid_fields, print_guid}
use libusbgx.Funcs.Uvc.{config_path, frame_path}
use libusbgx.Funcs.Values.{get_value, set_value}
use libusbgx.Heap.{Ptr, Mem}
use libusbgx.Heap.Monad.{
  M, Run, returned, raised, fault, require, io, load, function_at, ◌>>=◌, ◌>>◌,
}
use libusbgx.Libconfig.{Libconfig, type_string}
use libusbgx.Os.{Os}
use libusbgx.Schemes.Attrs.{Getter, Setter}
use libusbgx.Schemes.Nodes.{Setting, add_node, assured}

module _ ⦃os : Os⦄ where
  -- An error that the code goes on after.
  abbrev pub unless : (UsbgError → Bool) → Run (Mem os) (Unit {0}) → Run (Mem os) (Unit {0})
  unless accepted (returned a m) = returned a m
  unless accepted (raised e m) = if accepted e then returned tt m else raised e m
  unless accepted fault = fault

  abbrev pub is_not_found : UsbgError → Bool
  is_not_found not_found = true
  is_not_found _ = false

module _ ⦃os : Os⦄ ⦃lc : Libconfig os⦄ where
  -- The bytes are those that `usbg_get_guid` read.
  unfoldable pub set_config_node_guid : Setting → Option CString → CString → M (Unit {0})
  set_config_node_guid root name bin = do
    node ← add_node root name type_string
    assured (lc.set_string node (some (print_guid guid_fields bin)))

  -- `usbg_f_uvc_get_config_attr_val` and its like, for an entry of the table.
  abbrev pub config_getter : Ptr → Getter
  config_getter uvcf k file = do
    func ← load function_at uvcf
    require (fits (config_path func)) path_too_long
    io (get_value k (config_path func) [] file)

  abbrev pub config_setter : Ptr → Setter
  config_setter uvcf k file v = do
    func ← load function_at uvcf
    require (fits (config_path func)) path_too_long
    set_value k (config_path func) [] file v

  abbrev pub frame_getter : Ptr → CString → ℤ → Getter
  frame_getter uvcf format id k file = do
    func ← load function_at uvcf
    require (fits (frame_path func format id)) path_too_long
    io (get_value k (frame_path func format id) [] file)

  abbrev pub frame_setter : Ptr → CString → ℤ → Setter
  frame_setter uvcf format id k file v = do
    func ← load function_at uvcf
    require (fits (frame_path func format id)) path_too_long
    set_value k (frame_path func format id) [] file v
