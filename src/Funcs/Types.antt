-- ===== src/Funcs/Types.antt =====
-- The operations of the types of functions with a table, under their names in midi.c, loopback.c,
-- hid.c, ether.c and uac2.c.
use libusbgx.Base.{ℕ, [], ◌∷◌, ◌==◌, if◌then◌else◌}
use libusbgx.CStr.{CString, c}
use libusbgx.Error.{invalid_param, path_too_long}
use libusbgx.Files.{fits, read_string_limited}
use libusbgx.Base.Int.{ℤ}
use libusbgx.Funcs.Attrs.{Fields, Union, Value, narrow_fields}
use libusbgx.Funcs.Luns.{lun_path}
use libusbgx.Funcs.Tables.{
  midi_attr, loopback_attr, hid_attr, net_attr, uac2_attr, uac2_shorts, net_types, get_attrs,
  set_attrs, get_attr_val, set_attr_val, to_function, is_given,
}
use libusbgx.Heap.{Ptr, null}
use libusbgx.Heap.Monad.{M, return, raise, require, io, load, function_at, ◌>>=◌, ◌>>◌}
use libusbgx.Os.{Os}

module _ ⦃os : Os⦄ where
  pub f_midi_get_attrs : Ptr → M (Fields midi_attr)
  f_midi_get_attrs = get_attrs midi_attr

  pub f_midi_set_attrs : Ptr → Fields midi_attr → M (Unit {0})
  f_midi_set_attrs = set_attrs midi_attr

  pub f_midi_get_attr_val : Ptr → ℕ → M Value
  f_midi_get_attr_val = get_attr_val midi_attr

  pub f_midi_set_attr_val : Ptr → ℕ → Union → M (Unit {0})
  f_midi_set_attr_val = set_attr_val midi_attr

  pub to_midi_function : Ptr → M Ptr
  to_midi_function = to_function (11 ∷ [])

  pub midi_get_attrs : Ptr → M (Fields midi_attr)
  midi_get_attrs f = do p ← to_midi_function f; f_midi_get_attrs p

  pub midi_set_attrs : Ptr → Fields midi_attr → M (Unit {0})
  midi_set_attrs f a = do p ← to_midi_function f; f_midi_set_attrs p a

  pub f_loopback_get_attrs : Ptr → M (Fields loopback_attr)
  f_loopback_get_attrs = get_attrs loopback_attr

  pub f_loopback_set_attrs : Ptr → Fields loopback_attr → M (Unit {0})
  f_loopback_set_attrs = set_attrs loopback_attr

  pub f_loopback_get_attr_val : Ptr → ℕ → M Value
  f_loopback_get_attr_val = get_attr_val loopback_attr

  pub f_loopback_set_attr_val : Ptr → ℕ → Union → M (Unit {0})
  f_loopback_set_attr_val = set_attr_val loopback_attr

  pub to_loopback_function : Ptr → M Ptr
  to_loopback_function = to_function (12 ∷ [])

  pub loopback_get_attrs : Ptr → M (Fields loopback_attr)
  loopback_get_attrs f = do p ← to_loopback_function f; f_loopback_get_attrs p

  pub loopback_set_attrs : Ptr → Fields loopback_attr → M (Unit {0})
  loopback_set_attrs f a = do p ← to_loopback_function f; f_loopback_set_attrs p a

  pub f_hid_get_attrs : Ptr → M (Fields hid_attr)
  f_hid_get_attrs = get_attrs hid_attr

  pub f_hid_set_attrs : Ptr → Fields hid_attr → M (Unit {0})
  f_hid_set_attrs = set_attrs hid_attr

  pub f_hid_get_attr_val : Ptr → ℕ → M Value
  f_hid_get_attr_val = get_attr_val hid_attr

  pub f_hid_set_attr_val : Ptr → ℕ → Union → M (Unit {0})
  f_hid_set_attr_val = set_attr_val hid_attr

  pub to_hid_function : Ptr → M Ptr
  to_hid_function = to_function (13 ∷ [])

  pub hid_get_attrs : Ptr → M (Fields hid_attr)
  hid_get_attrs f = do p ← to_hid_function f; f_hid_get_attrs p

  pub hid_set_attrs : Ptr → Fields hid_attr → M (Unit {0})
  hid_set_attrs f a = do p ← to_hid_function f; f_hid_set_attrs p a

  -- The fields as they are declared.
  pub f_uac2_get_attrs : Ptr → M (Fields uac2_attr)
  f_uac2_get_attrs af = do
    a ← get_attrs uac2_attr af
    return (narrow_fields uac2_shorts uac2_attr a)

  pub f_uac2_set_attrs : Ptr → Fields uac2_attr → M (Unit {0})
  f_uac2_set_attrs = set_attrs uac2_attr

  pub f_uac2_get_attr_val : Ptr → ℕ → M Value
  f_uac2_get_attr_val = get_attr_val uac2_attr

  pub f_uac2_set_attr_val : Ptr → ℕ → Union → M (Unit {0})
  f_uac2_set_attr_val = set_attr_val uac2_attr

  pub to_uac2_function : Ptr → M Ptr
  to_uac2_function = to_function (14 ∷ [])

  pub uac2_get_attrs : Ptr → M (Fields uac2_attr)
  uac2_get_attrs f = do p ← to_uac2_function f; f_uac2_get_attrs p

  pub uac2_set_attrs : Ptr → Fields uac2_attr → M (Unit {0})
  uac2_set_attrs f a = do p ← to_uac2_function f; f_uac2_set_attrs p a

  pub f_net_get_attrs : Ptr → M (Fields net_attr)
  f_net_get_attrs = get_attrs net_attr

  pub f_net_set_attrs : Ptr → Fields net_attr → M (Unit {0})
  f_net_set_attrs = set_attrs net_attr

  pub f_net_get_attr_val : Ptr → ℕ → M Value
  f_net_get_attr_val = get_attr_val net_attr

  pub f_net_set_attr_val : Ptr → ℕ → Union → M (Unit {0})
  f_net_set_attr_val = set_attr_val net_attr

  pub to_net_function : Ptr → M Ptr
  to_net_function = to_function net_types

  pub ether_get_attrs : Ptr → M (Fields net_attr)
  ether_get_attrs f = do p ← to_net_function f; f_net_get_attrs p

  -- The name of the interface is read only.
  pub ether_set_attrs : Ptr → Fields net_attr → M (Unit {0})
  ether_set_attrs f a =
      if is_given a.1.1.0
      then raise invalid_param
      else do p ← to_net_function f; f_net_set_attrs p a

  -- The getters of a text into a buffer of `len` bytes: its contents, whose length is returned.
  abbrev get_text_s : CString → Ptr → ℕ → M CString
  get_text_s file f len =
      if f == null
      then raise invalid_param
      else do func ← load function_at f; io (read_string_limited func.path func.name file len)

  pub f_midi_get_id_s : Ptr → ℕ → M CString
  f_midi_get_id_s = get_text_s (c "id")

  pub f_net_get_ifname_s : Ptr → ℕ → M CString
  f_net_get_ifname_s = get_text_s (c "ifname")

  pub f_phonet_get_ifname_s : Ptr → ℕ → M CString
  f_phonet_get_ifname_s = get_text_s (c "ifname")

  pub f_ms_get_lun_file_s : Ptr → ℤ → ℕ → M CString
  f_ms_get_lun_file_s mf lun_id len = if mf == null then raise invalid_param else do
    func ← load function_at mf
    require (fits (lun_path func lun_id)) path_too_long
    io (read_string_limited (lun_path func lun_id) [] (c "filename") len)
