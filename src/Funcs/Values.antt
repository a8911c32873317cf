-- ===== src/Funcs/Values.antt =====
-- The values of attributes of functions, and how a file holds them: usbg_get_dec and its like in
-- usbg_internal.h, usbg_get_ether_addr and its like in usbg_common.c, hid_get_report and
-- hid_set_report in hid.c.
pub mod Held
pub mod ReadBack
use libusbgx.Base.{ℕ, Bool, not, List, [], ◌∷◌, Option, none, some, ltb, length, if◌then◌else◌}
use libusbgx.Base.Int.{ℤ}
use libusbgx.CStr.{CString}
use libusbgx.Error.{no_mem, invalid_value}
use libusbgx.Error
use libusbgx.Files.{
  read_dec, read_bool, read_string_alloc, read_string_limited, read_buf, write_dec, write_bool,
  write_string, write_buf, max_str_length,
}
use libusbgx.Funcs.Ether.{ether_ntoa_r, ether_aton_r}
use libusbgx.Funcs.Scan.{scan_pair}
use libusbgx.Heap.Monad.{M, fault, io}
use libusbgx.Num.{to_unsigned}
use libusbgx.Os.{Os}
use libusbgx.Os.Io.{Io, return, fail, allocate, ◌>>=◌, ◌>>◌}

-- The types of attributes: `int` (also `unsigned int`, through a pointer to `int`), `bool`,
-- `char *`, `struct ether_addr`, `dev_t` and `struct usbg_f_hid_report_desc`.
pub data Kind : Type 0 where
  dec boolean text ether dev report : Kind

-- A member of the unions of values. A text may be NULL; a device is its major and minor number.
abbrev pub Val : Kind → Type 0
Val Kind.dec = ℤ
Val Kind.boolean = Bool
Val Kind.text = Option CString
Val Kind.ether = List ℕ
Val Kind.dev = ℕ × ℕ
Val Kind.report = CString

module _ ⦃os : Os⦄ where
  get_string : CString → CString → CString → Io (Option CString)
  get_string path name attr = do s ← read_string_alloc path name attr; return (some s)

  abbrev parsed_ether : Option (List ℕ) → Io (List ℕ)
  parsed_ether none = fail Error.io
  parsed_ether (some a) = return a

  unfoldable pub get_ether_addr : CString → CString → CString → Io (List ℕ)
  get_ether_addr path name attr = do
    s ← read_string_limited path name attr max_str_length
    parsed_ether (ether_aton_r s)

  unfoldable pub set_ether_addr : CString → CString → CString → List ℕ → Io (Unit {0})
  set_ether_addr path name attr a = write_string path name attr (some (ether_ntoa_r a))

  -- `makedev` of the two numbers.
  abbrev device : Option (ℤ × ℤ) → Io (ℕ × ℕ)
  device none = fail invalid_value
  device (some (major, minor)) = return (to_unsigned 32 major, to_unsigned 32 minor)

  unfoldable pub get_dev : CString → CString → CString → Io (ℕ × ℕ)
  get_dev path name attr = do
    s ← read_string_limited path name attr max_str_length
    device (scan_pair s)

  -- The descriptor's length is the number of bytes read. An empty one is not allocated.
  unfoldable pub hid_get_report : CString → CString → CString → Io CString
  hid_get_report path name attr = do
    buf ← read_buf path name attr
    if not (ltb 0 (length buf)) then return [] else do allocate no_mem; return buf

  -- In place of an empty descriptor one NUL is written.
  unfoldable pub hid_set_report : CString → CString → CString → CString → Io (Unit {0})
  hid_set_report path name attr [] = do n ← write_buf path name attr (0 ∷ []); return tt
  hid_set_report path name attr (x ∷ s) = do n ← write_buf path name attr (x ∷ s); return tt

  -- `.get` of an attribute of this type.
  unfoldable pub get_value : (k : Kind) → CString → CString → CString → Io (Val k)
  unfolding get_string
  get_value Kind.dec = read_dec
  get_value Kind.boolean = read_bool
  get_value Kind.text = get_string
  get_value Kind.ether = get_ether_addr
  get_value Kind.dev = get_dev
  get_value Kind.report = hid_get_report

  -- `.set`, which is NULL for a device.
  unfoldable pub set_value : (k : Kind) → CString → CString → CString → Val k → M (Unit {0})
  set_value Kind.dec path name attr v = io (write_dec path name attr v)
  set_value Kind.boolean path name attr v = io (write_bool path name attr v)
  set_value Kind.text path name attr v = io (write_string path name attr v)
  set_value Kind.ether path name attr v = io (set_ether_addr path name attr v)
  set_value Kind.dev path name attr v = λ m. fault
  set_value Kind.report path name attr v = io (hid_set_report path name attr v)
