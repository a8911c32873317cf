-- ===== src/Funcs/Uvc/Formats.antt =====
-- src/function/uvc.c: the attributes of a format.
use libusbgx.Base.{ℕ, zero, suc, List, [], ◌∷◌, Option, none, some, get_elem?}
use libusbgx.Base.Int.{ℤ}
use libusbgx.CStr.{CString, c}
use libusbgx.Error.{path_too_long}
use libusbgx.Files.{fits, read_dec, write_dec, read_buf_alloc}
use libusbgx.Funcs.Guid.{guid_bin_length, write_guid}
use libusbgx.Funcs.Uvc.{format_path}
use libusbgx.Heap.{Ptr}
use libusbgx.Heap.Monad.{M, fault, return, require, io, load, function_at, ◌>>=◌, ◌>>◌}
use libusbgx.Os.{Os}

-- UVC_DEC_ATTR, UVC_DEC_ATTR_RO and UVC_GUID_ATTR
pub data FormatKind : Type 0 where
  number number_ro guid : FormatKind

pub record FormatAttr : Type 0 where
  pub name : CString
  pub kind : FormatKind

-- `uvc_format_attr`, in the order of its enumeration.
abbrev pub uvc_format_attr : List FormatAttr
uvc_format_attr =
    record { name = c "bmaControls"; kind = number_ro }
    ∷ record { name = c "bmInterlaceFlags"; kind = number_ro }
    ∷ record { name = c "bAspectRatioY"; kind = number_ro }
    ∷ record { name = c "bAspectRatioX"; kind = number_ro }
    ∷ record { name = c "bDefaultFrameIndex"; kind = number }
    ∷ record { name = c "bFormatIndex"; kind = number_ro }
    ∷ record { name = c "bBitsPerPixel"; kind = number }
    ∷ record { name = c "guidFormat"; kind = guid }
    ∷ []

-- USBG_F_UVC_FORMAT_ATTR_MAX
abbrev pub format_attr_max : ℕ
format_attr_max = 8

-- `union usbg_f_uvc_format_attr_val`: what its members read as. A text may be NULL.
pub record FormatUnion : Type 0 where
  pub number_val : ℤ
  pub text_val : Option CString

-- A value that was read: a number, or the bytes of a GUID.
pub data FormatVal : Type 0 where
  number_of : ℤ → FormatVal
  guid_of : CString → FormatVal

module _ ⦃os : Os⦄ where
  -- The count of a short read is passed on as if it were an error code, and an empty file leaves
  -- the value as it was. Neither is a value or an error: a GUID has all its bytes or faults.
  usbg_get_guid : CString → CString → CString → M FormatVal
  usbg_get_guid path name attr = do
    bytes ← io (read_buf_alloc path name attr guid_bin_length)
    elim bytes [ none ↦ λ m. fault | some b ↦ return (guid_of b) ]

  -- `.get`
  get_by : FormatKind → CString → CString → CString → M FormatVal
  unfolding usbg_get_guid
  get_by number path name attr = do z ← io (read_dec path name attr); return (number_of z)
  get_by number_ro path name attr = do z ← io (read_dec path name attr); return (number_of z)
  get_by guid path name attr = usbg_get_guid path name attr

  usbg_set_guid : CString → CString → CString → Option CString → M (Unit {0})
  usbg_set_guid path name attr none = λ m. fault
  usbg_set_guid path name attr (some buf) = io (write_guid path name attr buf)

  -- `.set`, which is NULL for an attribute that is read only.
  set_by : FormatKind → CString → CString → CString → FormatUnion → M (Unit {0})
  unfolding usbg_set_guid
  set_by number path name attr v = io (write_dec path name attr v.number_val)
  set_by number_ro path name attr v = λ m. fault
  set_by guid path name attr v = usbg_set_guid path name attr v.text_val

  -- An enumerator beyond the table is an access out of bounds.
  unfoldable pub get_format_attr_val : Ptr → CString → ℕ → M FormatVal
  unfolding format_path get_by
  get_format_attr_val uvcf format fattr = do
    func ← load function_at uvcf
    require (fits (format_path func format)) path_too_long
    elim (get_elem? uvc_format_attr fattr) [
      | none ↦ λ m. fault
      | some e ↦ get_by e.kind (format_path func format) [] e.name
    ]

  unfoldable pub set_format_attr_val : Ptr → CString → ℕ → FormatUnion → M (Unit {0})
  unfolding format_path set_by
  set_format_attr_val uvcf format fattr val = do
    func ← load function_at uvcf
    require (fits (format_path func format)) path_too_long
    elim (get_elem? uvc_format_attr fattr) [
      | none ↦ λ m. fault
      | some e ↦ set_by e.kind (format_path func format) [] e.name val
    ]

  -- The loops, for `n` enumerators from `i` on.
  unfoldable pub get_format_each : Ptr → CString → ℕ → ℕ → M (List FormatVal)
  get_format_each uvcf format zero i = return []
  get_format_each uvcf format (suc n) i = do
    v ← get_format_attr_val uvcf format i
    rest ← get_format_each uvcf format n (suc i)
    return (v ∷ rest)

  unfoldable pub get_format_attrs : Ptr → CString → M (List FormatVal)
  unfolding get_format_each
  get_format_attrs uvcf format = get_format_each uvcf format format_attr_max 0

  -- `fattrs` is what the structure reads as at the offset of each.
  unfoldable pub set_format_each : Ptr → CString → (ℕ → FormatUnion) → ℕ → ℕ → M (Unit {0})
  set_format_each uvcf format fattrs zero i = return tt
  set_format_each uvcf format fattrs (suc n) i = do
    set_format_attr_val uvcf format i (fattrs i)
    set_format_each uvcf format fattrs n (suc i)

  unfoldable pub set_format_attrs : Ptr → CString → (ℕ → FormatUnion) → M (Unit {0})
  unfolding set_format_each
  set_format_attrs uvcf format fattrs = set_format_each uvcf format fattrs format_attr_max 0
