-- ===== src/Funcs/Luns.antt =====
-- src/function/ms.c: which LUNs of a mass storage function exist, and their directories. The
-- array `luns` is kept in the function and filled from the directories when it is first wanted.
pub mod Mask
pub mod Names
pub mod Change
pub mod Refine
use libusbgx.Base.{
  ℕ, zero, suc, ◌+◌, Bool, true, false, not, ◌&&◌, List, [], ◌∷◌, ◌++◌, Option, none, some,
  get_elem?, length, ltb, if◌then◌else◌,
}
use libusbgx.Base.Int.{ℤ, pos, negsuc}
use libusbgx.CStr.{CString, c}
use libusbgx.Error.{UsbgError, invalid_param, exist, path_too_long}
use libusbgx.Files.{join, fits, file_select, scandir}
use libusbgx.Funcs.Attrs.{Attr, Fields, Union, Value, get_fields, set_fields, get_field, set_field}
use libusbgx.Funcs.Scan.{Scanned, matched, mismatched, eof, scan_behind}
use libusbgx.Funcs.Tables.{bool_attr, string_attr}
use libusbgx.Heap.{Ptr, Function}
use libusbgx.Heap.Monad.{
  M, Run, returned, raised, fault, return, raise, require, io, load, store, function_at, on_error,
  ignored, ◌>>=◌, ◌>>◌,
}
use libusbgx.Num.{print_int, print_nat}
use libusbgx.Objects.{max_luns}
use libusbgx.Os.{Os, Dirent}
use libusbgx.Os.Io.{call, ignore}

-- `ms_lun_attr`
abbrev pub ms_lun_attr : List Attr
ms_lun_attr =
    bool_attr (c "cdrom")
    ∷ bool_attr (c "ro")
    ∷ bool_attr (c "nofua")
    ∷ bool_attr (c "removable")
    ∷ string_attr (c "file")
    ∷ string_attr (c "inquiry_string")
    ∷ []

-- `struct usbg_f_ms_lun_attrs`
pub record LunAttrs : Type 0 where
  pub id : ℤ
  pub attrs : Fields ms_lun_attr

-- `luns[i] = b`
unfoldable pub set_lun : ℕ → Bool → List Bool → List Bool
set_lun i b [] = []
set_lun zero b (x ∷ xs) = b ∷ xs
set_lun (suc i) b (x ∷ xs) = x ∷ set_lun i b xs

-- `luns[i]`, for an index below the length.
abbrev pub lun_of : List Bool → ℕ → Bool
lun_of [] i = false
lun_of (x ∷ xs) zero = x
lun_of (x ∷ xs) (suc i) = lun_of xs i

unfoldable pub scan_lun : CString → Scanned
scan_lun name = scan_behind (c "lun.") name

-- EOF is not 0, so a name that ends before the number is selected too.
abbrev lun_select : Dirent → Bool
lun_select d = file_select d && (elim (scan_lun d.name) [ mismatched ↦ false | _ ↦ true ])

-- "%s/%s/lun.%d/"
unfoldable pub lun_path : Function → ℤ → CString
lun_path f id = join (join f.path f.name) (c "lun." ++ print_int id ++ b'/' ∷ [])

module _ ⦃os : Os⦄ where
  -- The loop of `init_luns`. An index out of bounds, or none, is a fault. The order of the names,
  -- which `lun_sort` gives them, makes no difference.
  unfoldable pub mark_luns : List CString → List Bool → M (List Bool)
  mark_luns [] luns = return luns
  mark_luns (n ∷ ns) luns = elim (scan_lun n) [
    | matched (pos id) ↦ if ltb id max_luns then mark_luns ns (set_lun id true luns) else λ m. fault
    | _ ↦ λ m. fault
  ]

  unfoldable pub init_luns : Ptr → M (Unit {0})
  unfolding scan_lun scandir mark_luns
  init_luns ms = do
    func ← load function_at ms
    require (fits (join (join func.path func.name) [])) path_too_long
    names ← io (scandir lun_select (join (join func.path func.name) []))
    luns ← mark_luns names func.luns
    store function_at ms (record func { luns = luns })

  -- The array is said to be filled if the directory could be read; otherwise it is used as it is.
  set_initiated : Ptr → M (Unit {0})
  set_initiated ms = do
    func ← load function_at ms
    store function_at ms (record func { luns_initiated = true })

  unfoldable pub get_lun_mask : Ptr → M (List Bool)
  unfolding init_luns set_initiated
  get_lun_mask ms = do
    func ← load function_at ms
    if func.luns_initiated then return tt else ignored (do init_luns ms; set_initiated ms)
    filled ← load function_at ms
    return filled.luns

  -- `luns[lun_id]` with an `int`: a negative index is an access out of bounds.
  unfoldable pub lun_at : List Bool → ℤ → M Bool
  lun_at luns (negsuc n) = λ m. fault
  lun_at luns (pos i) = elim (get_elem? luns i) [ none ↦ λ m. fault | some b ↦ return b ]

  unfoldable pub write_lun : Ptr → ℤ → Bool → M (Unit {0})
  unfolding set_lun
  write_lun mf (negsuc n) b = λ m. fault
  write_lun mf (pos i) b = do
    func ← load function_at mf
    store function_at mf (record func { luns = set_lun i b func.luns })

  -- `lun_id >= MAX_LUNS`
  abbrev pub is_lun_id : ℤ → Bool
  is_lun_id (negsuc n) = true
  is_lun_id (pos i) = ltb i max_luns

  unfoldable pub get_lun_attrs : Ptr → ℤ → M LunAttrs
  unfolding lun_path
  get_lun_attrs mf lun_id = do
    func ← load function_at mf
    require (fits (lun_path func lun_id)) path_too_long
    attrs ← get_fields (lun_path func lun_id) [] ms_lun_attr
    return (record { id = lun_id; attrs = attrs })

  unfoldable pub set_lun_attrs : Ptr → ℤ → LunAttrs → M (Unit {0})
  unfolding lun_path
  set_lun_attrs mf lun_id lattrs = do
    func ← load function_at mf
    require (fits (lun_path func lun_id)) path_too_long
    set_fields (lun_path func lun_id) [] ms_lun_attr lattrs.attrs

  unfoldable pub get_lun_attr_val : Ptr → ℤ → ℕ → M Value
  unfolding lun_path
  get_lun_attr_val mf lun_id lattr = do
    func ← load function_at mf
    require (fits (lun_path func lun_id)) path_too_long
    get_field (lun_path func lun_id) [] ms_lun_attr lattr

  unfoldable pub set_lun_attr_val : Ptr → ℤ → ℕ → Union → M (Unit {0})
  unfolding lun_path
  set_lun_attr_val mf lun_id lattr val = do
    func ← load function_at mf
    require (fits (lun_path func lun_id)) path_too_long
    set_field (lun_path func lun_id) [] ms_lun_attr lattr val

  -- `if (lattrs) ...`
  pub set_lun_attrs_if : Ptr → ℤ → Option LunAttrs → M (Unit {0})
  unfolding set_lun_attrs
  set_lun_attrs_if mf lun_id none = return tt
  set_lun_attrs_if mf lun_id (some lattrs) = set_lun_attrs mf lun_id lattrs

  unfoldable pub create_lun : Ptr → ℤ → Option LunAttrs → M (Unit {0})
  unfolding get_lun_mask lun_at write_lun lun_path set_lun_attrs_if
  create_lun mf lun_id lattrs = do
    require (is_lun_id lun_id) invalid_param
    luns ← get_lun_mask mf
    there ← lun_at luns lun_id
    require (not there) exist
    func ← load function_at mf
    let lpath = lun_path func lun_id
    require (fits lpath) path_too_long
    io (call (os.mkdir lpath))
    on_error (set_lun_attrs_if mf lun_id lattrs) (io (ignore (os.rmdir lpath)))
    write_lun mf lun_id true

  unfoldable pub rm_lun : Ptr → ℤ → M (Unit {0})
  unfolding get_lun_mask lun_at write_lun lun_path
  rm_lun mf lun_id = do
    require (is_lun_id lun_id) invalid_param
    luns ← get_lun_mask mf
    there ← lun_at luns lun_id
    require there invalid_param
    func ← load function_at mf
    let lpath = lun_path func lun_id
    require (fits lpath) path_too_long
    io (call (os.rmdir lpath))
    write_lun mf lun_id false
