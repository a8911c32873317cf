-- ===== src/Split.antt =====
-- usbg.c, the names of function and configuration directories: `<type>.<instance>` and
-- `<label>.<id>`, taken apart, and put together as `usbg_init_function` and
-- `usbg_allocate_config` do.
pub mod RoundTrip
use libusbgx.Base.{
  ℕ, suc, Bool, true, false, not, ◌&&◌, ◌||◌, List, [], ◌∷◌, ◌++◌, Option, none, some, leb,
  if◌then◌else◌,
}
use libusbgx.Base.Int.{ℤ, pos, negsuc}
use libusbgx.CStr.{CString, strchr, strrchr, isspace}
use libusbgx.Error.{UsbgError, invalid_param, no_mem, not_supported, translate_error, erange}
use libusbgx.Names.{Found, found, failed, lookup_function_type}
use libusbgx.Num.{Parsed, strtol, to_int, print_nat}
use libusbgx.Os.{Os}
use libusbgx.Os.Io.{Io, Res, ok, err, allocate, from_res, fail, check, ◌>>=◌, ◌>>◌}

-- "%s.%s" of `usbg_init_function`.
unfoldable pub function_dir_name : CString → CString → CString
function_dir_name type_name instance = type_name ++ b'.' ∷ instance

-- "%s.%d" of `usbg_allocate_config`.
unfoldable pub config_dir_name : CString → ℕ → CString
config_dir_name label id = label ++ b'.' ∷ print_nat id

abbrev is_empty : CString → Bool
is_empty [] = true
is_empty (x ∷ s) = false

abbrev type_of : Found → Res ℕ
type_of (found i) = ok i
type_of (failed e) = err not_supported

abbrev starts_with_space : CString → Bool
starts_with_space [] = false
starts_with_space (x ∷ s) = isspace x

-- The number behind the dot: `ret = strtol(...)` narrows the `long` to an `int`, and the range is
-- checked on the `int`.
id_in_range : ℤ → CString → Res ℕ
id_in_range (pos n) [] = if leb n 255 then ok n else err invalid_param
id_in_range _ _ = err invalid_param

parse_id : Parsed → Res ℕ
unfolding id_in_range
parse_id p =
    if p.range then err (translate_error (pos erange)) else id_in_range (to_int p.value) p.rest

module _ ⦃os : Os⦄ where
  -- The type, as an index, and the instance.
  split_type : CString → CString → Io (ℕ × CString)
  split_type type_name instance = do
    allocate no_mem
    type ← from_res (type_of (lookup_function_type (some type_name)))
    from_res (ok (type, instance))

  unfoldable pub split_function_instance_type : CString → Io (ℕ × CString)
  unfolding split_type
  split_function_instance_type full_name = elim (strchr b'.' full_name) [
    | none ↦ fail invalid_param
    | some (type_name, instance) ↦
        if is_empty type_name || is_empty instance
        then fail invalid_param
        else split_type type_name instance
  ]

  split_label : CString → CString → Io (CString × ℕ)
  split_label label id_string = do
    allocate invalid_param
    id ← from_res (parse_id (strtol 10 id_string))
    from_res (ok (label, id))

  -- The label and the id, which may be 0.
  unfoldable pub split_config_label_id : CString → Io (CString × ℕ)
  unfolding split_label parse_id
  split_config_label_id full_name = elim (strrchr b'.' full_name) [
    | none ↦ fail invalid_param
    | some (label, id_string) ↦
        if is_empty label || is_empty id_string || starts_with_space id_string
        then fail invalid_param
        else split_label label id_string
  ]
