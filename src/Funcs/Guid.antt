-- ===== src/Funcs/Guid.antt =====
-- GUIDs as texts: usbg_write_guid of usbg_common.c, and the text that usbg_set_config_node_guid
-- makes (usbg_common_libconfig.c).
pub mod RoundTrip
use libusbgx.Base.{
  ℕ, Bool, true, false, List, [], ◌∷◌, ◌++◌, Option, none, some, take, length, ◌-◌, ◌==◌, ◌||◌,
  if◌then◌else◌,
}
use libusbgx.CStr.{CString, c}
use libusbgx.Error.{invalid_param}
use libusbgx.Files.{write_buf}
use libusbgx.Num.{strtol, skip_space, to_unsigned, print_hex}
use libusbgx.Os.{Os}
use libusbgx.Os.Io.{Io, return, fail, check, ◌>>=◌, ◌>>◌}

abbrev pub guid_bin_length : ℕ
guid_bin_length = 16

abbrev pub guid_char_length : ℕ
guid_char_length = 36

-- The fields of a GUID, each with whether a dash stands in front of it.
abbrev pub guid_fields : List Bool
guid_fields =
    false ∷ false ∷ false ∷ false ∷ true ∷ false ∷ true ∷ false ∷ true ∷ false ∷ true ∷ false
    ∷ false ∷ false ∷ false ∷ false ∷ []

abbrev starts_with_x : CString → Bool
starts_with_x [] = false
starts_with_x (x ∷ s) = x == b'x' || x == b'X'

-- Behind the first two bytes.
abbrev behind_two : CString → CString
behind_two (x ∷ y ∷ s) = s
behind_two _ = []

-- "%02hhx": at most two bytes of a number in base 16. Only "0x" is no number.
unfoldable pub scan_byte : CString → Option (ℕ × CString)
scan_byte text =
    let s = skip_space text in
    let p = strtol 16 (take 2 s) in
    if length p.rest == length (take 2 s) || starts_with_x p.rest
    then none
    else some (to_unsigned 8 p.value, p.rest ++ behind_two s)

abbrev after_dash : Bool → CString → Option CString
after_dash false s = some s
after_dash true [] = none
after_dash true (x ∷ s) = if x == b'-' then some s else none

-- `sscanf` with the format of a GUID, if all fields are converted.
unfoldable pub scan_guid : List Bool → CString → Option (List ℕ)
scan_guid [] s = some []
scan_guid (dash ∷ fields) s = elim (after_dash dash s) [
  | none ↦ none
  | some t ↦ elim (scan_byte t) [
    | none ↦ none
    | some (b, rest) ↦ elim (scan_guid fields rest) [ none ↦ none | some bs ↦ some (b ∷ bs) ]
  ]
]

abbrev dashed : Bool → CString → CString
dashed true s = b'-' ∷ s
dashed false s = s

-- `snprintf` with "%02x" for each byte and the dashes.
unfoldable pub print_guid : List Bool → List ℕ → CString
print_guid [] bs = []
print_guid (dash ∷ fields) [] = []
print_guid (dash ∷ fields) (b ∷ bs) = dashed dash (print_hex 2 b ++ print_guid fields bs)

module _ ⦃os : Os⦄ where
  -- The bytes are written to the file of the attribute.
  write_bytes : CString → CString → CString → Option (List ℕ) → Io (Unit {0})
  write_bytes path name file none = fail invalid_param
  write_bytes path name file (some bytes) = do n ← write_buf path name file bytes; return tt

  -- The text is not NULL.
  unfoldable pub write_guid : CString → CString → CString → CString → Io (Unit {0})
  unfolding scan_guid write_bytes
  write_guid path name file buf = do
    check (length buf == guid_char_length) invalid_param
    write_bytes path name file (scan_guid guid_fields buf)
