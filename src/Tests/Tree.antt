-- ===== src/Tests/Tree.antt =====
-- Trees of settings in the file system of Configfs: a setting is a path, and a file there has its
-- type and its value.
use libusbgx.Base.{Bool, true, false, [], ◌∷◌, Option, none, some, ◌==◌, if◌then◌else◌, length}
use libusbgx.Base.Int.{ℤ, pos, negsuc}
use libusbgx.CStr.{CString, c}
use libusbgx.Libconfig.{
  Libconfig, SettingType, type_int, type_string, type_bool, type_list, type_group,
}
use libusbgx.Tests.Configfs.{configfs, Disk, file, find, put, sub, children, content, with_nodes}

abbrev type_text : SettingType → CString
type_text type_int = c "i"
type_text type_bool = c "b"
type_text type_string = c "s"
type_text type_list = c "l"
type_text _ = c "g"

abbrev text_type : CString → SettingType
text_type [] = type_group
text_type (x ∷ s) =
    if x == b'i'
    then type_int
    else if x == b'b'
    then type_bool
    else if x == b's'
    then type_string
    else if x == b'l'
    then type_list
    else type_group

-- The type of a node, then whether the number is negative, and the number.
abbrev number_text : ℤ → CString
number_text (pos n) = b'i' ∷ 1 ∷ n ∷ []
number_text (negsuc n) = b'i' ∷ 2 ∷ n ∷ []

abbrev text_number : CString → ℤ
text_number (i ∷ sign ∷ n ∷ s) = if sign == 1 then pos n else negsuc n
text_number _ = pos 0

abbrev text_string : CString → Option CString
text_string (i ∷ s) = some s
text_string [] = none

abbrev given_text : Option CString → CString
given_text none = []
given_text (some s) = s

abbrev text_at : CString → Disk → CString
text_at p d = content (find p d.nodes)

abbrev member_at : CString → Disk → Option CString
member_at p d = elim (find p d.nodes) [ none ↦ none | some _ ↦ some p ]

abbrev with_text : CString → CString → Disk → Bool × Disk
with_text p s d = (true, with_nodes d (put p (file s) d.nodes))

abbrev member_name : Option CString → CString → Disk → CString
member_name (some (x ∷ s)) p d = x ∷ s
member_name _ p d = length (children p d.nodes) ∷ []

instance abbrev pub tree : Libconfig configfs
tree = record {
  Setting = CString;
  get_member = λ p name d. member_at (sub p name) d;
  get_elem = λ p i d. member_at (sub p (i ∷ [])) d;
  length = λ p d. length (children p d.nodes);
  type = λ p d. text_type (text_at p d);
  get_int = λ p d. text_number (text_at p d);
  get_bool = λ p d. false;
  get_string = λ p d. text_string (text_at p d);
  name = λ p d. some p;
  add = λ p name t d.
      let q = sub p (member_name name p d) in
      (some q, with_nodes d (put q (file (type_text t)) d.nodes));
  set_int = λ p v d. with_text p (number_text v) d;
  set_bool = λ p v d. with_text p (c "b") d;
  set_string = λ p s d. with_text p (b's' ∷ given_text s) d;
  set_format_hex = λ p d. (true, d);
  init = λ d. (1, d);
  read = λ t fp d. elim (text_at fp d) [ [] ↦ (false, d) | x ∷ s ↦ (true, d) ];
  write = λ t fp d. (true, d);
  root_setting = λ t d. c "g";
  error_text = λ t d. some (c "syntax error");
  error_line = λ t d. pos 1;
  destroy = λ t d. d;
}
