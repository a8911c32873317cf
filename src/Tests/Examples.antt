-- ===== src/Tests/Examples.antt =====
-- The theorems at concrete inputs: texts and lists.
use mathlib.Core.List.{Perm}
use libusbgx.Base.{◌≡◌, ◌↔◌, refl, true, [], ◌∷◌, ◌++◌, some, arith}
use libusbgx.CStr.{CString, c, strcmp}
use libusbgx.Files.{read_string_limited}
use libusbgx.Files.Laws.{IsLine, read_string_limited-IsLine}
use libusbgx.Names.{
  found, lookup_function_type, lookup_gadget_attr, lookup_gadget_str, get_function_type_str,
  get_gadget_attr_str, get_gadget_str_name,
}
use libusbgx.Names.Laws.{lookup_iff}
use libusbgx.Os.Io.{ok}
use libusbgx.Split.{
  split_function_instance_type, split_config_label_id, function_dir_name, config_dir_name,
}
use libusbgx.Split.RoundTrip.{
  split_config_label_id-config_dir_name, split_function_instance_type-function_dir_name,
}
use libusbgx.Tailq.{insert_string_order}
use libusbgx.Tailq.Order.{IsSorted, insert_string_order-perm, insert_string_order-IsSorted}
use libusbgx.Tests.Configfs.{configfs, Disk, file, start_disk, norm, find}

-- 2 ^ 32 + 1, too large for an id, is read as 1.
split_config_label_id-config_dir_name_example :
    split_config_label_id (config_dir_name (c "c") 4294967297) start_disk
    ≡ (ok (c "c", 1), start_disk)
split_config_label_id-config_dir_name_example =
    split_config_label_id-config_dir_name start_disk refl (c "c") 4294967297 (ground arith)
      (omega arith) (omega arith)

split_function_instance_type-function_dir_name_example :
    split_function_instance_type (function_dir_name (c "ecm") (c "usb.0")) start_disk
    ≡ (ok (3, c "usb.0"), start_disk)
unfolding get_function_type_str
split_function_instance_type-function_dir_name_example =
    split_function_instance_type-function_dir_name start_disk refl 3 (c "ecm") (c "usb.0") refl
      (ground arith)

abbrev itself : CString → CString
itself s = s

insert_string_order-perm_example :
    Perm (insert_string_order itself (c "b") (c "c" ∷ c "a" ∷ [])) (c "b" ∷ c "c" ∷ c "a" ∷ [])
insert_string_order-perm_example = insert_string_order-perm itself (c "b") (c "c" ∷ c "a" ∷ [])

sorted : IsSorted itself (c "a" ∷ c "c" ∷ [])
unfolding strcmp
sorted = ((ground arith, tt), (tt, tt))

insert_string_order-IsSorted_example :
    IsSorted itself (insert_string_order itself (c "b") (c "a" ∷ c "c" ∷ []))
insert_string_order-IsSorted_example =
    insert_string_order-IsSorted itself (c "b") (c "a" ∷ c "c" ∷ []) sorted

lookup_iff_example :
    ((lookup_function_type (some (c "ffs")) ≡ found 9) ↔ (get_function_type_str 9 ≡ some (c "ffs")))
    × ((lookup_gadget_attr (some (c "ffs")) ≡ found 9) ↔ (get_gadget_attr_str 9 ≡ some (c "ffs")))
    × ((lookup_gadget_str (some (c "ffs")) ≡ found 9) ↔ (get_gadget_str_name 9 ≡ some (c "ffs")))
lookup_iff_example = lookup_iff (c "ffs") 9

-- A UDC file with a newline at its end.
abbrev udc_disk : Disk
udc_disk = record { nodes = (c "/g/UDC", file (c "dummy" ++ b'\n' ∷ [])) ∷ []; memory = true }

udc_content :
    read_string_limited (c "/") (c "g") (c "UDC") 256 udc_disk ≡ (ok (c "dummy"), udc_disk)
unfolding read_string_limited norm find strcmp
udc_content = refl

read_string_limited-IsLine_example : IsLine 256 (c "dummy")
read_string_limited-IsLine_example =
    read_string_limited-IsLine udc_disk (c "/") (c "g") (c "UDC") 256 (omega arith) udc_content
