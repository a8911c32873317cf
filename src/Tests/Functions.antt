-- ===== src/Tests/Functions.antt =====
-- The theorems on functions and their attributes at concrete inputs.
use libusbgx.Base.{
  ◌≡◌, refl, ◌⊎◌, ℕ, Bool, true, false, List, [], ◌∷◌, ◌++◌, none, some, map, arith, ◌&&◌, ltb,
}
use libusbgx.Base.Int.{pos, negsuc}
use libusbgx.CStr.{CString, c, strcmp}
use libusbgx.Error.{invalid_param}
use libusbgx.Files.{read_buf_limited, write_buf}
use libusbgx.Files.Laws.Lines.{Holds, take-length}
use libusbgx.Funcs.Attrs.{Fields, Union}
use libusbgx.Funcs.Ether.{ether_ntoa_r, ether_aton_r}
use libusbgx.Funcs.Ether.RoundTrip.{ether_aton_r-ether_ntoa_r}
use libusbgx.Funcs.Luns.{LunAttrs, lun_of, mark_luns}
use libusbgx.Num.{print_int, print_nat}
use libusbgx.Objects.{no_formats, no_luns}
use libusbgx.Funcs.Luns.Mask.{IsMs}
use libusbgx.Funcs.Luns.Names.{lun_name, Marked, mark_luns-Marked}
use libusbgx.Funcs.Luns.Refine.{create, remove, Steps, Stands, run_calls, run_calls-Refines}
use libusbgx.Funcs.Ms.{MsAttrs, count_luns, ms_get_attrs, ms_set_attrs}
use libusbgx.Funcs.Ms.SetAttrs.{ms_set_attrs_only, ms_set_attrs-only}
use libusbgx.Funcs.Ms.Sparse.{ms_get_attrs-Sparse}
use libusbgx.Funcs.Tables.{hid_attr, net_attr, get_attrs, set_attrs, set_attr_val}
use libusbgx.Funcs.Tables.Frame.{set_attrs-Keeps, set_attr_val-Keeps}
use libusbgx.Funcs.Tables.ReadBack.{get_attrs-AreStored}
use libusbgx.Funcs.Values.Held.{held, held_dev}
use libusbgx.Funcs.Values.{Kind, get_value, set_value}
use libusbgx.Funcs.Values.ReadBack.{stored_dec, stored_report, get_value-set_value}
use libusbgx.Heap.{Function, Heap}
use libusbgx.Heap.Keeps.{mem_at, Keeps}
use libusbgx.Heap.Monad.{update, returned, raised, function_at, io}
use libusbgx.Heap.Post.{Post, Live}
use libusbgx.Heap.Returned.{IfReturned}
use libusbgx.Os.Io.{ok, return, ◌>>=◌}
use libusbgx.Tests.Configfs.{configfs, Disk, Node, file, norm, find}
use libusbgx.Tests.Structures

-- A mass storage with the LUNs 0, 2 and 3.
abbrev ms : Function
ms = record {
  parent = 2;
  name = c "mass_storage.0";
  path = c "/f";
  instance_name = c "0";
  label = none;
  type = 10;
  luns =
      true ∷ false ∷ true ∷ true ∷ false ∷ false ∷ false ∷ false ∷ false ∷ false ∷ false ∷ false
      ∷ false ∷ false ∷ false ∷ false ∷ [];
  luns_initiated = true;
  formats = no_formats;
  formats_initiated = false;
}

-- With the LUNs 0 and 5.
abbrev sparse : Function
sparse = record ms {
  luns =
      true ∷ false ∷ false ∷ false ∷ false ∷ true ∷ false ∷ false ∷ false ∷ false ∷ false ∷ false
      ∷ false ∷ false ∷ false ∷ false ∷ [];
}

abbrev loopback : Function
loopback = record ms { name = c "Loopback.0"; type = 12 }

abbrev ecm : Function
ecm = record ms { name = c "ecm.0"; type = 3 }

abbrev hid : Function
hid = record ms { name = c "hid.0"; type = 13 }

abbrev heap : Heap
heap = record Structures.heap {
  functions =
      update
        (update (update (update (update (λ _. none) 6 (some ms)) 7 (some loopback)) 8 (some ecm)) 9
          (some sparse))
        10 (some hid);
}

abbrev line : CString → Node
line s = file (s ++ b'\n' ∷ [])

abbrev disk : Disk
disk = record {
  nodes = (c "/f/Loopback.0/buflen", line (c "-3")) ∷ (c "/f/Loopback.0/qlen", line (c "32")) ∷ [];
  memory = true;
}

ms-Live : Live function_at heap 6 ms
ms-Live = record { ne_null = ground arith; holds = refl }

hid-Live : Live function_at heap 10 hid
hid-Live = record { ne_null = ground arith; holds = refl }

ecm-Live : Live function_at heap 8 ecm
ecm-Live = record { ne_null = ground arith; holds = refl }

ms-IsMs : IsMs heap 6 ms
ms-IsMs = record { live = ms-Live; initiated = refl; sized = refl }

sparse-IsMs : IsMs heap 9 sparse
sparse-IsMs = record {
  live = record { ne_null = ground arith; holds = refl };
  initiated = refl;
  sized = refl;
}

ether_aton_r-ether_ntoa_r_example :
    ether_aton_r (ether_ntoa_r (0 ∷ 0x1b ∷ 0x21 ∷ 0xff ∷ 9 ∷ 0x80 ∷ []))
    ≡ some (0 ∷ 0x1b ∷ 0x21 ∷ 0xff ∷ 9 ∷ 0x80 ∷ [])
ether_aton_r-ether_ntoa_r_example =
    ether_aton_r-ether_ntoa_r (0 ∷ 0x1b ∷ 0x21 ∷ 0xff ∷ 9 ∷ 0x80 ∷ []) refl
      (omega arith, (omega arith, (omega arith, (omega arith, (omega arith, (omega arith, tt))))))

run_calls-Refines_example :
    Post
      (λ bs n.
        (t : ℕ → Bool) × Steps (lun_of ms.luns) (create 1 ∷ create 1 ∷ remove 2 ∷ []) bs t
        × Stands n.heap 6 t)
      (λ _ _. ⊥)
      (run_calls 6 (create 1 ∷ create 1 ∷ remove 2 ∷ []) (mem_at heap disk))
run_calls-Refines_example =
    run_calls-Refines 6 disk (create 1 ∷ create 1 ∷ remove 2 ∷ [])
      (record { func = ms; ms = ms-IsMs; same = λ j. refl })

-- A text of three bytes in a file that can be read.
pub no_error : (b : Bool) → (b && false) ≡ false
no_error true = refl
no_error false = refl

buflen-Holds : Holds (c "/f") (c "Loopback.0") (c "buflen") (c "-3\n") disk
unfolding read_buf_limited norm find strcmp
buflen-Holds len h = rw (take-length len (c "-3\n") h, no_error (ltb 3 len)) refl

get_value-set_value_example :
    (set_value Kind.dec (c "/f") (c "Loopback.0") (c "buflen") (negsuc 2) (mem_at heap disk)
      ≡ io
          (do n ← write_buf (c "/f") (c "Loopback.0") (c "buflen") (c "-3\n"); return tt)
          (mem_at heap disk))
    × (get_value Kind.dec (c "/f") (c "Loopback.0") (c "buflen") disk ≡ (ok (negsuc 2), disk))
unfolding print_int
get_value-set_value_example =
    get_value-set_value (c "/f") (c "Loopback.0") (c "buflen") disk refl heap
      (stored_dec (negsuc 2) (omega arith)) buflen-Holds

-- The files of a HID function.
abbrev hid_disk : Disk
hid_disk = record {
  nodes =
      (c "/f/hid.0/dev", line (c "252:3"))
      ∷ (c "/f/hid.0/protocol", line (c "1"))
      ∷ (c "/f/hid.0/report_desc", file (5 ∷ 1 ∷ 9 ∷ []))
      ∷ (c "/f/hid.0/report_length", line (c "8"))
      ∷ (c "/f/hid.0/subclass", line (c "-3"))
      ∷ [];
  memory = true;
}

hid_dev-Holds : Holds (c "/f") (c "hid.0") (c "dev") (c "252:3\n") hid_disk
unfolding read_buf_limited norm find strcmp
hid_dev-Holds len h = rw (take-length len (c "252:3\n") h, no_error (ltb 6 len)) refl

hid_protocol-Holds : Holds (c "/f") (c "hid.0") (c "protocol") (c "1\n") hid_disk
unfolding read_buf_limited norm find strcmp
hid_protocol-Holds len h = rw (take-length len (c "1\n") h, no_error (ltb 2 len)) refl

report-Holds : Holds (c "/f") (c "hid.0") (c "report_desc") (5 ∷ 1 ∷ 9 ∷ []) hid_disk
unfolding read_buf_limited norm find strcmp
report-Holds len h = rw (take-length len (5 ∷ 1 ∷ 9 ∷ []) h, no_error (ltb 3 len)) refl

report_length-Holds : Holds (c "/f") (c "hid.0") (c "report_length") (c "8\n") hid_disk
unfolding read_buf_limited norm find strcmp
report_length-Holds len h = rw (take-length len (c "8\n") h, no_error (ltb 2 len)) refl

hid_subclass-Holds : Holds (c "/f") (c "hid.0") (c "subclass") (c "-3\n") hid_disk
unfolding read_buf_limited norm find strcmp
hid_subclass-Holds len h = rw (take-length len (c "-3\n") h, no_error (ltb 3 len)) refl

get_attrs-AreStored_example :
    get_attrs hid_attr 10 (mem_at heap hid_disk)
    ≡ returned ((252, 3), (pos 1, (5 ∷ 1 ∷ 9 ∷ [], (pos 8, (negsuc 2, tt))))) (mem_at heap hid_disk)
unfolding print_int print_nat
get_attrs-AreStored_example =
    get_attrs-AreStored heap hid_disk hid_attr
      ((252, 3), (pos 1, (5 ∷ 1 ∷ 9 ∷ [], (pos 8, (negsuc 2, tt))))) hid-Live refl
      (
        (c "252:3\n", held_dev 252 3 (omega arith) (omega arith), hid_dev-Holds),
        (
          (c "1\n", held (stored_dec (pos 1) (omega arith)), hid_protocol-Holds),
          (
            (5 ∷ 1 ∷ 9 ∷ [], held (stored_report 5 (1 ∷ 9 ∷ []) (omega arith)), report-Holds),
            (
              (c "8\n", held (stored_dec (pos 8) (omega arith)), report_length-Holds),
              ((c "-3\n", held (stored_dec (negsuc 2) (omega arith)), hid_subclass-Holds), tt),
            ),
          ),
        ),
      )

address : List ℕ
address = 0 ∷ 1 ∷ 2 ∷ 3 ∷ 4 ∷ 5 ∷ []

net_attrs : Fields net_attr
net_attrs = (address, (address, (none, (pos 5, (pos 2, (pos 6, (pos 0, tt)))))))

set_attrs-Keeps_example : Keeps heap (set_attrs net_attr 8 net_attrs (mem_at heap disk))
set_attrs-Keeps_example =
    set_attrs-Keeps heap disk net_attr ecm-Live net_attrs
      (refl, (refl, (refl, (refl, (refl, (refl, (refl, tt)))))))

a_union : Union
a_union Kind.dec = pos 1
a_union Kind.boolean = true
a_union Kind.text = some (c "usb0")
a_union Kind.ether = address
a_union Kind.dev = (1, 2)
a_union Kind.report = []

set_attr_val-Keeps_example :
    Keeps heap (set_attr_val net_attr 8 2 a_union (mem_at heap disk))
    × ((true ≡ false)
        ⊎ (set_attr_val net_attr 8 2 a_union (mem_at heap disk)
            ≡ raised invalid_param (mem_at heap disk)))
set_attr_val-Keeps_example =
    set_attr_val-Keeps heap disk net_attr ecm-Live 2
      (record { name = c "ifname"; ro = true; kind = Kind.text }) a_union refl refl

ms_get_attrs-Sparse_example : IfReturned (λ _. ⊥) (ms_get_attrs 9 (mem_at heap disk))
unfolding count_luns
ms_get_attrs-Sparse_example = ms_get_attrs-Sparse disk 5 sparse-IsMs refl (omega arith)

-- LUN 0 is kept, 1 is made, and 2 and 3 are removed.
abbrev lun_attrs : LunAttrs
lun_attrs = record {
  id = negsuc 0;
  attrs = (false, (true, (false, (false, (some (c "/disk"), (none, tt))))));
}

abbrev ms_attrs : MsAttrs
ms_attrs = record { stall = true; nluns = 2; luns = some lun_attrs ∷ some lun_attrs ∷ none ∷ [] }

ms_set_attrs-only_example :
    ms_set_attrs 6 ms_attrs (mem_at heap disk) ≡ ms_set_attrs_only 6 ms_attrs (mem_at heap disk)
ms_set_attrs-only_example = ms_set_attrs-only ms-IsMs disk ms_attrs

mark_luns-Marked_example :
    (marked : List Bool) × (mark_luns (map lun_name (10 ∷ 0 ∷ 2 ∷ [])) no_luns (mem_at heap disk)
      ≡ returned marked (mem_at heap disk))
    × Marked (10 ∷ 0 ∷ 2 ∷ []) no_luns marked
mark_luns-Marked_example =
    mark_luns-Marked (10 ∷ 0 ∷ 2 ∷ []) no_luns (mem_at heap disk) refl
      (omega arith, (omega arith, (omega arith, tt)))
