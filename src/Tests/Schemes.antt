-- ===== src/Tests/Schemes.antt =====
-- The theorems on import and export at concrete inputs.
use libusbgx.Base.{
  ℕ, ◌<◌, ◌≡◌, refl, true, false, List, [], ◌∷◌, none, some, arith, subst, ltb, ◌^◌, if◌then◌else◌,
}
use libusbgx.CStr.{CString, c, strcmp}
use libusbgx.Error.{invalid_value, other_error}
use libusbgx.Funcs.Ether.{ether_ntoa_r}
use libusbgx.Funcs.Values.{Kind}
use libusbgx.Heap.{Function, Heap, Mem}
use libusbgx.Heap.Keeps.{mem_at}
use libusbgx.Heap.Monad.{M, returned, raised, return, raise}
use libusbgx.Names.{get_function_type_str}
use libusbgx.Schemes.Attrs.Booleans.{AgreeElsewhere, import_fields-booleans}
use libusbgx.Schemes.Attrs.{Setter, import_fields}
use libusbgx.Funcs.Tables.{uac2_attr}
use libusbgx.Schemes.Export.{generate_function_label}
use libusbgx.Schemes.Import.{function_label, split_function_label}
use libusbgx.Objects.{no_formats}
use libusbgx.Query.{is_function}
use libusbgx.Query.First.{Hit}
use libusbgx.Schemes.Import.{lookup_function}
use libusbgx.Schemes.Import.Lookup.{AllUnlabelled, lookup_function-IsFirst}
use libusbgx.Heap.{Ptr}
use libusbgx.Heap.Monad.{function_at}
use libusbgx.Schemes.Import.Labels.{split_function_label-generate_function_label}
use libusbgx.Schemes.Import.Gadgets.{optional_attr}
use libusbgx.Schemes.Import.Gadgets.Fields.{optional_attr-Within}
use libusbgx.Schemes.Nodes.{report_bytes, export_value, import_value}
use libusbgx.Schemes.Nodes.Reports.{report_bytes-Exported}
use libusbgx.Schemes.Nodes.RoundTrip.{kept_ether, export_value-import_value}
use libusbgx.Tests.Configfs.{configfs, Disk, Node, file, find, put}
use libusbgx.Tests.Structures
use libusbgx.Tests.Tree.{tree}

abbrev node : CString → CString → CString × Node
node p s = (p, file s)

-- A list of the numbers 5 and -1, a number, and a truth value.
abbrev trees : Disk
trees = record {
  nodes =
      node (b'r' ∷ b'/' ∷ 0 ∷ []) (b'i' ∷ 1 ∷ 5 ∷ [])
      ∷ node (b'r' ∷ b'/' ∷ 1 ∷ []) (b'i' ∷ 2 ∷ 0 ∷ [])
      ∷ node (c "g/bDeviceClass") (b'i' ∷ 1 ∷ 9 ∷ [])
      ∷ node (c "g/p_mute_present") (c "b")
      ∷ [];
  memory = true;
}

abbrev heap : Heap
heap = Structures.heap

report_bytes-Exported_example :
    report_bytes (c "r") 2 0 (mem_at heap trees) ≡ raised invalid_value (mem_at heap trees)
unfolding find strcmp
report_bytes-Exported_example =
    report_bytes-Exported (c "r") (mem_at heap trees) 0 (5 ∷ 255 ∷ [])
      ((b'r' ∷ b'/' ∷ 0 ∷ [], refl, refl, refl), ((b'r' ∷ b'/' ∷ 1 ∷ [], refl, refl, refl), tt))

-- Two setters that write nothing, of which one refuses truth values.
abbrev no_setter : Setter
no_setter k name v = return tt

abbrev no_truth_setter : Setter
no_truth_setter Kind.boolean name v = raise invalid_value
no_truth_setter k name v = return tt

setters_agree : AgreeElsewhere no_setter no_truth_setter
setters_agree Kind.dec name v m other = refl
setters_agree Kind.boolean name v m other = ground (arith, other)
setters_agree Kind.text name v m other = refl
setters_agree Kind.ether name v m other = refl
setters_agree Kind.dev name v m other = refl
setters_agree Kind.report name v m other = refl

import_fields-booleans_example :
    import_fields no_setter (c "g") uac2_attr (mem_at heap trees)
    ≡ import_fields no_truth_setter (c "g") uac2_attr (mem_at heap trees)
import_fields-booleans_example =
    import_fields-booleans (c "g") no_setter no_truth_setter setters_agree uac2_attr
      (mem_at heap trees)

-- Two setters of eight bits, of which one refuses what it does not expect.
abbrev any_byte : ℕ → M (Unit {0})
any_byte n = return tt

abbrev only_byte : ℕ → M (Unit {0})
only_byte n = if ltb n 256 then return tt else raise other_error

agree : (n : ℕ) (m : Mem configfs) → n < 2 ^ 8 → any_byte n m ≡ only_byte n m
agree n m h = ground (arith, h)

optional_attr-Within_example :
    optional_attr 8 (c "g") (c "bDeviceClass") any_byte (mem_at heap trees)
    ≡ optional_attr 8 (c "g") (c "bDeviceClass") only_byte (mem_at heap trees)
optional_attr-Within_example =
    optional_attr-Within 8 any_byte only_byte agree (c "g") (c "bDeviceClass") (mem_at heap trees)

abbrev acm : Function
acm = record {
  parent = 2;
  name = c "acm.my_port";
  path = c "/f";
  instance_name = c "my_port";
  label = none;
  type = 1;
  luns = [];
  luns_initiated = false;
  formats = no_formats;
  formats_initiated = false;
}

split_function_label-generate_function_label_example :
    split_function_label (generate_function_label acm) ≡ function_label 1 (c "my_port")
unfolding get_function_type_str
split_function_label-generate_function_label_example =
    split_function_label-generate_function_label acm (c "acm") refl

abbrev address : List ℕ
address = 0 ∷ 0x1b ∷ 0x21 ∷ 0xff ∷ 9 ∷ 0x80 ∷ []

abbrev added : Disk
added = record trees { nodes = put (c "g/host_addr") (file (c "s")) trees.nodes }

abbrev stored : Disk
stored = record added {
  nodes = put (c "g/host_addr") (file (b's' ∷ ether_ntoa_r address)) added.nodes;
}

export_value-import_value_example :
    (export_value Kind.ether (c "g") (c "host_addr") address (mem_at heap trees)
      ≡ returned tt (mem_at heap stored))
    × (import_value Kind.ether (c "g") (c "host_addr") (mem_at heap stored)
        ≡ returned (some address) (mem_at heap stored))
unfolding find put strcmp ether_ntoa_r
export_value-import_value_example =
    export_value-import_value (c "g") (c "host_addr") heap Kind.ether address (
      kept_ether
        (record {
          node = c "g/host_addr";
          added = added;
          add_lem = refl;
          set_lem = refl;
          found_lem = refl;
          type_lem = refl;
        })
        refl refl
        (
          omega arith,
          (omega arith, (omega arith, (omega arith, (omega arith, (omega arith, tt))))),
        ))

unlabelled : AllUnlabelled (mem_at heap trees) (6 ∷ 7 ∷ [])
unlabelled = (
  λ f live. let same : Structures.acm ≡ f = cc in subst (λ f. f.label ≡ none) same refl,
  (λ f live. let same : Structures.ecm ≡ f = cc in subst (λ f. f.label ≡ none) same refl, tt),
)

lookup_function-IsFirst_example :
    (q : Ptr) × (lookup_function 2 (generate_function_label Structures.ecm) (mem_at heap trees)
      ≡ returned q (mem_at heap trees))
    × Hit function_at (λ _ f. is_function 3 (c "0") f) (mem_at heap trees) (6 ∷ 7 ∷ []) q
unfolding get_function_type_str
lookup_function-IsFirst_example =
    lookup_function-IsFirst (mem_at heap trees) {g = 2} {gad = Structures.gadget}
      (record { ne_null = ground arith; holds = refl })
      (
        (Structures.acm, record { ne_null = ground arith; holds = refl }),
        ((Structures.ecm, record { ne_null = ground arith; holds = refl }), tt),
      )
      unlabelled 1 Structures.ecm (c "ecm") refl (record { ne_null = ground arith; holds = refl })
      refl refl
