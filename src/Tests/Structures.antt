-- ===== src/Tests/Structures.antt =====
-- The theorems at concrete inputs: a heap with a gadget, its two functions and two UDCs, of which
-- the gadget is bound to one.
use libusbgx.Base.{false, ◌≡◌, inr, refl, true, [], ◌∷◌, none, some, arith}
use libusbgx.Base.{ℕ, ◌<◌, ◌≤◌}
use libusbgx.Base.Int.{pos}
use libusbgx.Create.{create_config}
use libusbgx.Create.Configs.Added.{IsAdded, IsUnchanged}
use libusbgx.Create.Configs.Outcome.{create_config-IsAdded}
use libusbgx.Heap.Insert.Linked.{Linked}
use libusbgx.Heap.Monad.{config_at}
use libusbgx.CStr.{CString, c, strcmp}
use libusbgx.Files.{read_string}
use libusbgx.FunctionOps.{FunctionOps}
use libusbgx.Heap.{Ptr, null, State, Gadget, Function, Udc, Heap, Mem}
use libusbgx.Heap.Monad.{
  returned, fault, update, gadget_at, function_at, udc_at, remove, return, ◌>>◌,
}
use libusbgx.Heap.Post.{Post, Live}
use libusbgx.Objects.{no_formats, no_luns}
use libusbgx.Os.Io.{ok}
use libusbgx.OsDesc.{set_os_desc_config}
use libusbgx.OsDesc.Links.{relink_refused}
use libusbgx.Query.{get_function, is_function}
use libusbgx.Query.First.{IsFirst, get_function-IsFirst}
use libusbgx.Remove.{rm_gadget}
use libusbgx.Remove.Dangling.{rm_gadget-dangling}
use libusbgx.Tests.Configfs.{configfs, Disk, dir, file, norm, find}
use libusbgx.Udc.{enable_gadget, disable_gadget, get_gadget_udc, get_udc_gadget}
use libusbgx.Udc.Detach.{Checked, get_udc_gadget-fault, get_gadget_udc-Checked}
use libusbgx.Udc.Links.{IsBound, IsReleased, enable_gadget-IsBound, disable_gadget-IsReleased}

abbrev pub state : State
state = record {
  path = c "/u";
  configfs_path = c "/";
  gadgets = 2 ∷ 8 ∷ [];
  udcs = 3 ∷ 4 ∷ [];
  last_failed_import = null;
}

-- Bound to the UDC 3, with a configuration linked to its OS descriptors.
abbrev pub gadget : Gadget
gadget = record {
  name = c "g";
  path = c "/u";
  configs = [];
  functions = 6 ∷ 7 ∷ [];
  parent = 1;
  udc = 3;
  os_desc_binding = 5;
  last_failed_import = null;
}

-- Without functions, bound to no UDC as far as it knows.
abbrev pub bare_gadget : Gadget
bare_gadget = record {
  name = c "h";
  path = c "/u";
  configs = [];
  functions = [];
  parent = 1;
  udc = null;
  os_desc_binding = null;
  last_failed_import = null;
}

abbrev pub acm : Function
acm = record {
  parent = 2;
  name = c "acm.0";
  path = c "/u/g/functions";
  luns = no_luns;
  luns_initiated = false;
  formats = no_formats;
  formats_initiated = false;
  instance_name = c "0";
  label = none;
  type = 1;
}

abbrev pub ecm : Function
ecm = record {
  parent = 2;
  name = c "ecm.0";
  path = c "/u/g/functions";
  luns = no_luns;
  luns_initiated = false;
  formats = no_formats;
  formats_initiated = false;
  instance_name = c "0";
  label = none;
  type = 3;
}

abbrev pub bound_udc : Udc
bound_udc = record { parent = 1; gadget = 2; name = c "a" }

abbrev pub other_udc : Udc
other_udc = record { parent = 1; gadget = 8; name = c "b" }

abbrev pub heap : Heap
heap = record {
  next = 9;
  states = update (λ _. none) 1 (some state);
  gadgets = update (update (λ _. none) 2 (some gadget)) 8 (some bare_gadget);
  configs = λ _. none;
  functions = update (update (λ _. none) 6 (some acm)) 7 (some ecm);
  bindings = λ _. none;
  udcs = update (update (λ _. none) 3 (some bound_udc)) 4 (some other_udc);
}

-- The gadget's UDC file holds this text.
abbrev disk : CString → Disk
disk s = record { nodes = (c "/u/g", dir) ∷ (c "/u/g/UDC", file s) ∷ []; memory = true }

abbrev mem : CString → Mem configfs
mem s = record { world = disk s; heap = heap }

pub gadget-Live : Live gadget_at heap 2 gadget
gadget-Live = record { ne_null = ground arith; holds = refl }

udc-Live : Live udc_at heap 3 bound_udc
udc-Live = record { ne_null = ground arith; holds = refl }

other-Live : Live udc_at heap 4 other_udc
other-Live = record { ne_null = ground arith; holds = refl }

enable_gadget-IsBound_example :
    Post
      (λ _ n. IsBound (mem (c "a")) 2 4 gadget other_udc n)
      (λ _ n. n.heap ≡ heap)
      (enable_gadget 2 4 (mem (c "a")))
enable_gadget-IsBound_example =
    enable_gadget-IsBound (mem (c "a")) gadget-Live other-Live
      (inr (ground arith, (bound_udc, refl)))

disable_gadget-IsReleased_example :
    Post
      (λ _ n. IsReleased (mem (c "a")) 2 gadget n)
      (λ _ n. n.heap ≡ heap)
      (disable_gadget 2 (mem (c "a")))
disable_gadget-IsReleased_example =
    disable_gadget-IsReleased (mem (c "a")) gadget-Live (inr (ground arith, (bound_udc, refl)))

read_detached : read_string (c "/u") (c "g") (c "UDC") (disk []) ≡ (ok [], disk [])
unfolding read_string norm find strcmp
read_detached = refl

get_gadget_udc-Checked_example :
    Post (λ p n. Checked (mem []) 2 gadget bound_udc p n) (λ _ _. ⊥) (get_gadget_udc 2 (mem []))
get_gadget_udc-Checked_example = get_gadget_udc-Checked (mem []) gadget-Live udc-Live

get_udc_gadget-fault_example : get_udc_gadget 3 (mem []) ≡ fault
unfolding strcmp
get_udc_gadget-fault_example =
    get_udc_gadget-fault (mem []) gadget-Live udc-Live refl refl read_detached refl

relink_refused_example :
    Post (λ _ _. ⊥) (λ _ _. Unit) ((set_os_desc_config 2 null >> set_os_desc_config 2 7) (mem []))
relink_refused_example = relink_refused (mem []) gadget-Live 7 (ground arith) (ground arith)

get_function-IsFirst_example :
    (p : Ptr) × (get_function 2 3 (c "0") (mem []) ≡ returned p (mem []))
    × IsFirst function_at (λ _ f. is_function 3 (c "0") f) (mem []) (6 ∷ 7 ∷ []) p
get_function-IsFirst_example = get_function-IsFirst (mem []) 3 (c "0") gadget-Live (
  (acm, record { ne_null = ground arith; holds = refl }),
  ((ecm, record { ne_null = ground arith; holds = refl }), tt),
)

no_configs : Linked config_at heap []
no_configs = record { entries = []; pointers = refl; live = tt }

abbrev pub no_ops : FunctionOps configfs
no_ops = record {
  Attrs = Unit;
  Filled = Unit;
  set_attrs = λ _ _ _. return tt;
  get_attrs = λ _ _. return tt;
  remove = λ _. none;
}

rm_gadget-dangling_example :
    Post
      (λ _ n.
        (n.heap.gadgets 8 ≡ none)
        × (n.heap.states 1 ≡ some (record state { gadgets = remove 8 state.gadgets }))
        × (get_udc_gadget 4 n ≡ fault))
      (λ _ n. n.heap ≡ heap)
      (rm_gadget no_ops 8 0 (mem []))
rm_gadget-dangling_example =
    rm_gadget-dangling no_ops (mem []) (record { ne_null = ground arith; holds = refl })
      (record { ne_null = ground arith; holds = refl }) refl refl 0 refl other-Live refl

create_config-IsAdded_example :
    Post
      (λ p n.
        (k : ℕ) × (pos 7 ≡ pos k)
        × (0 < k)
        × (k ≤ 255)
        × IsAdded heap 8 bare_gadget no_configs k (c "config") p n.heap)
      (λ _ n. IsUnchanged heap n.heap)
      (create_config 8 (pos 7) none none none (mem []))
create_config-IsAdded_example =
    create_config-IsAdded (record { ne_null = ground arith; holds = refl }) no_configs
      (ground arith) refl none none (disk []) (pos 7) none
