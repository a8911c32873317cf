-- ===== src/Tests/Runs.antt =====
-- Whole runs through the interface.
use libusbgx.Base.{◌≡◌, refl, List, [], ◌∷◌, Option, none, some, map}
use libusbgx.Base.Int.{pos}
use libusbgx.CStr.{CString, c, strcmp}
use libusbgx.Create.{create_gadget_vid_pid, create_config}
use libusbgx.Error.{translate_error}
use libusbgx.Files.{scandir, read_string, write_hex, rm_dir}
use libusbgx.Heap.{Heap, Mem, Ptr}
use libusbgx.Heap.Monad.{
  M, Run, returned, raised, fault, state_at, gadget_at, config_at, load, load_all, remove, return,
  ◌>>=◌, ◌>>◌,
}
use libusbgx.Heap.Insert.{insert_by_name}
use libusbgx.Num.{print_hex, print_nat}
use libusbgx.Objects.{allocate_state, allocate_udc, allocate_gadget, allocate_config, free_config}
use libusbgx.Parse.{init}
use libusbgx.Query.{get_gadget, get_udc, get_config}
use libusbgx.Remove.{rm_config}
use libusbgx.Tests.Configfs.{configfs, start_disk, norm, find, put, children, drop_tree}

abbrev empty_heap : Heap
empty_heap = record {
  next = 1;
  states = λ _. none;
  gadgets = λ _. none;
  configs = λ _. none;
  functions = λ _. none;
  bindings = λ _. none;
  udcs = λ _. none;
}

abbrev start : Mem configfs
start = record { world = start_disk; heap = empty_heap }

abbrev value : {A : Type 0} → Run (Mem configfs) A → Option A
value (returned a m) = some a
value (raised e m) = none
value fault = none

-- Two gadgets, a configuration in one of them, and its removal.
names : M (List CString × List CString × List Ptr)
unfolding init create_gadget_vid_pid create_config rm_config
names = do
  s ← init (c "/cfg")
  g ← create_gadget_vid_pid s (c "g2") 0x1d6b 0x104
  h ← create_gadget_vid_pid s (c "g1") 0x1d6b 0x104
  p ← create_config g (pos 2) (some (c "c")) none none
  q ← create_config g (pos 1) (some (c "c")) none none
  st ← load state_at s
  gad ← load gadget_at g
  gadgets ← load_all gadget_at st.gadgets
  configs ← load_all config_at gad.configs
  rm_config q 0
  left ← load gadget_at g
  return (map (λ e. e.1.name) gadgets, map (λ e. e.1.name) configs, left.configs)

-- The lists are in the order of the names.
names_in_order : value (names start) ≡ some (c "g1" ∷ c "g2" ∷ [], c "c.1" ∷ c "c.2" ∷ [], 5 ∷ [])
unfolding names norm find put children drop_tree strcmp translate_error load_all remove
    allocate_state scandir allocate_udc get_gadget allocate_gadget read_string get_udc write_hex
    print_hex insert_by_name get_config allocate_config print_nat rm_dir free_config
names_in_order = refl
