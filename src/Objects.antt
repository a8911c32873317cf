-- ===== src/Objects.antt =====
-- usbg.c, allocation and release of the structures, with `usbg_init_function` and the macro
-- GENERIC_ALLOC_INST, which allocate the function types.
use libusbgx.Base.{ℕ, zero, suc, Bool, false, ◌&&◌, List, [], ◌∷◌, none, some, if◌then◌else◌}
use libusbgx.CStr.{CString, c}
use libusbgx.Error.{no_mem}
use libusbgx.Heap.{Ptr, null, Formats}
use libusbgx.Heap.Monad.{
  M, fault, return, require, io, load, free, new, state_at, gadget_at, config_at, function_at,
  binding_at, udc_at, ◌>>=◌, ◌>>◌,
}
use libusbgx.Names.{get_function_type_str}
use libusbgx.Os.{Os}
use libusbgx.Os.Io.{allocate, try_allocate}
use libusbgx.Split.{function_dir_name, config_dir_name}

abbrev pub max_luns : ℕ
max_luns = 16

abbrev repeated : ℕ → List Bool
repeated zero = []
repeated (suc n) = false ∷ repeated n

abbrev pub no_luns : List Bool
no_luns = repeated max_luns

-- MAX_FRAMES and MAX_FORMATS (uvc.c)
abbrev pub max_frames : ℕ
max_frames = 16

abbrev pub no_frames : Formats
no_frames = record { frames = repeated max_frames; frames_initiated = false }

abbrev pub no_formats : List Formats
no_formats = no_frames ∷ no_frames ∷ []

module _ ⦃os : Os⦄ where
  -- Two copies of texts, both made before either is tested.
  unfoldable pub two_copies : M (Unit {0})
  two_copies = do a ← io try_allocate; b ← io try_allocate; require (a && b) no_mem

  unfoldable pub allocate_gadget : CString → CString → Ptr → M Ptr
  unfolding two_copies
  allocate_gadget path name parent = do
    io (allocate no_mem)
    two_copies
    new gadget_at (record {
      name = name;
      path = path;
      configs = [];
      functions = [];
      parent = parent;
      udc = null;
      os_desc_binding = null;
      last_failed_import = null;
    })

  unfoldable pub allocate_config : CString → CString → ℕ → Ptr → M Ptr
  unfolding two_copies config_dir_name
  allocate_config path label id parent = do
    io (allocate no_mem)
    io (allocate no_mem)
    two_copies
    new config_at (record {
      bindings = [];
      parent = parent;
      name = config_dir_name label id;
      path = path;
      label = label;
      id = id;
    })

  -- `usbg_init_function` does not test the copy of the path. A NULL path is kept here as the text
  -- that `printf` shows for it. A mass storage starts with no LUNs known
  -- (`ms_alloc_inst`), a video function with no frames (`uvc_alloc_inst`).
  init_function : CString → CString → CString → ℕ → Ptr → M Ptr
  unfolding function_dir_name
  init_function type_name instance path type parent = do
    io (allocate no_mem)
    copied ← io try_allocate
    new function_at (record {
      parent = parent;
      name = function_dir_name type_name instance;
      path = if copied then path else c "(null)";
      instance_name = instance;
      label = none;
      type = type;
      luns = no_luns;
      luns_initiated = false;
      formats = no_formats;
      formats_initiated = false;
    })

  -- A type beyond the table is an access out of bounds.
  unfoldable pub allocate_function : CString → ℕ → CString → Ptr → M Ptr
  unfolding init_function
  allocate_function path type instance parent = elim (get_function_type_str type) [
    | none ↦ λ m. fault
    | some type_name ↦ do io (allocate no_mem); init_function type_name instance path type parent
  ]

  unfoldable pub allocate_binding : CString → CString → Ptr → Ptr → M Ptr
  unfolding two_copies
  allocate_binding path name parent target = do
    io (allocate no_mem)
    two_copies
    new binding_at (record { parent = parent; target = target; name = name; path = path })

  unfoldable pub allocate_udc : Ptr → CString → M Ptr
  allocate_udc parent name = do
    io (allocate no_mem)
    io (allocate no_mem)
    new udc_at (record { parent = parent; gadget = null; name = name })

  unfoldable pub allocate_state : CString → CString → M Ptr
  allocate_state configfs_path path = do
    io (allocate no_mem)
    io (allocate no_mem)
    new state_at (record {
      path = path;
      configfs_path = configfs_path;
      gadgets = [];
      udcs = [];
      last_failed_import = null;
    })

  unfoldable pub free_binding : Ptr → M (Unit {0})
  free_binding b = free binding_at b

  unfoldable pub free_function : Ptr → M (Unit {0})
  free_function f = free function_at f

  unfoldable pub free_udc : Ptr → M (Unit {0})
  free_udc u = free udc_at u

  -- The loops of the `usbg_free_*` take the first entry until none is left. That the list is
  -- shortened on the way cannot be seen, since its owner is freed at the end.
  free_each : (Ptr → M (Unit {0})) → List Ptr → M (Unit {0})
  free_each f [] = return tt
  free_each f (p ∷ ps) = do f p; free_each f ps

  unfoldable pub free_config : Ptr → M (Unit {0})
  unfolding free_each free_binding
  free_config p = do conf ← load config_at p; free_each free_binding conf.bindings; free config_at p

  -- The tree of the last import that failed belongs to libconfig, which releases it.
  unfoldable pub free_gadget : Ptr → M (Unit {0})
  unfolding free_each free_config free_function
  free_gadget p = do
    g ← load gadget_at p
    free_each free_config g.configs
    free_each free_function g.functions
    free gadget_at p

  unfoldable pub free_state : Ptr → M (Unit {0})
  unfolding free_each free_gadget free_udc
  free_state p = do
    s ← load state_at p
    free_each free_gadget s.gadgets
    free_each free_udc s.udcs
    free state_at p
