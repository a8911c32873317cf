-- ===== src/Heap.antt =====
-- The structures of usbg_internal.h in memory: a pointer is a number, and each kind of structure
-- has its table of live objects. A TAILQ is the list of its entries. A read or write through NULL
-- or through a pointer to a freed object is a fault.
pub mod Monad
pub mod Insert
pub mod Post
pub mod Keeps
pub mod Returned
use libusbgx.Base.{ℕ, Bool, List, Option}
use libusbgx.CStr.{CString}
use libusbgx.Os.{Os}

abbrev pub Ptr : Type 0
Ptr = ℕ

abbrev pub null : Ptr
null = 0

-- `struct usbg_state`. `last_failed_import` is a tree of libconfig, or NULL.
pub record State : Type 0 where
  pub path : CString
  pub configfs_path : CString
  pub gadgets : List Ptr
  pub udcs : List Ptr
  pub last_failed_import : Ptr

-- `struct usbg_gadget`
pub record Gadget : Type 0 where
  pub name : CString
  pub path : CString
  pub configs : List Ptr
  pub functions : List Ptr
  pub parent : Ptr
  pub last_failed_import : Ptr
  pub udc : Ptr
  pub os_desc_binding : Ptr

-- `struct usbg_config`
pub record Config : Type 0 where
  pub bindings : List Ptr
  pub parent : Ptr
  pub name : CString
  pub path : CString
  pub label : CString
  pub id : ℕ

-- `struct formats` (uvc.c): which frames of a format exist.
pub record Formats : Type 0 where
  pub frames : List Bool
  pub frames_initiated : Bool

-- `struct usbg_function`. The type is the index into `function_types`, which `ops` points to. The
-- label is the one that an import gave it. `luns` and `luns_initiated` are those of
-- `struct usbg_f_ms`, which stands around the function of a mass storage, and `formats` and
-- `formats_initiated` those of `struct usbg_f_uvc`.
pub record Function : Type 0 where
  pub parent : Ptr
  pub name : CString
  pub path : CString
  pub instance_name : CString
  pub label : Option CString
  pub type : ℕ
  pub luns : List Bool
  pub luns_initiated : Bool
  pub formats : List Formats
  pub formats_initiated : Bool

-- `struct usbg_binding`
pub record Binding : Type 0 where
  pub parent : Ptr
  pub target : Ptr
  pub name : CString
  pub path : CString

-- `struct usbg_udc`
pub record Udc : Type 0 where
  pub parent : Ptr
  pub gadget : Ptr
  pub name : CString

abbrev pub Table : Type 0 → Type 0
Table A = Ptr → Option A

-- The live structures. `next` is what the next allocation returns.
pub record Heap : Type 0 where
  pub next : Ptr
  pub states : Table State
  pub gadgets : Table Gadget
  pub configs : Table Config
  pub functions : Table Function
  pub bindings : Table Binding
  pub udcs : Table Udc

-- What code works on: the rest of the world, and the structures.
pub record Mem (os : Os) : Type 0 where
  pub world : os.World
  pub heap : Heap
