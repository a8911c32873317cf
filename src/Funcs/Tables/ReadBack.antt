-- ===== src/Funcs/Tables/ReadBack.antt =====
-- The attributes of a function, read from files that hold them.
use libusbgx.Base.{◌≡◌, refl, List, [], ◌∷◌, true}
use libusbgx.CStr.{CString}
use libusbgx.Files.Laws.Lines.{Holds}
use libusbgx.Funcs.Attrs.{Attr, Fields, get_fields}
use libusbgx.Funcs.Tables.{get_attrs}
use libusbgx.Funcs.Values.Held.{Held, get_value-Held}
use libusbgx.Heap.{Ptr, Heap, Function}
use libusbgx.Heap.Keeps.{mem_at}
use libusbgx.Heap.Monad.{returned, function_at}
use libusbgx.Heap.Post.{Live, load-returned}
use libusbgx.Os.{Os}

module _ ⦃os : Os⦄ (path name : CString) (w : os.World) where
  -- The file of each attribute can be read and holds the text for its value.
  abbrev pub AreStored : (table : List Attr) → Fields table → Type 0
  AreStored [] a = Unit
  AreStored (e ∷ es) (v, rest) =
      ((t : CString) × Held e.kind v t × Holds path name e.name t w) × AreStored es rest

  get_fields-AreStored :
      (h : Heap) (table : List Attr) (a : Fields table)
      → os.malloc w ≡ (true, w)
      → AreStored table a
      → get_fields path name table (mem_at h w) ≡ returned a (mem_at h w)
  unfolding get_fields
  get_fields-AreStored h [] a memory s = refl
  get_fields-AreStored h (e ∷ es) (v, rest) memory ((t, stored, holds), s) =
      rw
        (
          get_value-Held path name e.name w memory stored holds,
          get_fields-AreStored h es rest memory s,
        )
        refl

-- The getter of all attributes of a live function with any table (`usbg_f_midi_get_attrs`,
-- `usbg_f_loopback_get_attrs`, `usbg_f_hid_get_attrs` and `usbg_f_net_get_attrs` are those of the
-- tables of the library), where each attribute's file can be read and holds what the library
-- writes for a value in the range of its type, or a text or an address with a newline behind it,
-- or two numbers below 2^31 as "%d:%d\n" for a device, returns these values and changes
-- nothing, provided that allocations succeed.
pub get_attrs-AreStored :
    ⦃os : Os⦄ (h : Heap) (w : os.World) (table : List Attr) {f : Ptr} {func : Function}
    (a : Fields table)
    → Live function_at h f func
    → os.malloc w ≡ (true, w)
    → AreStored func.path func.name w table a
    → get_attrs table f (mem_at h w) ≡ returned a (mem_at h w)
unfolding get_attrs
get_attrs-AreStored h w table {func = func} a live memory stored =
    rw (load-returned {m = mem_at h w} live)
      (get_fields-AreStored func.path func.name w h table a memory stored)
