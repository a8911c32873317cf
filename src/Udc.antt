-- ===== src/Udc.antt =====
-- usbg.c, binding a gadget to a USB device controller. The gadget and the UDC point to one another.
pub mod Detach
pub mod Links
use libusbgx.Base.{ℕ, Bool, true, false, List, [], ◌∷◌, Option, none, some, ◌==◌, if◌then◌else◌}
use libusbgx.CStr.{CString, c, str_eq}
use libusbgx.Error.{UsbgError, invalid_param}
use libusbgx.Files.{read_string, write_string}
use libusbgx.Heap.{Ptr, null, Gadget, Udc, Mem}
use libusbgx.Heap.Monad.{
  M, Run, returned, raised, fault, return, raise, io, load, store, gadget_at, udc_at, ◌>>=◌, ◌>>◌,
}
use libusbgx.Os.{Os}
use libusbgx.Os.Io.{Res, ok, err}
use libusbgx.Query.Walk.{get_first_udc}

module _ ⦃os : Os⦄ where
  -- `u->gadget = g` and `g->udc = u`
  unfoldable pub set_udc_gadget : Ptr → Ptr → M (Unit {0})
  set_udc_gadget u g = do x ← load udc_at u; store udc_at u (record x { gadget = g })

  unfoldable pub set_gadget_udc : Ptr → Ptr → M (Unit {0})
  set_gadget_udc g u = do gad ← load gadget_at g; store gadget_at g (record gad { udc = u })

  -- `if (g->udc) g->udc->gadget = NULL`
  release_udc : Ptr → M (Unit {0})
  unfolding set_udc_gadget
  release_udc u = if u == null then return tt else set_udc_gadget u null

  -- The content of the UDC file; `none` if it cannot be read.
  read_udc : Gadget → M (Option CString)
  read_udc gad m = elim (io (read_string gad.path gad.name (c "UDC")) m) [
    | returned s m' ↦ returned (some s) m'
    | raised e m' ↦ returned none m'
    | fault ↦ fault
  ]

  -- Still assigned, or detached by the kernel.
  compare_udc : Ptr → Ptr → Option CString → M Ptr
  unfolding set_udc_gadget set_gadget_udc
  compare_udc g u none = return null
  compare_udc g u (some content) = do
    x ← load udc_at u
    if str_eq x.name content
        then return u
        else do set_udc_gadget u null; set_gadget_udc g null; return null

  unfoldable pub get_gadget_udc : Ptr → M Ptr
  unfolding read_udc compare_udc
  get_gadget_udc g = if g == null then return null else do
    gad ← load gadget_at g
    if gad.udc == null
        then return null
        else do content ← read_udc gad; compare_udc g gad.udc content

  -- `u->gadget->udc = NULL; u->gadget = NULL;` reads `u->gadget` anew.
  unlink_gadget : Ptr → M Ptr
  unfolding set_gadget_udc set_udc_gadget
  unlink_gadget u = do
    x ← load udc_at u
    set_gadget_udc x.gadget null
    set_udc_gadget u null
    return null

  unfoldable pub get_udc_gadget : Ptr → M Ptr
  unfolding get_gadget_udc unlink_gadget
  get_udc_gadget u = if u == null then return null else do
    x ← load udc_at u
    if x.gadget == null then return null else do
      checked ← get_gadget_udc x.gadget
      if checked == null then unlink_gadget u else do y ← load udc_at u; return y.gadget

  bind_udc : Ptr → Ptr → M (Unit {0})
  unfolding release_udc set_udc_gadget set_gadget_udc
  bind_udc g u = do
    gad ← load gadget_at g
    x ← load udc_at u
    io (write_string gad.path gad.name (c "UDC") (some x.name))
    release_udc gad.udc
    set_gadget_udc g u
    set_udc_gadget u g

  bind_first_udc : Ptr → M (Unit {0})
  unfolding bind_udc
  bind_first_udc g = do
    gad ← load gadget_at g
    u ← get_first_udc gad.parent
    if u == null then raise invalid_param else bind_udc g u

  unfoldable pub enable_gadget : Ptr → Ptr → M (Unit {0})
  unfolding bind_udc bind_first_udc
  enable_gadget g u =
      if g == null
      then raise invalid_param
      else if u == null
      then bind_first_udc g
      else bind_udc g u

  unfoldable pub disable_gadget : Ptr → M (Unit {0})
  unfolding release_udc set_gadget_udc
  disable_gadget g = if g == null then raise invalid_param else do
    gad ← load gadget_at g
    io (write_string gad.path gad.name (c "UDC") (some (b'\n' ∷ [])))
    release_udc gad.udc
    set_gadget_udc g null
