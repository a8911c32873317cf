-- ===== src/Udc/Detach.antt =====
-- What the two queries do after the kernel has detached a gadget from its UDC.
use libusbgx.Base.{◌≡◌, refl, inl, inr, Bool-cases, true, false, some, arith}
use libusbgx.CStr.{CString, c, str_eq}
use libusbgx.Files.{read_string}
use libusbgx.Error.{UsbgError}
use libusbgx.Heap.{Ptr, null, Gadget, Udc, Mem}
use libusbgx.Heap.Monad.{Run, returned, fault, update, gadget_at, udc_at}
use libusbgx.Heap.Post.{Post, returns, Live}
use libusbgx.Os.{Os}
use libusbgx.Os.Io.{Res, ok, err}
use libusbgx.Udc.Links.{IsReleased}
use libusbgx.Udc.{get_gadget_udc, get_udc_gadget}

-- A gadget and a UDC that point to one another, and what the gadget's UDC file holds.
module _ ⦃os : Os⦄ (m : Mem os) {g u : Ptr} {gad : Gadget} {x : Udc} {content : CString}
    {w : os.World} (gadget : Live gadget_at m.heap g gad) (udc : Live udc_at m.heap u x)
    (to_udc : gad.udc ≡ u) (to_gadget : x.gadget ≡ g)
    (read : read_string gad.path gad.name (c "UDC") m.world ≡ (ok content, w)) where
  -- For a live gadget and a live UDC that point to one another, and a UDC file of the gadget that
  -- can be read and holds something else than the UDC's name, `usbg_get_udc_gadget` faults.
  pub get_udc_gadget-fault : str_eq x.name content ≡ false → get_udc_gadget u m ≡ fault
  unfolding get_udc_gadget
  get_udc_gadget-fault differ = ground arith

-- The outcomes of `usbg_get_gadget_udc`: the UDC file names the UDC, it cannot be read, or it holds
-- another text.
pub data Checked ⦃os : Os⦄ (m : Mem os) (g : Ptr) (gad : Gadget) (x : Udc)
    : Ptr → Mem os → Type 0 where
  bound :
      {content : CString} {w : os.World}
      → read_string gad.path gad.name (c "UDC") m.world ≡ (ok content, w)
      → str_eq x.name content ≡ true
      → Checked m g gad x gad.udc (record m { world = w })
  unread :
      {e : UsbgError} {w : os.World}
      → read_string gad.path gad.name (c "UDC") m.world ≡ (err e, w)
      → Checked m g gad x null (record m { world = w })
  detached :
      {content : CString} {n : Mem os}
      → read_string gad.path gad.name (c "UDC") m.world ≡ (ok content, n.world)
      → str_eq x.name content ≡ false
      → IsReleased m g gad n
      → Checked m g gad x null n

module _ ⦃os : Os⦄ (m : Mem os) {g : Ptr} {gad : Gadget} {x : Udc}
    (gadget : Live gadget_at m.heap g gad) (udc : Live udc_at m.heap gad.udc x) where
  Outcome : Run (Mem os) Ptr → Type 0
  Outcome r = Post (λ p n. Checked m g gad x p n) (λ _ _. ⊥) r

  released : os.World → Mem os
  released w = record {
    world = w;
    heap = record m.heap {
      gadgets = update m.heap.gadgets g (some (record gad { udc = null }));
      udcs = update m.heap.udcs gad.udc (some (record x { gadget = null }));
    };
  }

  released-IsReleased : (w : os.World) → IsReleased m g gad (released w)
  unfolding released
  released-IsReleased w = record {
    gadget = ground arith;
    udc = ground arith;
    gadgets = ground arith;
    udcs = ground arith;
  }

  by_content :
      (r : Res CString) (w : os.World)
      → read_string gad.path gad.name (c "UDC") m.world ≡ (r, w)
      → Outcome (get_gadget_udc g m)
  unfolding get_gadget_udc Outcome released
  by_content (err e) w h =
      let done : get_gadget_udc g m ≡ returned null (record m { world = w }) = ground arith in
      rw done (returns (unread h))
  by_content (ok content) w h = elim (Bool-cases (str_eq x.name content)) [
    | inl same ↦
        let done : get_gadget_udc g m ≡ returned gad.udc (record m { world = w }) = ground arith in
        rw done (returns (bound h same))
    | inr differ ↦
        let done : get_gadget_udc g m ≡ returned null (released w) = ground arith in
        rw done (returns (detached h differ (released-IsReleased w)))
  ]

  -- `usbg_get_gadget_udc` for a live gadget whose UDC is live neither faults nor fails, whatever
  -- the gadget's UDC file holds. If the file names the UDC, it returns this UDC and changes no
  -- structure; if it cannot be read, it returns NULL and changes no structure; if it holds
  -- another text, it returns NULL, and the gadget has no UDC, the UDC has no gadget, and every
  -- other gadget and UDC is as it was.
  pub get_gadget_udc-Checked : Post (λ p n. Checked m g gad x p n) (λ _ _. ⊥) (get_gadget_udc g m)
  unfolding Outcome
  get_gadget_udc-Checked = by_content _ _ refl
