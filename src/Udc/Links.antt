-- ===== src/Udc/Links.antt =====
-- The two pointers of the link between a gadget and a UDC.
use libusbgx.Base.{◌≡◌, refl, ◌≢◌, ◌⊎◌, inl, inr, [], ◌∷◌, some, arith}
use libusbgx.CStr.{c}
use libusbgx.Files.{write_string}
use libusbgx.Heap.{Ptr, null, Gadget, Udc, Mem}
use libusbgx.Heap.Monad.{returned, gadget_at, udc_at, update, io, M, ◌>>◌}
use libusbgx.Heap.Post.{Post, returns, Post-io, Live}
use libusbgx.Os.{Os}
use libusbgx.Udc.{enable_gadget, disable_gadget, release_udc, set_udc_gadget, set_gadget_udc}

module _ ⦃os : Os⦄ where
  -- After binding the gadget `g` to the UDC `u`: they point to one another, the UDC that the
  -- gadget was bound to before points to none, and all else is as it was.
  pub record IsBound (m : Mem os) (g u : Ptr) (gad : Gadget) (x : Udc) (n : Mem os) : Type 0 where
    pub gadget : n.heap.gadgets g ≡ some (record gad { udc = u })
    pub udc : n.heap.udcs u ≡ some (record x { gadget = g })
    pub old :
        gad.udc ≢ null
        → gad.udc ≢ u
        → (y : Udc) → m.heap.udcs gad.udc ≡ some y
        → n.heap.udcs gad.udc ≡ some (record y { gadget = null })
    pub gadgets : (q : Ptr) → q ≢ g → n.heap.gadgets q ≡ m.heap.gadgets q
    pub udcs : (q : Ptr) → q ≢ u → q ≢ gad.udc → n.heap.udcs q ≡ m.heap.udcs q

module _ ⦃os : Os⦄ (m : Mem os) {g u : Ptr} {gad : Gadget} {x : Udc}
    (gadget : Live gadget_at m.heap g gad) (udc : Live udc_at m.heap u x) (w : os.World) where
  -- What is assigned after the UDC file was written.
  abbrev assign : M (Unit {0})
  assign = release_udc gad.udc >> (set_gadget_udc g u >> set_udc_gadget u g)

  assign-free :
      gad.udc ≡ null
      → Post
          (λ _ n. IsBound m g u gad x n)
          (λ _ n. n.heap ≡ m.heap)
          (assign (record m { world = w }))
  unfolding release_udc set_gadget_udc set_udc_gadget
  assign-free free =
      let n : Mem os = record {
        world = w;
        heap = record m.heap {
          gadgets = update m.heap.gadgets g (some (record gad { udc = u }));
          udcs = update m.heap.udcs u (some (record x { gadget = g }));
        };
      } in
      let done : assign (record m { world = w }) ≡ returned tt n = ground arith in
      rw done (
        returns (record {
          gadget = ground arith;
          udc = ground arith;
          old = ground arith;
          gadgets = ground arith;
          udcs = ground arith;
        }))

  assign-release :
      (y : Udc)
      → gad.udc ≢ null
      → m.heap.udcs gad.udc ≡ some y
      → Post
          (λ _ n. IsBound m g u gad x n)
          (λ _ n. n.heap ≡ m.heap)
          (assign (record m { world = w }))
  unfolding release_udc set_gadget_udc set_udc_gadget
  assign-release y bound e =
      let n : Mem os = record {
        world = w;
        heap = record m.heap {
          gadgets = update m.heap.gadgets g (some (record gad { udc = u }));
          udcs =
              update (update m.heap.udcs gad.udc (some (record y { gadget = null }))) u
                (some (record x { gadget = g }));
        };
      } in
      let done : assign (record m { world = w }) ≡ returned tt n = ground arith in
      rw done (
        returns (record {
          gadget = ground arith;
          udc = ground arith;
          old = ground arith;
          gadgets = ground arith;
          udcs = ground arith;
        }))

module _ ⦃os : Os⦄ (m : Mem os) {g u : Ptr} {gad : Gadget} {x : Udc}
    (gadget : Live gadget_at m.heap g gad) (udc : Live udc_at m.heap u x) where
  write_udc : M (Unit {0})
  write_udc = io (write_string gad.path gad.name (c "UDC") (some x.name))

  enable_gadget-write :
      enable_gadget g u m
      ≡ (write_udc >> (release_udc gad.udc >> (set_gadget_udc g u >> set_udc_gadget u g))) m
  unfolding enable_gadget write_udc
  enable_gadget-write = ground arith

  -- `usbg_enable_gadget` for a live gadget and a live UDC, where the gadget's present UDC is NULL
  -- or live, does not fault. If it succeeds, gadget and UDC point to one another, the UDC that the
  -- gadget had before, if it was another, points to no gadget, and every other gadget and UDC is
  -- as it was. If it fails, no structure has changed.
  pub enable_gadget-IsBound :
      (gad.udc ≡ null) ⊎ ((gad.udc ≢ null) × ((y : Udc) × (m.heap.udcs gad.udc ≡ some y)))
      → Post (λ _ n. IsBound m g u gad x n) (λ _ n. n.heap ≡ m.heap) (enable_gadget g u m)
  unfolding write_udc
  enable_gadget-IsBound old = rw enable_gadget-write (
      Post-io (write_string gad.path gad.name (c "UDC") (some x.name))
        (λ _. release_udc gad.udc >> (set_gadget_udc g u >> set_udc_gadget u g)) m
        (λ _ w. elim old [
          | inl free ↦ assign-free m gadget udc w free
          | inr (bound, (y, h)) ↦ assign-release m gadget udc w y bound h
        ])
        (λ _ w. refl))

-- After a release: gadget and UDC point to nothing, and all else is as it was.
pub record IsReleased ⦃os : Os⦄ (m : Mem os) (g : Ptr) (gad : Gadget) (n : Mem os) : Type 0 where
  pub gadget : n.heap.gadgets g ≡ some (record gad { udc = null })
  pub udc :
      gad.udc ≢ null
      → (y : Udc) → m.heap.udcs gad.udc ≡ some y
      → n.heap.udcs gad.udc ≡ some (record y { gadget = null })
  pub gadgets : (q : Ptr) → q ≢ g → n.heap.gadgets q ≡ m.heap.gadgets q
  pub udcs : (q : Ptr) → q ≢ gad.udc → n.heap.udcs q ≡ m.heap.udcs q

module _ ⦃os : Os⦄ (m : Mem os) {g : Ptr} {gad : Gadget}
    (gadget : Live gadget_at m.heap g gad) where
  disable_gadget-write :
      disable_gadget g m
      ≡ (io (write_string gad.path gad.name (c "UDC") (some (b'\n' ∷ [])))
            >> (release_udc gad.udc >> set_gadget_udc g null))
          m
  unfolding disable_gadget
  disable_gadget-write = ground arith

  clear-IsReleased :
      (w : os.World)
      → (gad.udc ≡ null) ⊎ ((gad.udc ≢ null) × ((y : Udc) × (m.heap.udcs gad.udc ≡ some y)))
      → Post
          (λ _ n. IsReleased m g gad n)
          (λ _ n. n.heap ≡ m.heap)
          ((release_udc gad.udc >> set_gadget_udc g null) (record m { world = w }))
  unfolding release_udc set_gadget_udc set_udc_gadget
  clear-IsReleased w (inl free) =
      let n : Mem os = record {
        world = w;
        heap = record m.heap {
          gadgets = update m.heap.gadgets g (some (record gad { udc = null }));
        };
      } in
      let done : (release_udc gad.udc >> set_gadget_udc g null) (record m { world = w })
          ≡ returned tt n =
        ground arith in
      rw done (
        returns (record {
          gadget = ground arith;
          udc = ground arith;
          gadgets = ground arith;
          udcs = ground arith;
        }))
  clear-IsReleased w (inr (bound, (y, e))) =
      let n : Mem os = record {
        world = w;
        heap = record m.heap {
          gadgets = update m.heap.gadgets g (some (record gad { udc = null }));
          udcs = update m.heap.udcs gad.udc (some (record y { gadget = null }));
        };
      } in
      let done : (release_udc gad.udc >> set_gadget_udc g null) (record m { world = w })
          ≡ returned tt n =
        ground arith in
      rw done (
        returns (record {
          gadget = ground arith;
          udc = ground arith;
          gadgets = ground arith;
          udcs = ground arith;
        }))

  -- `usbg_disable_gadget` for a live gadget whose UDC is NULL or live does not fault. If it
  -- succeeds, the gadget has no UDC, the UDC that it had points to no gadget, and every other
  -- gadget and UDC is as it was. If it fails, no structure has changed.
  pub disable_gadget-IsReleased :
      (gad.udc ≡ null) ⊎ ((gad.udc ≢ null) × ((y : Udc) × (m.heap.udcs gad.udc ≡ some y)))
      → Post (λ _ n. IsReleased m g gad n) (λ _ n. n.heap ≡ m.heap) (disable_gadget g m)
  disable_gadget-IsReleased old = rw disable_gadget-write (
      Post-io (write_string gad.path gad.name (c "UDC") (some (b'\n' ∷ [])))
        (λ _. release_udc gad.udc >> set_gadget_udc g null) m (λ _ w. clear-IsReleased w old)
        (λ _ w. refl))
