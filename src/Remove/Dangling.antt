-- ===== src/Remove/Dangling.antt =====
-- Removing a gadget to which a UDC still points.
use libusbgx.Base.{◌≡◌, refl, ℕ, false, [], some, none, arith}
use libusbgx.Files.{rm_dir}
use libusbgx.FunctionOps.{FunctionOps}
use libusbgx.Heap.{Ptr, State, Gadget, Udc, Mem}
use libusbgx.Heap.Monad.{
  M, returned, fault, state_at, gadget_at, udc_at, load, store, remove, written, freed, io, ◌>>=◌,
  ◌>>◌,
}
use libusbgx.Heap.Post.{Live, Post, returns, Post-io}
use libusbgx.Objects.{free_gadget}
use libusbgx.Os.{Os}
use libusbgx.Remove.{rm_gadget, is_recursive}
use libusbgx.Udc.{get_udc_gadget}

module _ ⦃os : Os⦄ where
  -- What follows the removal of the directory.
  finish : Ptr → Gadget → M (Unit {0})
  finish g gad = do
    st ← load state_at gad.parent
    store state_at gad.parent (record st { gadgets = remove g st.gadgets })
    free_gadget g

module _ ⦃os : Os⦄ (ops : FunctionOps os) (m : Mem os) {g : Ptr} {gad : Gadget} {st : State}
    (gadget : Live gadget_at m.heap g gad) (state : Live state_at m.heap gad.parent st)
    (no_configs : gad.configs ≡ []) (no_functions : gad.functions ≡ []) where
  rm_gadget-rm_dir :
      (opts : ℕ)
      → is_recursive opts ≡ false
      → rm_gadget ops g opts m ≡ (io (rm_dir gad.path gad.name) >> finish g gad) m
  unfolding rm_gadget finish
  rm_gadget-rm_dir opts flat = ground arith

  abbrev removed : os.World → Mem os
  removed w = record {
    world = w;
    heap =
        freed gadget_at g
          (written state_at gad.parent (record st { gadgets = remove g st.gadgets }) m.heap);
  }

  finish-removed : (w : os.World) → finish g gad (record m { world = w }) ≡ returned tt (removed w)
  unfolding finish free_gadget
  finish-removed w = ground arith

  dead :
      (u : Ptr) {x : Udc} (w : os.World)
      → Live udc_at m.heap u x
      → x.gadget ≡ g
      → get_udc_gadget u (removed w) ≡ fault
  unfolding get_udc_gadget
  dead u w udc to_gadget = ground arith

  -- `usbg_rm_gadget` without the recursive flag, for a live gadget with no configuration and no
  -- function in a live state, does not fault. If it fails, no structure has changed. If it
  -- succeeds, the gadget is freed and out of the list, but a UDC that pointed to it still does:
  -- `usbg_get_udc_gadget` for that UDC then reads freed memory.
  pub rm_gadget-dangling :
      {u : Ptr} {x : Udc} (opts : ℕ)
      → is_recursive opts ≡ false
      → Live udc_at m.heap u x
      → x.gadget ≡ g
      → Post
          (λ _ n.
            (n.heap.gadgets g ≡ none)
            × (n.heap.states gad.parent ≡ some (record st { gadgets = remove g st.gadgets }))
            × (get_udc_gadget u n ≡ fault))
          (λ _ n. n.heap ≡ m.heap)
          (rm_gadget ops g opts m)
  rm_gadget-dangling {u} opts flat udc to_gadget = rw (rm_gadget-rm_dir opts flat) (
      Post-io (rm_dir gad.path gad.name) (λ _. finish g gad) m
        (λ _ w.
          rw (finish-removed w) (returns (ground arith, ground arith, dead u w udc to_gadget)))
        (λ _ w. refl))
