-- ===== src/Schemes/Streams/Errors.antt =====
-- What an import leaves when libconfig cannot read the text.
use libusbgx.Base.{
  ℕ, ◌≡◌, ◌≢◌, refl, Bool, true, false, arith, ◌==◌, ==_refl, Bool-cases, inl, inr, if◌then◌else◌,
}
use libusbgx.Base.Int.{pos}
use libusbgx.CStr.{CString}
use libusbgx.Error.{invalid_format}
use libusbgx.FunctionOps.{FunctionOps}
use libusbgx.Heap.{Ptr, null, Gadget, Mem}
use libusbgx.Heap.Keeps.{mem_at}
use libusbgx.Heap.Monad.{M, returned, raised, gadget_at, written}
use libusbgx.Heap.Post.{Live, load-returned, store-returned}
use libusbgx.Libconfig.{Libconfig}
use libusbgx.Os.{Os}
use libusbgx.Schemes.Nodes.{Setting}
use libusbgx.Schemes.Streams.{
  of_gadget, set_failed_import, import_from, import_function, import_config,
  get_func_import_error_text, get_func_import_error_line, import_error,
  get_config_import_error_text, get_config_import_error_line,
}

module _ ⦃os : Os⦄ ⦃lc : Libconfig os⦄ (stream : os.File) (m : Mem os) {g : Ptr} {gad : Gadget}
    (live : Live gadget_at m.heap g gad) where
  -- The new tree, and the world after it was tried to be read.
  abbrev pub new_tree : Ptr × os.World
  new_tree = lc.init (os.malloc m.world).1

  abbrev pub tried : Bool × os.World
  tried = lc.read new_tree.0 stream new_tree.1

  -- The tree of the failed import before, if there was one, is released.
  abbrev pub released : os.World
  released =
      if gad.last_failed_import == null then tried.1 else lc.destroy gad.last_failed_import tried.1

  -- The gadget has the new tree.
  abbrev pub after_failure : Mem os
  after_failure =
      mem_at (written gadget_at g (record gad { last_failed_import = new_tree.0 }) m.heap) released

  set_failed_import-run :
      (w : os.World)
      → set_failed_import of_gadget g new_tree.0 (mem_at m.heap w)
        ≡ returned tt (
            mem_at
              (written gadget_at g (record gad { last_failed_import = new_tree.0 }) m.heap)
              (if gad.last_failed_import == null then w else lc.destroy gad.last_failed_import w))
  unfolding set_failed_import
  set_failed_import-run w =
      let load = load-returned {m = mem_at m.heap w} live in
      elim (Bool-cases (gad.last_failed_import == null)) [
        | inl none_before ↦
            rw (set_failed_import, load, none_before) (store-returned {m = mem_at m.heap w} live _)
        | inr before ↦
            rw (set_failed_import, load, before)
              (store-returned {m = mem_at m.heap (lc.destroy gad.last_failed_import w)} live _)
      ]

  import_from-unread :
      (run : Setting → M Ptr)
      → (os.malloc m.world).0 ≡ true
      → tried.0 ≡ false
      → import_from of_gadget g run stream m ≡ raised invalid_format after_failure
  unfolding import_from
  import_from-unread run memory unread =
      rw (import_from, memory, unread, set_failed_import-run tried.1) refl

  after_failure-Live :
      Live gadget_at after_failure.heap g (record gad { last_failed_import = new_tree.0 })
  after_failure-Live = record { ne_null = live.ne_null; holds = rw ==_refl refl }

  -- For a live gadget, where memory can be allocated, `usbg_import_function` and
  -- `usbg_import_config`, with an id that is not negative, of a stream that libconfig cannot read
  -- fail with USBG_ERROR_INVALID_FORMAT. The tree of the failed import before is released if there
  -- was one, and in the structures only the gadget's pointer to that tree is changed: to the new
  -- tree, whose error and its line are then what `usbg_get_func_import_error_text` and
  -- `usbg_get_func_import_error_line` return, and those for configurations too.
  pub import_error-kept :
      (ops : FunctionOps os) (instance_name : CString) (id : ℕ)
      → (os.malloc m.world).0 ≡ true
      → tried.0 ≡ false
      → new_tree.0 ≢ null
      → (import_function ops g stream instance_name m ≡ raised invalid_format after_failure)
        × (import_config ops g stream (pos id) m ≡ raised invalid_format after_failure)
        × (get_func_import_error_text g after_failure
            ≡ returned (lc.error_text new_tree.0 released) after_failure)
        × (get_func_import_error_line g after_failure
            ≡ returned (lc.error_line new_tree.0 released) after_failure)
        × (get_config_import_error_text g after_failure
            ≡ returned (lc.error_text new_tree.0 released) after_failure)
        × (get_config_import_error_line g after_failure
            ≡ returned (lc.error_line new_tree.0 released) after_failure)
  unfolding import_function import_config get_func_import_error_text get_func_import_error_line
      get_config_import_error_text get_config_import_error_line import_error
  import_error-kept ops instance_name id memory unread tree =
      let there : (g == null) ≡ false = ground (arith, live.ne_null) in
      let kept : (new_tree.0 == null) ≡ false = ground (arith, tree) in
      let load = load-returned {m = after_failure} after_failure-Live in
      (
        rw (there, import_from-unread _ memory unread) refl,
        rw (there, import_from-unread _ memory unread) refl,
        rw (there, load, kept) refl,
        rw (there, load, kept) refl,
        rw (there, load, kept) refl,
        rw (there, load, kept) refl,
      )
