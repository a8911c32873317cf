-- ===== src/OsDesc/Links.antt =====
-- The gadget's pointer to the configuration that its OS descriptors are linked to.
use libusbgx.Base.{◌≡◌, refl, ◌≢◌, true, false, some, arith, Bool-cases, inl, inr, List, [], ◌∷◌}
use libusbgx.CStr.{CString}
use libusbgx.Error.{exist, path_too_long}
use libusbgx.Files.{scandir, bindings_select, fits, rm_file}
use libusbgx.Heap.{Ptr, null, Gadget, Mem}
use libusbgx.Error.{not_found}
use libusbgx.Heap.Keeps.{Keeps, failed_kept, mem_at, Keeps-bind, Keeps-io}
use libusbgx.Heap.Monad.{raised, gadget_at, io, ◌>>=◌, ◌>>◌}
use libusbgx.Heap.Post.{Live, Post, raises, Post-io, io-Post, Post-bind, Post-mono}
use libusbgx.Os.{Os}
use libusbgx.OsDesc.{set_os_desc_config, rm_first, os_desc_dir}

module _ ⦃os : Os⦄ (m : Mem os) {g : Ptr} {gad : Gadget}
    (gadget : Live gadget_at m.heap g gad) where
  abbrev dir : CString
  dir = os_desc_dir gad.path gad.name

  rm_first-gadgets :
      (ns : List CString) (w : os.World)
      → Post
          (λ _ n. n.heap.gadgets ≡ m.heap.gadgets)
          (λ _ n. n.heap.gadgets ≡ m.heap.gadgets)
          (rm_first dir ns (record m { world = w }))
  unfolding rm_first
  rm_first-gadgets [] w = raises refl
  rm_first-gadgets (n ∷ ns) w =
      io-Post (rm_file dir n) (record m { world = w }) (λ _ _. refl) (λ _ _. refl)

  rm_first-Keeps :
      (ns : List CString) (w : os.World) → Keeps m.heap (rm_first dir ns (mem_at m.heap w))
  unfolding rm_first
  rm_first-Keeps [] w = failed_kept not_found w
  rm_first-Keeps (n ∷ ns) w = Keeps-io (rm_file dir n) w

  unlink_short :
      fits dir ≡ true
      → set_os_desc_config g null m ≡ (io (scandir bindings_select dir) >>= rm_first dir) m
  unfolding set_os_desc_config
  unlink_short h = ground arith

  unlink_long : fits dir ≡ false → set_os_desc_config g null m ≡ raised path_too_long m
  unfolding set_os_desc_config
  unlink_long h = ground arith

  -- `usbg_set_os_desc_config` of a live gadget and NULL does not fault, and leaves every structure
  -- as it was, whether it succeeds or not: the pointer to the configuration stays.
  pub unlink-Keeps : Keeps m.heap (set_os_desc_config g null m)
  unlink-Keeps = elim (Bool-cases (fits dir)) [
    | inl short ↦
        rw (unlink_short short) (
          Keeps-bind (rm_first dir) (Keeps-io (scandir bindings_select dir) m.world) rm_first-Keeps)
    | inr long ↦ rw (unlink_long long) (failed_kept path_too_long m.world)
  ]

  link_refused :
      (p : Ptr)
      → gad.os_desc_binding ≢ null
      → p ≢ null
      → (n : Mem os) → n.heap.gadgets ≡ m.heap.gadgets
      → set_os_desc_config g p n ≡ raised exist n
  unfolding set_os_desc_config
  link_refused p linked ne n e =
      let here : n.heap.gadgets g ≡ some gad = rw e gadget.holds in ground arith

  unlink-gadgets :
      Post
        (λ _ n. n.heap.gadgets ≡ m.heap.gadgets)
        (λ _ n. n.heap.gadgets ≡ m.heap.gadgets)
        (set_os_desc_config g null m)
  unlink-gadgets = elim (Bool-cases (fits dir)) [
    | inl short ↦
        rw (unlink_short short)
          (Post-io (scandir bindings_select dir) (rm_first dir) m rm_first-gadgets (λ _ _. refl))
    | inr long ↦ rw (unlink_long long) (raises refl)
  ]

  -- For a live gadget whose pointer to a configuration is not NULL, `usbg_set_os_desc_config` with
  -- NULL and then with a configuration does not succeed, and does not fault.
  pub relink_refused :
      (p : Ptr)
      → gad.os_desc_binding ≢ null
      → p ≢ null
      → Post (λ _ _. ⊥) (λ _ _. Unit) ((set_os_desc_config g null >> set_os_desc_config g p) m)
  relink_refused p linked ne =
      Post-bind {f = λ _. set_os_desc_config g p}
        (Post-mono unlink-gadgets (λ _ _ e. e) (λ _ _ _. tt))
        λ _ n e. rw (link_refused p linked ne n e) (raises tt)
