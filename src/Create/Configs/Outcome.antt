-- ===== src/Create/Configs/Outcome.antt =====
-- `usbg_create_config` with all its ways to fail.
use libusbgx.Base.{
  ◌≡◌, refl, sym, subst, ◌≢◌, inl, inr, ℕ, ◌<◌, ◌≤◌, true, false, ◌&&◌, ◌||◌, not, List, [], ◌∷◌,
  map, Option, none, ◌==◌, arith, All, Bool-cases, leb,
}
use libusbgx.Base.Int.{ℤ, pos, negsuc}
use libusbgx.Attrs.{ConfigAttrs}
use libusbgx.CStr.{CString, c}
use libusbgx.Create.Configs.Added.{
  new_structure, IsAdded, IsUnchanged, same, linked_after, grown, grown-Live, after-IsAdded,
  freed-IsUnchanged,
}
use libusbgx.Create.{
  create_config, make_config, new_config, place_config, given, default_config_label,
}
use libusbgx.Create.Configs.{place_config-Post}
use libusbgx.Error.{no_mem, path_too_long}
use libusbgx.Files.{join, fits}
use libusbgx.Heap.{Ptr, null, Heap, Gadget, Config, Mem}
use libusbgx.Heap.Insert.{entry_ptr}
use libusbgx.Heap.Insert.Linked.{Linked}
use libusbgx.Heap.Keeps.{Keeps, mem_at, Keeps-bind, Keeps-io, Keeps-require, Keeps-Post}
use libusbgx.Heap.Monad.{M, Run, gadget_at, config_at, added, io, require, new, load, ◌>>=◌, ◌>>◌}
use libusbgx.Heap.Post.{Live, load-returned, Post, returns, raises, Post-bind, Post-mono}
use libusbgx.Objects.{allocate_config, two_copies}
use libusbgx.Os.{Os}
use libusbgx.Os.Io.{allocate, try_allocate}
use libusbgx.Query.{is_config}
use libusbgx.Query.First.{AllLive, Fails, get_config-IsFirst}
use libusbgx.Split.{config_dir_name}

two_copies-Keeps : ⦃os : Os⦄ {h : Heap} (w : os.World) → Keeps h (two_copies (mem_at h w))
unfolding two_copies
two_copies-Keeps w =
    Keeps-bind (λ a. io try_allocate >>= λ b. require (a && b) no_mem) (Keeps-io try_allocate w)
      λ a v.
        Keeps-bind (λ b. require (a && b) no_mem) (Keeps-io try_allocate v)
          λ b u. Keeps-require (a && b) no_mem u

allocate_config-Post :
    ⦃os : Os⦄ (h : Heap) (path label : CString) (id : ℕ) (g : Ptr) (w : os.World)
    → Post
        (λ p n.
          (p ≡ h.next)
          × (n.heap
              ≡ added config_at
                  (record {
                    bindings = [];
                    parent = g;
                    name = config_dir_name label id;
                    path = path;
                    label = label;
                    id = id;
                  })
                  h))
        (λ _ n. n.heap ≡ h)
        (allocate_config path label id g (mem_at h w))
unfolding allocate_config config_dir_name
allocate_config-Post h path label id g w =
    let make : M Ptr = new config_at (record {
      bindings = [];
      parent = g;
      name = config_dir_name label id;
      path = path;
      label = label;
      id = id;
    }) in
    Keeps-Post (λ _. io (allocate no_mem) >> (two_copies >> make)) (Keeps-io (allocate no_mem) w)
      (λ _ v.
        Keeps-Post (λ _. two_copies >> make) (Keeps-io (allocate no_mem) v)
          (λ _ u.
            Keeps-Post (λ _. make) (two_copies-Keeps u) (λ _ t. returns (refl, refl)) (λ _. refl))
          (λ _. refl))
      (λ _. refl)

module _ ⦃os : Os⦄ {h : Heap} {g : Ptr} {gad : Gadget} (gadget : Live gadget_at h g gad)
    (linked : Linked config_at h gad.configs) (next : h.next ≢ null)
    (free : h.configs h.next ≡ none) (id : ℕ) (label : CString)
    (unused : All (λ e. e.1.id ≢ id) linked.entries) where
  abbrev Outcome : Run (Mem os) Ptr → Type 0
  Outcome = Post (λ p n. IsAdded h g gad linked id label p n.heap) (λ _ n. IsUnchanged h n.heap)

  placed :
      (dir : CString) (attrs : Option ConfigAttrs) (strs : Option (Option CString)) (w : os.World)
      → Outcome (
          (load config_at h.next >>= λ conf. place_config g h.next (join dir conf.name) attrs strs)
            (mem_at (grown h g gad id label) w))
  placed dir attrs strs w =
      rw
        (load-returned {m = mem_at (grown h g gad id label) w}
          (grown-Live gadget linked next free id label unused))
        (Post-mono
          (place_config-Post (record { ne_null = gadget.ne_null; holds = gadget.holds })
            (grown-Live gadget linked next free id label unused) refl
            (linked_after h free (new_structure g gad id label) (grown h g gad id label) refl
              linked)
            (join dir (config_dir_name label id)) attrs strs w)
          (λ q n (at, heap).
            subst (λ x. IsAdded h g gad linked id label x n.heap) (sym at)
              (subst (λ x. IsAdded h g gad linked id label h.next x) (sym heap)
                (after-IsAdded gadget linked next free id label unused)))
          (λ _ n heap.
            subst (IsUnchanged h) (sym heap)
              (freed-IsUnchanged gadget linked next free id label unused)))

  new_config-Post :
      (attrs : Option ConfigAttrs) (strs : Option (Option CString)) (w : os.World)
      → Outcome (new_config g id label attrs strs (mem_at h w))
  unfolding new_config
  new_config-Post attrs strs w =
      let dir = join gad.path (join gad.name (c "configs")) in
      let place : Ptr → M Ptr =
        λ p. load config_at p >>= λ conf. place_config g p (join dir conf.name) attrs strs in
      let run : new_config g id label attrs strs (mem_at h w)
          ≡ (require (fits dir) path_too_long >> (allocate_config dir label id g >>= place))
              (mem_at h w) =
        rw (load-returned {m = mem_at h w} gadget) refl in
      rw run (
        Keeps-Post (λ _. allocate_config dir label id g >>= place)
          (Keeps-require (fits dir) path_too_long w)
          (λ _ v.
            Post-bind {f = place}
              (Post-mono (allocate_config-Post h dir label id g v) (λ p n r. r)
                (λ _ n e. subst (IsUnchanged h) (sym e) (same h)))
              (λ p n (at, heap).
                subst (λ q. Outcome (place q n)) (sym at)
                  (subst (λ x. Outcome (place h.next (mem_at x n.world))) (sym heap)
                    (placed dir attrs strs n.world))))
          (λ _. same h))

module _ (h : Heap) where
  entries-AllLive :
      (es : List (Ptr × Config))
      → All (λ e. Live config_at h e.0 e.1) es
      → AllLive config_at h (map entry_ptr es)
  entries-AllLive [] _ = tt
  entries-AllLive ((q, a) ∷ es) (live, rest) = ((a, live), entries-AllLive es rest)

  entries-unused :
      ⦃os : Os⦄ (id : ℕ) (w : os.World) (es : List (Ptr × Config))
      → All (λ e. Live config_at h e.0 e.1) es
      → All (Fails config_at (λ _ conf. is_config id none conf) (mem_at h w)) (map entry_ptr es)
      → All (λ e. e.1.id ≢ id) es
  entries-unused id w [] _ _ = tt
  entries-unused id w ((q, a) ∷ es) (live, rest) (fail, fails) =
      (ground (arith, fail a live.holds), entries-unused id w es rest fails)

module _ ⦃os : Os⦄ {h : Heap} {g : Ptr} {gad : Gadget} (gadget : Live gadget_at h g gad)
    (linked : Linked config_at h gad.configs) (next : h.next ≢ null)
    (free : h.configs h.next ≡ none) (attrs : Option ConfigAttrs) (strs : Option (Option CString))
    (w : os.World) where
  make_config-Post :
      (id : ℕ) (label : CString)
      → Post
          (λ p n. IsAdded h g gad linked id label p n.heap)
          (λ _ n. IsUnchanged h n.heap)
          (make_config g id label attrs strs (mem_at h w))
  unfolding make_config
  make_config-Post id label =
      let all =
        subst (AllLive config_at h) linked.pointers
          (entries-AllLive h linked.entries linked.live) in
      let (q, e, first) = get_config-IsFirst (mem_at h w) id none gadget all in
      elim first [
        | inl hit ↦
            let taken : (q == null) ≡ false = ground (arith, hit.live.ne_null) in
            rw (e, taken) (raises (same h))
        | inr (none_fits, fails) ↦
            let absent : (q == null) ≡ true = ground arith in
            rw (e, absent)
              (new_config-Post gadget linked next free id label
                (entries-unused h id w linked.entries linked.live (rw (← linked.pointers) at fails))
                attrs strs w)
      ]

  -- `usbg_create_config` for a live gadget whose configurations are live, where the next allocation
  -- gives fresh memory, does not fault. If it succeeds, the id is from 1 to 255 and no other
  -- configuration of the gadget has it; the result is a new configuration with this id, the label
  -- ("config" for NULL) and no bindings; the gadget's list has it added, and is sorted by name if
  -- it was; and every other structure is as it was. If it fails, every structure is as it was.
  pub create_config-IsAdded :
      (id : ℤ) (label : Option CString)
      → Post
          (λ p n.
            (k : ℕ) × (id ≡ pos k)
            × (0 < k)
            × (k ≤ 255)
            × IsAdded h g gad linked k (given label default_config_label) p n.heap)
          (λ _ n. IsUnchanged h n.heap)
          (create_config g id label attrs strs (mem_at h w))
  unfolding create_config
  create_config-IsAdded (negsuc n) label =
      let ne : (g == null) ≡ false = ground (arith, gadget.ne_null) in rw ne (raises (same h))
  create_config-IsAdded (pos n) label =
      let ne : (g == null) ≡ false = ground (arith, gadget.ne_null) in
      elim (Bool-cases (n == 0 || not (leb n 255))) [
        | inl bad ↦ rw (ne, bad) (raises (same h))
        | inr good ↦
            rw (ne, good)
              (Post-mono (make_config-Post n (given label default_config_label))
                (λ p m added. (n, refl, ground arith, ground arith, added)) (λ _ _ u. u))
      ]
