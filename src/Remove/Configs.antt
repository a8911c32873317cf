-- ===== src/Remove/Configs.antt =====
-- `usbg_rm_config` with the recursive flag.
use mathlib.Core.List.{append-nil}
use libusbgx.Base.{
  ◌≡◌, refl, sym, subst, ◌≢◌, ℕ, true, [], none, some, ◌==◌, arith, All, Bool-cases, inl, inr,
}
use libusbgx.CStr.{CString}
use libusbgx.Error.{path_too_long}
use libusbgx.Files.{fits, rm_dir, rm_all_dirs}
use libusbgx.Heap.{Ptr, Heap, Gadget, Config}
use libusbgx.Heap.Keeps.{
  Keeps, kept, mem_at, Keeps-bind, Keeps-io, Keeps-require, Keeps-Post, Keeps-end,
}
use libusbgx.Heap.Monad.{
  M, returned, gadget_at, config_at, written, freed, remove, io, load, store, ◌>>=◌, ◌>>◌,
}
use libusbgx.Heap.Post.{Live, Post, returns, Post-io, Post-bind, Post-mono, load-returned}
use libusbgx.Objects.{free_config}
use libusbgx.Os.{Os}
use libusbgx.OsDesc.Links.{unlink-Keeps}
use libusbgx.Remove.{
  rm_config, empty_config, unlink_os_desc, rm_strings, drain_all, rm_binding, strings_dir,
  is_recursive,
}
use libusbgx.Remove.Drain.{IsBindingOf, AllDistinct, IsDrained, IsPartly, IsPartly-nil}
use libusbgx.Remove.Drain.Loop.{drain_all-IsDrained}

rm_strings-Keeps :
    ⦃os : Os⦄ {h : Heap} (path name : CString) (w : os.World)
    → Keeps h (rm_strings path name (mem_at h w))
unfolding rm_strings
rm_strings-Keeps path name w =
    let dir = strings_dir path name in
    Keeps-bind (λ _. io (rm_all_dirs dir)) (Keeps-require (fits dir) path_too_long w)
      λ _ v. Keeps-io (rm_all_dirs dir) v

unlink_os_desc-Keeps :
    ⦃os : Os⦄ {h : Heap} {g : Ptr} {gad : Gadget} (p : Ptr) (w : os.World)
    → Live gadget_at h g gad
    → Keeps h (unlink_os_desc g p (mem_at h w))
unfolding unlink_os_desc
unlink_os_desc-Keeps {h = h} {gad = gad} p w gadget = elim (Bool-cases (gad.os_desc_binding == p)) [
  | inl same ↦ rw (load-returned {m = mem_at h w} gadget, same) (unlink-Keeps (mem_at h w) gadget)
  | inr other ↦ rw (load-returned {m = mem_at h w} gadget, other) (kept tt w)
]

-- What follows the removal of what the configuration contains.
abbrev unlist : ⦃os : Os⦄ → Ptr → Ptr → M (Unit {0})
unlist g p = do
  gad ← load gadget_at g
  store gadget_at g (record gad { configs = remove p gad.configs })
  free_config p

abbrev finish : ⦃os : Os⦄ → Ptr → M (Unit {0})
finish p = do conf ← load config_at p; io (rm_dir conf.path conf.name); unlist conf.parent p

module _ ⦃os : Os⦄ (h : Heap) {p : Ptr} {conf : Config} {gad : Gadget}
    (config : Live config_at h p conf) (gadget : Live gadget_at h conf.parent gad) where
  empty_config-Post :
      (w : os.World)
      → All (IsBindingOf h p) conf.bindings
      → AllDistinct conf.bindings
      → Post
          (λ _ n. IsDrained h p conf conf.bindings [] n.heap)
          (λ _ n. IsPartly h p conf n.heap)
          (empty_config p (mem_at h w))
  unfolding empty_config
  empty_config-Post w owned distinct =
      let strings = rm_strings conf.path conf.name in
      let drain = drain_all config_at (λ conf. conf.bindings) rm_binding p in
      let run : empty_config p (mem_at h w)
          ≡ (unlink_os_desc conf.parent p >> (drain >> strings)) (mem_at h w) =
        rw (load-returned {m = mem_at h w} config) refl in
      rw run (
        Keeps-Post (λ _. drain >> strings) (unlink_os_desc-Keeps p w gadget)
          (λ _ v.
            Post-bind {f = λ _. strings} (drain_all-IsDrained h v config owned distinct) (λ _ n d.
              Keeps-end (rm_strings-Keeps conf.path conf.name n.world) (λ _ _. d)
                (λ _. record {
                  done = conf.bindings;
                  left = [];
                  split = sym (append-nil conf.bindings);
                  drained = d;
                })))
          (λ _. IsPartly-nil config))

  abbrev gone : Heap
  gone =
      freed config_at p
        (written gadget_at conf.parent (record gad { configs = remove p gad.configs }) h)

  unlist-freed :
      (w : os.World)
      → conf.bindings ≡ []
      → unlist conf.parent p (mem_at h w) ≡ returned tt (mem_at gone w)
  unfolding free_config
  unlist-freed w e = ground arith

  unlisted :
      (w : os.World)
      → conf.bindings ≡ []
      → Post (λ _ n. n.heap ≡ gone) (λ _ n. n.heap ≡ h) (finish p (mem_at h w))
  unlisted w e =
      let run : finish p (mem_at h w)
          ≡ (io (rm_dir conf.path conf.name) >> unlist conf.parent p) (mem_at h w) =
        rw (load-returned {m = mem_at h w} config) refl in
      rw run (
        Post-io (rm_dir conf.path conf.name) (λ _. unlist conf.parent p) (mem_at h w)
          (λ _ v. rw (unlist-freed v e) (returns refl)) (λ _ _. refl))

-- The configuration `p` and its bindings are freed, it is out of its gadget's list, and all else
-- is as it was.
pub record IsGone (h : Heap) (p : Ptr) (conf : Config) (gad : Gadget) (n : Heap) : Type 0 where
  pub config : n.configs p ≡ none
  pub freed : All (λ b. n.bindings b ≡ none) conf.bindings
  pub gadget : n.gadgets conf.parent ≡ some (record gad { configs = remove p gad.configs })
  pub kept : (q : Ptr) → All (λ b. q ≢ b) conf.bindings → n.bindings q ≡ h.bindings q
  pub configs : (q : Ptr) → q ≢ p → n.configs q ≡ h.configs q
  pub gadgets : (q : Ptr) → q ≢ conf.parent → n.gadgets q ≡ h.gadgets q
  pub states : n.states ≡ h.states
  pub functions : n.functions ≡ h.functions
  pub udcs : n.udcs ≡ h.udcs

module _ ⦃os : Os⦄ (h : Heap) {p : Ptr} {conf : Config} {gad : Gadget}
    (config : Live config_at h p conf) (gadget : Live gadget_at h conf.parent gad) where
  abbrev emptied : Config
  emptied = record conf { bindings = [] }

  gone-IsGone :
      (k : Heap) (cfg : Live config_at k p emptied) (gdt : Live gadget_at k conf.parent gad)
      → IsDrained h p conf conf.bindings [] k
      → IsGone h p conf gad (gone k cfg gdt)
  gone-IsGone k cfg gdt d = record {
    config = ground arith;
    freed = d.freed;
    gadget = ground arith;
    kept = d.kept;
    configs = λ q ne. ground (arith, d.configs q ne);
    gadgets = λ q ne. ground (arith, d.gadgets);
    states = d.states;
    functions = d.functions;
    udcs = d.udcs;
  }

  finish-IsGone :
      (k : Heap) (w : os.World)
      → IsDrained h p conf conf.bindings [] k
      → Post
          (λ _ n. IsGone h p conf gad n.heap)
          (λ _ n. IsPartly h p conf n.heap)
          (finish p (mem_at k w))
  finish-IsGone k w d =
      let cfg : Live config_at k p emptied = record {
        ne_null = config.ne_null;
        holds = d.config;
      } in
      let gdt : Live gadget_at k conf.parent gad = record {
        ne_null = gadget.ne_null;
        holds = rw d.gadgets gadget.holds;
      } in
      Post-mono (unlisted k cfg gdt w refl)
        (λ _ n e. subst (IsGone h p conf gad) (sym e) (gone-IsGone k cfg gdt d))
        (λ _ n e. subst (IsPartly h p conf) (sym e) (record {
          done = conf.bindings;
          left = [];
          split = sym (append-nil conf.bindings);
          drained = d;
        }))

  -- `usbg_rm_config` with the recursive flag, for a live configuration in a live gadget, whose
  -- bindings are live, distinct and its own, does not fault, so its loop ends. If it succeeds, the
  -- configuration and its bindings are freed, it is out of the gadget's list, and every other
  -- structure is as it was. If it fails, some bindings in front are freed and out of its list, and
  -- every other structure is as it was.
  pub rm_config-IsGone :
      (opts : ℕ) (w : os.World)
      → is_recursive opts ≡ true
      → All (IsBindingOf h p) conf.bindings
      → AllDistinct conf.bindings
      → Post
          (λ _ n. IsGone h p conf gad n.heap)
          (λ _ n. IsPartly h p conf n.heap)
          (rm_config p opts (mem_at h w))
  unfolding rm_config
  rm_config-IsGone opts w recursive owned distinct =
      let run : rm_config p opts (mem_at h w) ≡ (empty_config p >> finish p) (mem_at h w) =
        ground (arith, config.ne_null) in
      rw run (
        Post-bind {f = λ _. finish p} (empty_config-Post h config gadget w owned distinct)
          (λ _ n d. finish-IsGone n.heap n.world d))
