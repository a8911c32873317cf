-- ===== src/Create/Configs.antt =====
-- `usbg_create_config` from the path of the new directory on.
pub mod Added
pub mod Outcome
use mathlib.Core.List.{Perm}
use libusbgx.Base.{
  ◌≡◌, refl, ◌≢◌, ◌⊎◌, inl, inr, ℕ, suc, Bool, true, false, ◌&&◌, List, [], ◌∷◌, map, Option, none,
  some, ◌==◌, arith, All, Bool-cases, if◌then◌else◌,
}
use libusbgx.Base.Int.{ℤ, pos}
use libusbgx.Attrs.{ConfigAttrs, set_config_attrs}
use libusbgx.CStr.{CString, c}
use libusbgx.Create.{set_up_config, set_attrs_if, place_config, insert_config, lang_us_eng}
use libusbgx.Error.{UsbgError, no_mem, path_too_long, invalid_param}
use libusbgx.Files.{join, fits, write_dec, write_hex, check_dir, write_string}
use libusbgx.Heap.{Ptr, null, Heap, Gadget, Config, Mem}
use libusbgx.Heap.Insert.{entry_ptr, insert_by_name}
use libusbgx.Heap.Insert.Linked.{Linked, inserted, insert_by_name-inserted, inserted-perm}
use libusbgx.Heap.Keeps.{
  Keeps, kept, failed_kept, mem_at, Keeps-bind, Keeps-io, Keeps-load, Keeps-require, Keeps-Post,
  Keeps-guard,
}
use libusbgx.Heap.Monad.{
  M, Run, returned, raised, fault, gadget_at, config_at, written, freed, added, update, io, require,
  return, on_error, then_run, ◌>>=◌, ◌>>◌,
}
use libusbgx.Heap.Post.{Live, load-returned, free-returned, store-returned, Post, returns, raises}
use libusbgx.Objects.{free_config}
use libusbgx.Os.{Os}
use libusbgx.Os.Io.{call, ignore}
use libusbgx.Strings.{set_config_string, made_lang_dir}
use libusbgx.Remove.{lang_dir}

module _ ⦃os : Os⦄ {h : Heap} {p : Ptr} {conf : Config} (config : Live config_at h p conf)
    (w : os.World) where
  set_config_attrs-Keeps : (a : ConfigAttrs) → Keeps h (set_config_attrs p a (mem_at h w))
  unfolding set_config_attrs
  set_config_attrs-Keeps a =
      let power = write_dec conf.path conf.name (c "MaxPower") (pos a.b_max_power) in
      let attributes = write_hex 2 conf.path conf.name (c "bmAttributes") a.bm_attributes in
      let run : set_config_attrs p a (mem_at h w) ≡ (io power >> io attributes) (mem_at h w) =
        ground arith in
      rw run (Keeps-bind (λ _. io attributes) (Keeps-io power w) λ _ v. Keeps-io attributes v)

  set_config_string-Keeps :
      (lang : ℕ) (s : Option CString) → Keeps h (set_config_string p lang s (mem_at h w))
  unfolding set_config_string made_lang_dir
  set_config_string-Keeps lang none = failed_kept invalid_param w
  set_config_string-Keeps lang (some text) =
      let dir = lang_dir conf.path conf.name lang in
      let write = write_string dir [] (c "configuration") (some text) in
      let run : set_config_string p lang (some text) (mem_at h w)
          ≡ (require (fits dir) path_too_long >> (io (check_dir dir) >> io write)) (mem_at h w) =
        ground arith in
      rw run (
        Keeps-bind (λ _. io (check_dir dir) >> io write) (Keeps-require (fits dir) path_too_long w)
          λ _ v. Keeps-bind (λ _. io write) (Keeps-io (check_dir dir) v) λ _ u. Keeps-io write u)

set_attrs_if-Keeps :
    ⦃os : Os⦄ {A : Type 0} {h : Heap} (set : A → M (Unit {0})) (o : Option A) (w : os.World)
    → ((a : A) → Keeps h (set a (mem_at h w)))
    → Keeps h (set_attrs_if set o (mem_at h w))
unfolding set_attrs_if
set_attrs_if-Keeps set none w f = kept tt w
set_attrs_if-Keeps set (some a) w f = f a

set_up_config-Keeps :
    ⦃os : Os⦄ {h : Heap} {p : Ptr} {conf : Config} (w : os.World) (attrs : Option ConfigAttrs)
    (strs : Option (Option CString))
    → Live config_at h p conf
    → Keeps h (set_up_config p attrs strs (mem_at h w))
unfolding set_up_config
set_up_config-Keeps {p = p} w attrs strs config =
    Keeps-bind (λ _. set_attrs_if (set_config_string p lang_us_eng) strs)
      (set_attrs_if-Keeps (set_config_attrs p) attrs w (set_config_attrs-Keeps config w))
      λ _ v.
        set_attrs_if-Keeps (set_config_string p lang_us_eng) strs v
          (set_config_string-Keeps config v lang_us_eng)

-- The gadget with the configuration in its list.
abbrev pub listed : Gadget → List (Ptr × Config) → Ptr → Config → Gadget
listed gad es p conf = record gad { configs = map entry_ptr (inserted (λ c. c.name) es p conf) }

module _ ⦃os : Os⦄ {h : Heap} {g p : Ptr} {gad : Gadget} {conf : Config}
    (gadget : Live gadget_at h g gad) (config : Live config_at h p conf)
    (no_bindings : conf.bindings ≡ []) (linked : Linked config_at h gad.configs) where
  free_config-freed :
      (w : os.World) → free_config p (mem_at h w) ≡ returned tt (mem_at (freed config_at p h) w)
  unfolding free_config
  free_config-freed w = ground arith

  insert_config-written :
      (w : os.World)
      → insert_config g p (mem_at h w)
        ≡ returned tt (mem_at (written gadget_at g (listed gad linked.entries p conf) h) w)
  unfolding insert_config
  insert_config-written w = rw (
    load-returned {m = mem_at h w} gadget,
    insert_by_name-inserted config_at (λ c. c.name) linked p conf w config,
    store-returned {m = mem_at h w} gadget (listed gad linked.entries p conf),
  )

  pub place_config-Post :
      (cpath : CString) (attrs : Option ConfigAttrs) (strs : Option (Option CString)) (w : os.World)
      → Post
          (λ q n. (q ≡ p) × (n.heap ≡ written gadget_at g (listed gad linked.entries p conf) h))
          (λ _ n. n.heap ≡ freed config_at p h)
          (place_config g p cpath attrs strs (mem_at h w))
  unfolding place_config
  place_config-Post cpath attrs strs w =
      let put_in : M Ptr = insert_config g p >> return p in
      let set_up : M Ptr =
        on_error (set_up_config p attrs strs) (io (ignore (os.rmdir cpath)) >> free_config p)
        >> put_in in
      let make : M Ptr = on_error (io (call (os.mkdir cpath))) (free_config p) >> set_up in
      Keeps-guard (λ _. make) (free_config p) (Keeps-require (fits cpath) path_too_long w)
        (λ _ v.
          Keeps-guard (λ _. set_up) (free_config p) (Keeps-io (call (os.mkdir cpath)) v)
            (λ _ u.
              Keeps-guard (λ _. put_in) (io (ignore (os.rmdir cpath)) >> free_config p)
                (set_up_config-Keeps u attrs strs config)
                (λ _ t. rw (insert_config-written t) (returns (refl, refl)))
                (λ t. rw (free_config-freed (os.rmdir cpath t).1) (returns refl)))
            (λ u. rw (free_config-freed u) (returns refl)))
        (λ v. rw (free_config-freed v) (returns refl))
