-- ===== src/Funcs/Luns/Change.antt =====
-- What creating and removing a LUN does to the array.
use libusbgx.Base.{ℕ, ◌<◌, ◌≡◌, refl, Bool, true, false, not, Option, ltb, lt→ltb}
use libusbgx.Base.Int.{pos}
use libusbgx.CStr.{CString}
use libusbgx.Error.{UsbgError, exist, path_too_long, invalid_param}
use libusbgx.Files.{fits}
use libusbgx.Funcs.Luns.{
  LunAttrs, lun_of, write_lun, set_lun_attrs_if, lun_path, create_lun, rm_lun,
}
use libusbgx.Funcs.Luns.Mask.{
  IsMs, with_lun, get_lun_mask-IsMs, lun_at-IsMs, write_lun-IsMs, set_lun_attrs_if-Keeps,
}
use libusbgx.Heap.{Ptr, Heap, Function, Mem}
use libusbgx.Heap.Keeps.{mem_at, Keeps-Post, Keeps-guard, Keeps-require}
use libusbgx.Heap.Monad.{M, raised, function_at, require, io, load, on_error, ◌>>=◌, ◌>>◌}
use libusbgx.Heap.Post.{Post, returns, raises, Post-io, Post-mono, io-Post, load-returned}
use libusbgx.Objects.{max_luns}
use libusbgx.Os.{Os}
use libusbgx.Os.Io.{call, ignore}

module _ ⦃os : Os⦄ {h : Heap} {mf : Ptr} {func : Function} (ms : IsMs h mf func)
    (w : os.World) where
  -- What comes after the array was looked at.
  change_lun-run :
      (id : ℕ) (b : Bool) (w : os.World)
      → Post
          (λ _ n. n.heap ≡ with_lun ms w id b)
          (λ _ n. n.heap ≡ h)
          (write_lun mf (pos id) b (mem_at h w))
  change_lun-run id b w = rw (write_lun-IsMs ms w id b) (returns refl)

  make_lun : ℕ → Option LunAttrs → M (Unit {0})
  make_lun id lattrs =
      io (call (os.mkdir (lun_path func (pos id))))
      >> (on_error (set_lun_attrs_if mf (pos id) lattrs)
            (io (ignore (os.rmdir (lun_path func (pos id)))))
          >> write_lun mf (pos id) true)

  make_lun-Post :
      (id : ℕ) (lattrs : Option LunAttrs) (w : os.World)
      → Post
          (λ _ n. n.heap ≡ with_lun ms w id true)
          (λ _ n. n.heap ≡ h)
          (make_lun id lattrs (mem_at h w))
  unfolding make_lun
  make_lun-Post id lattrs w =
      let undo : M (Unit {0}) = io (ignore (os.rmdir (lun_path func (pos id)))) in
      Post-io (call (os.mkdir (lun_path func (pos id))))
        (λ _. on_error (set_lun_attrs_if mf (pos id) lattrs) undo >> write_lun mf (pos id) true)
        (mem_at h w)
        (λ _ w.
          Keeps-guard (λ _. write_lun mf (pos id) true) undo
            (set_lun_attrs_if-Keeps ms w (pos id) lattrs) (λ _ w. change_lun-run id true w)
            (λ w.
              io-Post (ignore (os.rmdir (lun_path func (pos id)))) (mem_at h w) (λ _ _. refl)
                (λ _ _. refl)))
        (λ _ _. refl)

  -- A test, and what is done with the function if it holds.
  load_if-Post :
      {P : Mem os → Type 0} (b : Bool) (e : UsbgError) (act : Function → M (Unit {0}))
      → Post (λ _ n. P n) (λ _ n. n.heap ≡ h) (act func (mem_at h w))
      → Post
          (λ _ n. (b ≡ true) × P n)
          (λ _ n. n.heap ≡ h)
          ((require b e >> (load function_at mf >>= act)) (mem_at h w))
  load_if-Post true e act next =
      rw (load-returned {m = mem_at h w} ms.live) (Post-mono next (λ _ _ p. (refl, p)) (λ _ _ q. q))
  load_if-Post false e act next = raises refl

  -- The test of the path.
  fits-Post :
      {P : Mem os → Type 0} (path : CString) (act : M (Unit {0}))
      → ((w : os.World) → Post (λ _ n. P n) (λ _ n. n.heap ≡ h) (act (mem_at h w)))
      → Post
          (λ _ n. P n)
          (λ _ n. n.heap ≡ h)
          ((require (fits path) path_too_long >> act) (mem_at h w))
  fits-Post path act next =
      Keeps-Post (λ _. act) (Keeps-require (fits path) path_too_long w) (λ _ w. next w) (λ _. refl)

  pub create_lun-Post :
      (id : ℕ) (lattrs : Option LunAttrs)
      → id < max_luns
      → Post
          (λ _ n. (not (lun_of func.luns id) ≡ true) × (n.heap ≡ with_lun ms w id true))
          (λ _ n. n.heap ≡ h)
          (create_lun mf (pos id) lattrs (mem_at h w))
  unfolding create_lun make_lun
  create_lun-Post id lattrs l =
      rw (lt→ltb id max_luns l, get_lun_mask-IsMs ms w, lun_at-IsMs ms w id l)
        (load_if-Post (not (lun_of func.luns id)) exist
          (λ func.
            require (fits (lun_path func (pos id))) path_too_long
            >> (io (call (os.mkdir (lun_path func (pos id))))
                >> (on_error (set_lun_attrs_if mf (pos id) lattrs)
                      (io (ignore (os.rmdir (lun_path func (pos id)))))
                    >> write_lun mf (pos id) true)))
          (fits-Post (lun_path func (pos id)) (make_lun id lattrs) (make_lun-Post id lattrs)))

  pub rm_lun-Post :
      (id : ℕ)
      → id < max_luns
      → Post
          (λ _ n. (lun_of func.luns id ≡ true) × (n.heap ≡ with_lun ms w id false))
          (λ _ n. n.heap ≡ h)
          (rm_lun mf (pos id) (mem_at h w))
  unfolding rm_lun
  rm_lun-Post id l =
      rw (lt→ltb id max_luns l, get_lun_mask-IsMs ms w, lun_at-IsMs ms w id l)
        (load_if-Post (lun_of func.luns id) invalid_param
          (λ func.
            require (fits (lun_path func (pos id))) path_too_long
            >> (io (call (os.rmdir (lun_path func (pos id)))) >> write_lun mf (pos id) false))
          (fits-Post (lun_path func (pos id))
            (io (call (os.rmdir (lun_path func (pos id)))) >> write_lun mf (pos id) false)
            (λ w.
              Post-io (call (os.rmdir (lun_path func (pos id)))) (λ _. write_lun mf (pos id) false)
                (mem_at h w) (λ _ w. change_lun-run id false w) (λ _ _. refl))))

-- A number that is too large is refused.
module _ ⦃os : Os⦄ (mf : Ptr) (id : ℕ) (m : Mem os) (large : ltb id max_luns ≡ false) where
  pub create_lun-refused :
      (lattrs : Option LunAttrs) → create_lun mf (pos id) lattrs m ≡ raised invalid_param m
  unfolding create_lun
  create_lun-refused lattrs = rw large refl

  pub rm_lun-refused : rm_lun mf (pos id) m ≡ raised invalid_param m
  unfolding rm_lun
  rm_lun-refused = rw large refl
