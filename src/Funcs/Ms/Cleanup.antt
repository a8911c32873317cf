-- ===== src/Funcs/Ms/Cleanup.antt =====
-- What `usbg_f_ms_set_attrs` does about the LUNs that it has created, when it fails later.
use libusbgx.Base.{
  ℕ, zero, suc, ◌+◌, ◌<◌, ◌≤◌, ◌≡◌, refl, Bool, true, false, not, ◌&&◌, List, Option, some,
  get_elem?, arith, if◌then◌else◌,
}
use libusbgx.Base.Int.{pos}
use libusbgx.Funcs.Luns.{lun_of, rm_lun}
use libusbgx.Funcs.Luns.Mask.{IsMs, lun_at-IsMs}
use libusbgx.Funcs.Ms.{cleanup_luns, lun_now, is_planned, at}
use libusbgx.Heap.{Ptr, Heap, Function}
use libusbgx.Heap.Keeps.{mem_at}
use libusbgx.Heap.Monad.{returned, return, ignored}
use libusbgx.Heap.Post.{load-returned}
use libusbgx.Objects.{max_luns}
use libusbgx.Os.{Os}

-- `luns_to_be` has an entry for the index, and if a LUN is planned there, it exists by now.
abbrev pub IsSettled : List Bool → List (Option ℕ) → ℕ → Type 0
IsSettled luns to_be k =
    (o : Option ℕ) × (get_elem? to_be k ≡ some o) × (is_planned o ≡ true → lun_of luns k ≡ true)

module _ ⦃os : Os⦄ {h : Heap} {mf : Ptr} {func : Function} (ms : IsMs h mf func)
    (w : os.World) where
  pub lun_now-IsMs :
      (k : ℕ)
      → k < max_luns
      → lun_now mf k (mem_at h w) ≡ returned (lun_of func.luns k) (mem_at h w)
  unfolding lun_now
  lun_now-IsMs k l = rw (load-returned {m = mem_at h w} ms.live) (lun_at-IsMs ms w k l)

  pub at-entry :
      (to_be : List (Option ℕ)) (k : ℕ) {o : Option ℕ}
      → get_elem? to_be k ≡ some o
      → at to_be k (mem_at h w) ≡ returned o (mem_at h w)
  at-entry to_be k e = ground (arith, e)

  skip :
      (b p : Bool) (mf : Ptr) (k : ℕ)
      → (p ≡ true → b ≡ true)
      → (if not b && p then ignored (rm_lun mf (pos k)) else return tt) (mem_at h w)
        ≡ returned tt (mem_at h w)
  skip true p mf k settled = refl
  skip false true mf k settled = ground (arith, settled refl)
  skip false false mf k settled = refl

  from_index :
      (to_be : List (Option ℕ)) (n j : ℕ)
      → j + n ≤ max_luns
      → ((k : ℕ) → j ≤ k → k < j + n → IsSettled func.luns to_be k)
      → cleanup_luns mf to_be n j (mem_at h w) ≡ returned tt (mem_at h w)
  unfolding cleanup_luns
  from_index to_be zero j l settled = refl
  from_index to_be (suc n) j l settled =
      let (o, e, planned) = settled j (omega arith) (omega arith) in
      rw
        (
          lun_now-IsMs j (omega arith),
          at-entry to_be j e,
          skip (lun_of func.luns j) (is_planned o) mf j planned,
        )
        (from_index to_be n (suc j) (omega arith) (λ k a b. settled k (omega arith) (omega arith)))

  pub cleanup_luns-idle :
      (to_be : List (Option ℕ)) (i : ℕ)
      → i ≤ max_luns
      → ((k : ℕ) → k < i → IsSettled func.luns to_be k)
      → cleanup_luns mf to_be i 0 (mem_at h w) ≡ returned tt (mem_at h w)
  cleanup_luns-idle to_be i l settled =
      from_index to_be i 0 (omega arith) (λ k a b. settled k (omega (arith, b)))
