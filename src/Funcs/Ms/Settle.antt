-- ===== src/Funcs/Ms/Settle.antt =====
-- The main loop of `usbg_f_ms_set_attrs` with and without its cleanup.
use libusbgx.Base.{
  ℕ, zero, suc, ◌+◌, ◌<◌, ◌≤◌, ◌≡◌, refl, sym, subst, Bool, true, false, List, [], ◌∷◌, Option,
  none, some, get_elem?, length, arith, ltb, ltb→lt, Bool-cases, Option-cases, inl, inr,
}
use libusbgx.Base.Int.{pos}
use libusbgx.Error.{UsbgError}
use libusbgx.Funcs.Luns.{LunAttrs, lun_of, set_lun, create_lun}
use libusbgx.Funcs.Luns.Change.{create_lun-Post, rm_lun-Post}
use libusbgx.Funcs.Luns.Mask.{IsMs, with_lun, with_lun-IsMs, lun_of-set_lun, set_lun_attrs-Keeps}
use libusbgx.Funcs.Ms.{
  LunArray, at, lun_now, is_planned, settle_lun, settle_luns, set_entry_attrs, cleanup_luns,
}
use libusbgx.Funcs.Ms.Cleanup.{IsSettled, lun_now-IsMs, at-entry, cleanup_luns-idle}
use libusbgx.Heap.{Ptr, Heap, Function, Mem}
use libusbgx.Heap.Keeps.{mem_at, Keeps, kept, failed_kept}
use libusbgx.Heap.Monad.{M, Run, returned, raised, fault, return, then_run, clean, ◌>>=◌, ◌>>◌}
use libusbgx.Heap.Post.{Post, returns, raises}
use libusbgx.Objects.{max_luns}
use libusbgx.Os.{Os}

pub entry : {A : Type 0} (xs : List A) (k : ℕ) → k < length xs → (a : A) × (get_elem? xs k ≡ some a)
entry [] k h = absurd (omega arith)
entry (x ∷ xs) zero h = (x, refl)
entry (x ∷ xs) (suc k) h = entry xs k (omega arith)

module _ ⦃os : Os⦄ (mf : Ptr) (array : LunArray) (to_be : List (Option ℕ)) where
  -- The main loop without the cleanup.
  unfoldable pub settle_only : ℕ → ℕ → M (Unit {0})
  unfolding lun_now settle_lun
  settle_only zero i = return tt
  settle_only (suc n) i = do
    b ← lun_now mf i
    planned ← at to_be i
    settle_lun mf array i b planned
    settle_only n (suc i)

  -- What one round ends in: all LUNs that are planned up to its index exist, or nothing has
  -- changed, or it does not end.
  data Round (func : Function) (i : ℕ) : Run (Mem os) (Unit {0}) → Type 0 where
    went_on :
        {n : Mem os} {func' : Function}
        → IsMs n.heap mf func'
        → ((k : ℕ) → k < suc i → IsSettled func'.luns to_be k)
        → Round func i (returned tt n)
    stopped : {e : UsbgError} {n : Mem os} → IsMs n.heap mf func → Round func i (raised e n)
    broke : Round func i fault

  module _ {h : Heap} {func : Function} (ms : IsMs h mf func) (i : ℕ) (l : i < max_luns)
      (before : (k : ℕ) → k < i → IsSettled func.luns to_be k) where
    -- After LUN `i` was made or removed as planned.
    with_lun-IsSettled :
        (o : Option ℕ) (b : Bool) (k : ℕ)
        → get_elem? to_be i ≡ some o
        → (is_planned o ≡ true → b ≡ true)
        → k < suc i
        → IsSettled (set_lun i b func.luns) to_be k
    with_lun-IsSettled o b k e p small = elim (Bool-cases (ltb k i)) [
      | inl less ↦
          let (o', e', p') = before k (ltb→lt k i less) in
          (
            o',
            e',
            λ h.
                ground
                  (arith, lun_of-set_lun i k b func.luns (omega (arith, ms.sized)), p' h, less),
          )
      | inr equal ↦
          let same : k ≡ i = ground (arith, small, equal) in
          subst (λ k. IsSettled (set_lun i b func.luns) to_be k) (sym same)
            (
              o,
              e,
              λ h. ground (arith, lun_of-set_lun i i b func.luns (omega (arith, ms.sized)), p h),
            )
    ]

    unchanged-IsSettled :
        (o : Option ℕ) (k : ℕ)
        → get_elem? to_be i ≡ some o
        → (is_planned o ≡ true → lun_of func.luns i ≡ true)
        → k < suc i
        → IsSettled func.luns to_be k
    unchanged-IsSettled o k e p small = elim (Bool-cases (ltb k i)) [
      | inl less ↦ before k (ltb→lt k i less)
      | inr equal ↦
          let same : k ≡ i = ground (arith, small, equal) in
          subst (λ k. IsSettled func.luns to_be k) (sym same) (o, e, p)
    ]

    Post-Round :
        (w : os.World) (o : Option ℕ) (b : Bool) {P : Mem os → Type 0} {r : Run (Mem os) (Unit {0})}
        → get_elem? to_be i ≡ some o
        → (is_planned o ≡ true → b ≡ true)
        → Post (λ _ n. P n × (n.heap ≡ with_lun ms w i b)) (λ _ n. n.heap ≡ h) r
        → Round func i r
    Post-Round w o b e p (returns (_, same)) =
        went_on
          (subst (λ h. IsMs h mf (record func { luns = set_lun i b func.luns })) (sym same)
            (with_lun-IsMs ms w i b))
          (λ k small. with_lun-IsSettled o b k e p small)
    Post-Round w o b e p (raises same) = stopped (subst (λ h. IsMs h mf func) (sym same) ms)

    Keeps-Round :
        (o : Option ℕ) {r : Run (Mem os) (Unit {0})}
        → get_elem? to_be i ≡ some o
        → (is_planned o ≡ true → lun_of func.luns i ≡ true)
        → Keeps h r
        → Round func i r
    Keeps-Round o e p (kept tt w) = went_on ms (λ k small. unchanged-IsSettled o k e p small)
    Keeps-Round o e p (failed_kept _ w) = stopped ms

    set_entry_attrs-Round :
        (w : os.World) (o : Option ℕ) (lattrs : Option LunAttrs)
        → get_elem? to_be i ≡ some o
        → lun_of func.luns i ≡ true
        → Round func i (set_entry_attrs mf i lattrs (mem_at h w))
    unfolding set_entry_attrs
    set_entry_attrs-Round w o none e there = broke
    set_entry_attrs-Round w o (some lattrs) e there =
        Keeps-Round o e (λ _. there) (set_lun_attrs-Keeps ms w (pos i) lattrs)

    at-Round :
        (w : os.World) (f : Option LunAttrs → M (Unit {0}))
        → ((lattrs : Option LunAttrs) → Round func i (f lattrs (mem_at h w)))
        → Round func i ((at array i >>= f) (mem_at h w))
    at-Round w f next = elim (Option-cases (get_elem? array i)) [
      | inl missing ↦ rw (missing, at) broke
      | inr (lattrs, e) ↦ rw (e, at) (next lattrs)
    ]

    settle_lun-Round :
        (w : os.World) (b : Bool) (o : Option ℕ)
        → get_elem? to_be i ≡ some o
        → lun_of func.luns i ≡ b
        → Round func i (settle_lun mf array i b o (mem_at h w))
    unfolding settle_lun
    settle_lun-Round w true (some j) e there =
        at-Round w (set_entry_attrs mf i)
          (λ lattrs. set_entry_attrs-Round w (some j) lattrs e there)
    settle_lun-Round w true none e there = Post-Round w none false e (λ p. p) (rm_lun-Post ms w i l)
    settle_lun-Round w false (some j) e there =
        at-Round w (create_lun mf (pos i))
          (λ lattrs. Post-Round w (some j) true e (λ _. refl) (create_lun-Post ms w i lattrs l))
    settle_lun-Round w false none e there = Keeps-Round none e (λ p. ground (arith, p)) (kept tt w)

  module _ (sized : length to_be ≡ max_luns) where
    -- What follows a round is the same with the cleanup as without.
    next-Round :
        (func : Function) (i : ℕ) {r : Run (Mem os) (Unit {0})} (f g : Unit {0} → M (Unit {0}))
        → i < max_luns
        → Round func i r
        → ((k : ℕ) → k < i → IsSettled func.luns to_be k)
        → ((n : Mem os) (func' : Function)
            → IsMs n.heap mf func'
            → ((k : ℕ) → k < suc i → IsSettled func'.luns to_be k)
            → f tt n ≡ g tt n)
        → then_run f (clean (cleanup_luns mf to_be i 0) r) ≡ then_run g r
    next-Round func i f g l (went_on ms after) before same = same _ _ ms after
    next-Round func i f g l (stopped {n = n} ms) before same =
        rw (cleanup_luns-idle ms n.world to_be i (omega arith) before) refl
    next-Round func i f g l broke before same = refl

    pub settle_luns-only :
        (n i : ℕ) {h : Heap} {func : Function} (w : os.World)
        → i + n ≤ max_luns
        → IsMs h mf func
        → ((k : ℕ) → k < i → IsSettled func.luns to_be k)
        → settle_luns mf array to_be n i (mem_at h w) ≡ settle_only n i (mem_at h w)
    unfolding settle_luns settle_only
    settle_luns-only zero i w l ms before = refl
    settle_luns-only (suc n) i {h} {func} w l ms before =
        let (o, e) = entry to_be i (omega (arith, sized)) in
        rw (lun_now-IsMs ms w i (omega arith), at-entry ms w to_be i e)
          (next-Round func i (λ _. settle_luns mf array to_be n (suc i))
            (λ _. settle_only n (suc i)) (omega arith)
            (settle_lun-Round ms i (omega arith) before w (lun_of func.luns i) o e refl) before
            (λ m func' ms after. settle_luns-only n (suc i) m.world (omega arith) ms after))
