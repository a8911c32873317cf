-- ===== src/Funcs/Ms/SetAttrs.antt =====
-- `usbg_f_ms_set_attrs` with and without its cleanup.
use libusbgx.Base.{
  ℕ, suc, ◌≡◌, refl, ◌∙◌, Bool, List, [], ◌∷◌, Option, none, some, length, arith, ltb, Bool-cases,
  inl, inr, if◌then◌else◌,
}
use libusbgx.Base.Int.{pos, negsuc}
use libusbgx.CStr.{c}
use libusbgx.Files.{write_bool}
use libusbgx.Funcs.Luns.{get_lun_mask}
use libusbgx.Funcs.Luns.Mask.{IsMs, get_lun_mask-IsMs}
use libusbgx.Funcs.Ms.{
  LunArray, MsAttrs, settle_luns, set_stall, get_nluns, plan_luns, set_entry, filled, ms_set_attrs,
}
use libusbgx.Funcs.Ms.Settle.{settle_only, settle_luns-only}
use libusbgx.Funcs.Ms.Sparse.{length-set_entry, length-filled}
use libusbgx.Heap.{Ptr, Heap, Function, Mem}
use libusbgx.Heap.Keeps.{mem_at, Keeps, kept, failed_kept, Keeps-load, Keeps-io}
use libusbgx.Heap.Monad.{M, Run, function_at, io, returned, fault, then_run, ◌>>=◌, ◌>>◌}
use libusbgx.Objects.{max_luns}
use libusbgx.Os.{Os}

-- `luns_to_be` is filled, or an index is out of bounds.
data Planned ⦃os : Os⦄ (m : Mem os) : Run (Mem os) (List (Option ℕ)) → Type 0 where
  planned : {to_be : List (Option ℕ)} → length to_be ≡ max_luns → Planned m (returned to_be m)
  out_of_bounds : Planned m fault

module _ ⦃os : Os⦄ where
  place-Planned :
      (id : ℕ) (next : ℕ → M (List (Option ℕ))) (m : Mem os)
      → ((id : ℕ) → Planned m (next id m))
      → Planned m ((if ltb id max_luns then next id else (λ m. fault)) m)
  place-Planned id next m rest = elim (Bool-cases (ltb id max_luns)) [
    | inl small ↦ rw small (rest id)
    | inr large ↦ rw large out_of_bounds
  ]

  plan_luns-Planned :
      (i : ℕ) (array : LunArray) (to_be : List (Option ℕ)) (m : Mem os)
      → length to_be ≡ max_luns
      → Planned m (plan_luns i array to_be m)
  unfolding plan_luns
  plan_luns-Planned i [] to_be m h = out_of_bounds
  plan_luns-Planned i (none ∷ rest) to_be m h = planned h
  plan_luns-Planned i (some lattrs ∷ rest) to_be m h =
      place-Planned (elim lattrs.id [ pos n ↦ n | negsuc n ↦ i ])
        (λ id. plan_luns (suc i) rest (set_entry id (some i) to_be)) m
        (λ id.
          plan_luns-Planned (suc i) rest (set_entry id (some i) to_be) m
            (length-set_entry id (some i) to_be ∙ h))

  -- `usbg_f_ms_set_attrs` without its cleanup.
  unfoldable pub ms_set_attrs_only : Ptr → MsAttrs → M (Unit {0})
  unfolding set_stall get_nluns plan_luns settle_only filled
  ms_set_attrs_only mf attrs = do
    set_stall mf attrs.stall
    luns ← get_lun_mask mf
    nluns ← get_nluns mf
    to_be ← plan_luns 0 attrs.luns (filled max_luns none)
    settle_only mf attrs.luns to_be max_luns 0

  then-Planned :
      {m : Mem os} {r : Run (Mem os) (List (Option ℕ))} (f g : List (Option ℕ) → M (Unit {0}))
      → Planned m r
      → ((to_be : List (Option ℕ)) → length to_be ≡ max_luns → f to_be m ≡ g to_be m)
      → then_run f r ≡ then_run g r
  then-Planned f g (planned h) same = same _ h
  then-Planned f g out_of_bounds same = refl

  then-kept :
      {h : Heap} {r : Run (Mem os) (Unit {0})} (f g : Unit {0} → M (Unit {0}))
      → Keeps h r
      → ((w : os.World) → f tt (mem_at h w) ≡ g tt (mem_at h w))
      → then_run f r ≡ then_run g r
  then-kept f g (kept tt w) same = same w
  then-kept f g (failed_kept e w) same = refl

  module _ {h : Heap} {mf : Ptr} {func : Function} (ms : IsMs h mf func) where
    set_stall-Keeps : (w : os.World) (stall : Bool) → Keeps h (set_stall mf stall (mem_at h w))
    unfolding set_stall
    set_stall-Keeps w stall =
        Keeps-load function_at (λ func. io (write_bool func.path func.name (c "stall") stall))
          ms.live (Keeps-io (write_bool func.path func.name (c "stall") stall) w)

    -- `usbg_f_ms_set_attrs` of a live mass storage function whose array of LUNs has been filled
    -- ends exactly as it would without the code behind `cleanup_luns`, for any attributes, and
    -- wherever it fails: the result, the structures and the environment are the same, so the
    -- cleanup of what it has made before an error has no effect.
    pub ms_set_attrs-only :
        (w : os.World) (attrs : MsAttrs)
        → ms_set_attrs mf attrs (mem_at h w) ≡ ms_set_attrs_only mf attrs (mem_at h w)
    unfolding ms_set_attrs ms_set_attrs_only get_nluns
    ms_set_attrs-only w attrs = then-kept _ _ (set_stall-Keeps w attrs.stall) (λ w.
        rw (get_lun_mask-IsMs ms w, get_lun_mask-IsMs ms w)
          (then-Planned (λ to_be. settle_luns mf attrs.luns to_be max_luns 0)
            (λ to_be. settle_only mf attrs.luns to_be max_luns 0)
            (plan_luns-Planned 0 attrs.luns (filled max_luns none) (mem_at h w)
              (length-filled {A = Option ℕ} max_luns none))
            (λ to_be sized.
              settle_luns-only mf attrs.luns to_be sized max_luns 0 w (omega arith) ms
                (λ k below. absurd (omega (arith, below))))))
