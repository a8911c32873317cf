-- ===== src/Funcs/Ms/Sparse.antt =====
-- The array that `usbg_f_ms_get_attrs` fills has an entry for each LUN and one more, and is
-- indexed by the numbers of the LUNs.
use libusbgx.Base.{
  ℕ, zero, suc, ◌+◌, ◌<◌, ◌≡◌, refl, subst, Bool, true, false, List, [], ◌∷◌, Option, none, some,
  get_elem?, length, arith, Option-cases, inl, inr,
}
use libusbgx.CStr.{c}
use libusbgx.Files.{read_bool}
use libusbgx.Funcs.Luns.{LunAttrs, lun_of, get_lun_attrs, get_lun_mask}
use libusbgx.Base.Int.{pos}
use libusbgx.Error.{no_mem}
use libusbgx.Os.Io.{allocate}
use libusbgx.Funcs.Ms.{
  LunArray, count_luns, set_entry, filled, fill_array, at, ms_get_attrs, get_stall, get_nluns,
}
use libusbgx.Funcs.Luns.Mask.{IsMs, get_lun_mask-IsMs}
use libusbgx.Heap.{Ptr, Heap, Function, Mem}
use libusbgx.Heap.Keeps.{mem_at, Keeps-io}
use libusbgx.Heap.Post.{load-returned}
use libusbgx.Heap.Returned.{
  IfReturned, if_returned, if_fault, IfReturned-bind, IfReturned-mono, IfReturned-Keeps,
  IfReturned-never,
}
use libusbgx.Heap.Monad.{returned, fault, io, return, ◌>>=◌, ◌>>◌}
use libusbgx.Os.{Os}

pub length-set_entry :
    {A : Type 0} (i : ℕ) (a : A) (xs : List A) → length (set_entry i a xs) ≡ length xs
unfolding set_entry
length-set_entry i a [] = refl
length-set_entry zero a (x ∷ xs) = refl
length-set_entry (suc i) a (x ∷ xs) = omega (arith, length-set_entry i a xs)

pub length-filled : {A : Type 0} (n : ℕ) (a : A) → length (filled n a) ≡ n
unfolding filled
length-filled zero a = refl
length-filled (suc n) a = omega (arith, length-filled n a)

get_elem?-below :
    {A : Type 0} (xs : List A) (i : ℕ) {a : A} → get_elem? xs i ≡ some a → i < length xs
get_elem?-below [] i h = ground arith
get_elem?-below (x ∷ xs) zero h = omega arith
get_elem?-below (x ∷ xs) (suc i) h = let k = get_elem?-below xs i h in omega (arith, k)

module _ ⦃os : Os⦄ where
  at-none :
      {A : Type 0} (xs : List A) (i : ℕ) (m : Mem os) → get_elem? xs i ≡ none → at xs i m ≡ fault
  at-none xs i m e = ground (arith, e)

  at-some :
      {A : Type 0} (xs : List A) (i : ℕ) (m : Mem os) {a : A}
      → get_elem? xs i ≡ some a
      → at xs i m ≡ returned a m
  at-some xs i m e = ground (arith, e)

  module _ (mf : Ptr) where
    -- The LUNs from the index `i` on are within the array.
    AreWithin : ℕ → List Bool → LunArray → Type 0
    AreWithin i bs array = (j : ℕ) → lun_of bs j ≡ true → i + j < length array

    later :
        {b : Bool} (i : ℕ) (bs : List Bool) (array : LunArray)
        → (b ≡ true → i < length array)
        → AreWithin (suc i) bs array
        → AreWithin i (b ∷ bs) array
    unfolding AreWithin
    later i bs array first rest zero h = omega (arith, first h)
    later i bs array first rest (suc j) h = omega (arith, rest j h)

    fill_array-AreWithin :
        (i : ℕ) (bs : List Bool) (array : LunArray) (m : Mem os)
        → IfReturned (λ _. AreWithin i bs array) (fill_array mf i bs array m)
    unfolding fill_array AreWithin
    fill_array-AreWithin i [] array m = if_returned (λ j h. ground arith)
    fill_array-AreWithin i (false ∷ bs) array m =
        IfReturned-mono (λ _ p. later i bs array (λ h. ground arith) p)
          (fill_array-AreWithin (suc i) bs array m)
    fill_array-AreWithin i (true ∷ bs) array m = elim (Option-cases (get_elem? array i)) [
      | inl e ↦ rw (at-none array i m e) if_fault
      | inr (old, e) ↦
          let below = get_elem?-below array i e in
          rw (at-some array i m e) (
            IfReturned-bind
              (λ _. get_lun_attrs mf (pos i) >>= λ attrs.
                fill_array mf (suc i) bs (set_entry i (some attrs) array))
              (io (allocate no_mem) m)
              (λ _ m.
                IfReturned-bind (λ attrs. fill_array mf (suc i) bs (set_entry i (some attrs) array))
                  (get_lun_attrs mf (pos i) m)
                  (λ attrs m.
                    IfReturned-mono
                      (λ _ p.
                        later i bs array (λ _. below)
                          (subst (λ n. (j : ℕ) → lun_of bs j ≡ true → suc i + j < n)
                            (length-set_entry i (some attrs) array) p))
                      (fill_array-AreWithin (suc i) bs (set_entry i (some attrs) array) m))))
    ]

too_many :
    ⦃os : Os⦄ (mf : Ptr) (luns : List Bool) (k : ℕ)
    → lun_of luns k ≡ true
    → count_luns luns < k
    → ¬ AreWithin mf 0 luns (filled (count_luns luns + 1) none)
unfolding AreWithin
too_many mf luns k there many p =
    omega (arith, many, p k there, length-filled {A = Option LunAttrs} (count_luns luns + 1) none)

-- `usbg_f_ms_get_attrs` of a live mass storage function, whose array of LUNs has been filled and
-- holds a LUN with a number above the number of LUNs, never returns attributes: it fails, or it
-- writes beyond the array that it has allocated.
pub ms_get_attrs-Sparse :
    ⦃os : Os⦄ {h : Heap} {mf : Ptr} {func : Function} (w : os.World) (k : ℕ)
    → IsMs h mf func
    → lun_of func.luns k ≡ true
    → count_luns func.luns < k
    → IfReturned (λ _. ⊥) (ms_get_attrs mf (mem_at h w))
unfolding ms_get_attrs get_stall get_nluns
ms_get_attrs-Sparse ⦃os⦄ {h = h} {mf} {func} w k ms there many =
    let mask : (w : os.World) → get_lun_mask mf (mem_at h w) ≡ returned func.luns (mem_at h w) =
      λ w. get_lun_mask-IsMs ms w in
    let n = count_luns func.luns in
    let array : LunArray = filled (n + 1) none in
    let result = λ (stall : Bool) (luns : LunArray).
      return (record { stall = stall; nluns = n; luns = luns }) in
    rw (load-returned {m = mem_at h w} ms.live) (
      IfReturned-Keeps
        (λ stall. get_lun_mask mf >>= λ luns.
          (get_nluns mf >>= λ nluns.
          (io (allocate no_mem)
            >> (fill_array mf 0 luns (filled (nluns + 1) none) >>= λ array.
                return (record { stall = stall; nluns = nluns; luns = array })))))
        (Keeps-io (read_bool func.path func.name (c "stall")) w)
        (λ stall w.
          rw (mask w, mask w)
            (IfReturned-Keeps (λ _. fill_array mf 0 func.luns array >>= result stall)
              (Keeps-io (allocate no_mem) w)
              (λ _ w.
                IfReturned-never (result stall) (λ _. too_many mf func.luns k there many)
                  (fill_array-AreWithin mf 0 func.luns array (mem_at h w))))))
