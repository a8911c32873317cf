-- ===== src/Funcs/Luns/Mask.antt =====
-- The array of the LUNs that exist.
use libusbgx.Base.{
  ℕ, zero, suc, ◌<◌, ◌≡◌, refl, Bool, true, List, [], ◌∷◌, some, get_elem?, length, arith, ◌==◌,
  ◌∙◌, ==_refl, if◌then◌else◌,
}
use libusbgx.Error.{path_too_long}
use libusbgx.Funcs.Attrs.{set_fields}
use libusbgx.Files.{fits}
use libusbgx.Funcs.Luns.{
  LunAttrs, set_lun, lun_of, lun_at, get_lun_mask, write_lun, set_lun_attrs, set_lun_attrs_if,
  lun_path, ms_lun_attr,
}
use libusbgx.Funcs.Tables.Frame.{set_fields-Keeps}
use libusbgx.Heap.{Ptr, Heap, Function}
use libusbgx.Heap.Keeps.{mem_at, Keeps, kept, Keeps-bind, Keeps-load, Keeps-require}
use libusbgx.Heap.Monad.{returned, function_at, written, require, ◌>>◌}
use libusbgx.Heap.Post.{Live, load-returned, store-returned}
use libusbgx.Objects.{max_luns}
use libusbgx.Base.{Option, none}
use libusbgx.Base.Int.{ℤ, pos}
use libusbgx.Os.{Os}

pub lun_of-set_lun :
    (i j : ℕ) (b : Bool) (luns : List Bool)
    → i < length luns
    → lun_of (set_lun i b luns) j ≡ (if i == j then b else lun_of luns j)
unfolding set_lun
lun_of-set_lun i j b [] h = absurd (omega arith)
lun_of-set_lun zero zero b (x ∷ xs) h = refl
lun_of-set_lun zero (suc j) b (x ∷ xs) h = ground arith
lun_of-set_lun (suc i) zero b (x ∷ xs) h = ground arith
lun_of-set_lun (suc i) (suc j) b (x ∷ xs) h = ground (arith, lun_of-set_lun i j b xs (omega arith))

pub length-set_lun : (i : ℕ) (b : Bool) (luns : List Bool) → length (set_lun i b luns) ≡ length luns
unfolding set_lun
length-set_lun i b [] = refl
length-set_lun zero b (x ∷ xs) = refl
length-set_lun (suc i) b (x ∷ xs) = omega (arith, length-set_lun i b xs)

pub get_elem?-lun_of :
    (luns : List Bool) (i : ℕ) → i < length luns → get_elem? luns i ≡ some (lun_of luns i)
get_elem?-lun_of [] i h = absurd (omega arith)
get_elem?-lun_of (x ∷ xs) zero h = refl
get_elem?-lun_of (x ∷ xs) (suc i) h = get_elem?-lun_of xs i (omega arith)

-- A live mass storage function whose array has been filled.
pub record IsMs (h : Heap) (mf : Ptr) (func : Function) : Type 0 where
  pub live : Live function_at h mf func
  pub initiated : func.luns_initiated ≡ true
  pub sized : length func.luns ≡ max_luns

module _ ⦃os : Os⦄ {h : Heap} {mf : Ptr} {func : Function} (ms : IsMs h mf func)
    (w : os.World) where
  pub get_lun_mask-IsMs : get_lun_mask mf (mem_at h w) ≡ returned func.luns (mem_at h w)
  unfolding get_lun_mask
  get_lun_mask-IsMs =
      let load = load-returned {m = mem_at h w} ms.live in rw (load, ms.initiated, load) refl

  pub lun_at-IsMs :
      (i : ℕ)
      → i < max_luns
      → lun_at func.luns (pos i) (mem_at h w) ≡ returned (lun_of func.luns i) (mem_at h w)
  unfolding lun_at
  lun_at-IsMs i l = ground (arith, get_elem?-lun_of func.luns i, ms.sized)

  -- The heap with an element of the array written.
  abbrev pub with_lun : ℕ → Bool → Heap
  with_lun i b = written function_at mf (record func { luns = set_lun i b func.luns }) h

  pub with_lun-IsMs :
      (i : ℕ) (b : Bool) → IsMs (with_lun i b) mf (record func { luns = set_lun i b func.luns })
  with_lun-IsMs i b = record {
    live = record { ne_null = ms.live.ne_null; holds = ground (arith, ==_refl mf) };
    initiated = ms.initiated;
    sized = length-set_lun i b func.luns ∙ ms.sized;
  }

  pub write_lun-IsMs :
      (i : ℕ) (b : Bool)
      → write_lun mf (pos i) b (mem_at h w) ≡ returned tt (mem_at (with_lun i b) w)
  unfolding write_lun
  write_lun-IsMs i b =
      rw (load-returned {m = mem_at h w} ms.live) (store-returned {m = mem_at h w} ms.live _)

  pub set_lun_attrs-Keeps :
      (id : ℤ) (lattrs : LunAttrs) → Keeps h (set_lun_attrs mf id lattrs (mem_at h w))
  unfolding set_lun_attrs
  set_lun_attrs-Keeps id lattrs =
      Keeps-load function_at
        (λ func.
          require (fits (lun_path func id)) path_too_long
          >> set_fields (lun_path func id) [] ms_lun_attr lattrs.attrs)
        ms.live
        (Keeps-bind (λ _. set_fields (lun_path func id) [] ms_lun_attr lattrs.attrs)
          (Keeps-require (fits (lun_path func id)) path_too_long w)
          (λ _ w.
            set_fields-Keeps (lun_path func id) [] ms_lun_attr lattrs.attrs w
              (refl, (refl, (refl, (refl, (refl, (refl, tt))))))))

  pub set_lun_attrs_if-Keeps :
      (id : ℤ) (lattrs : Option LunAttrs) → Keeps h (set_lun_attrs_if mf id lattrs (mem_at h w))
  unfolding set_lun_attrs_if
  set_lun_attrs_if-Keeps id none = kept tt w
  set_lun_attrs_if-Keeps id (some lattrs) = set_lun_attrs-Keeps id lattrs
