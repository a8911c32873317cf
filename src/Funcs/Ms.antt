-- ===== src/Funcs/Ms.antt =====
-- src/function/ms.c: the attributes of a mass storage function as a whole, and its removal.
pub mod Sparse
pub mod Cleanup
pub mod Settle
pub mod SetAttrs
use libusbgx.Base.{
  ℕ, zero, suc, ◌+◌, ◌-◌, Bool, true, false, not, ◌&&◌, List, [], ◌∷◌, Option, none, some,
  get_elem?, length, ltb, if◌then◌else◌,
}
use libusbgx.Base.Int.{ℤ, pos, negsuc}
use libusbgx.CStr.{CString, c}
use libusbgx.Error.{no_mem}
use libusbgx.Files.{read_bool, write_bool}
use libusbgx.Funcs.Luns.{
  LunAttrs, lun_of, lun_at, get_lun_mask, get_lun_attrs, set_lun_attrs, create_lun, rm_lun,
}
use libusbgx.Heap.{Ptr}
use libusbgx.Heap.Monad.{M, fault, return, io, load, function_at, on_error, ignored, ◌>>=◌, ◌>>◌}
use libusbgx.Objects.{max_luns}
use libusbgx.Os.{Os}
use libusbgx.Os.Io.{allocate}

-- An array of pointers to attributes of LUNs: NULL, or what the pointer points to.
abbrev pub LunArray : Type 0
LunArray = List (Option LunAttrs)

-- `struct usbg_f_ms_attrs`
pub record MsAttrs : Type 0 where
  pub stall : Bool
  pub nluns : ℕ
  pub luns : LunArray

unfoldable pub count_luns : List Bool → ℕ
count_luns [] = 0
count_luns (b ∷ bs) = (if b then 1 else 0) + count_luns bs

unfoldable pub set_entry {ℓ} : {A : Type ℓ} → ℕ → A → List A → List A
set_entry i a [] = []
set_entry zero a (x ∷ xs) = a ∷ xs
set_entry (suc i) a (x ∷ xs) = x ∷ set_entry i a xs

unfoldable pub filled {ℓ} : {A : Type ℓ} → ℕ → A → List A
filled zero a = []
filled (suc n) a = a ∷ filled n a

abbrev pub is_planned : Option ℕ → Bool
is_planned none = false
is_planned (some j) = true

module _ ⦃os : Os⦄ where
  -- An element of an array.
  abbrev pub at : {A : Type 0} → List A → ℕ → M A
  at xs i = elim (get_elem? xs i) [ none ↦ λ m. fault | some a ↦ return a ]

  -- `luns[i]`, where `luns` points into the function.
  unfoldable pub lun_now : Ptr → ℕ → M Bool
  unfolding lun_at
  lun_now mf i = do func ← load function_at mf; lun_at func.luns (pos i)

  unfoldable pub get_stall : Ptr → M Bool
  get_stall mf = do func ← load function_at mf; io (read_bool func.path func.name (c "stall"))

  unfoldable pub set_stall : Ptr → Bool → M (Unit {0})
  set_stall mf stall = do
    func ← load function_at mf
    io (write_bool func.path func.name (c "stall") stall)

  unfoldable pub get_nluns : Ptr → M ℕ
  unfolding count_luns get_lun_mask
  get_nluns mf = do luns ← get_lun_mask mf; return (count_luns luns)

  -- The loop of `usbg_f_ms_get_attrs` from the index `i` on, for the entries of `luns` from there
  -- on. A LUN's attributes are written to its index, which has to be within the array.
  unfoldable pub fill_array : Ptr → ℕ → List Bool → LunArray → M LunArray
  unfolding set_entry
  fill_array mf i [] array = return array
  fill_array mf i (false ∷ bs) array = fill_array mf (suc i) bs array
  fill_array mf i (true ∷ bs) array = do
    old ← at array i
    io (allocate no_mem)
    attrs ← get_lun_attrs mf (pos i)
    fill_array mf (suc i) bs (set_entry i (some attrs) array)

  unfoldable pub ms_get_attrs : Ptr → M MsAttrs
  unfolding get_stall get_nluns fill_array filled
  ms_get_attrs mf = do
    stall ← get_stall mf
    luns ← get_lun_mask mf
    nluns ← get_nluns mf
    io (allocate no_mem)
    array ← fill_array mf 0 luns (filled (nluns + 1) none)
    return (record { stall = stall; nluns = nluns; luns = array })

  -- The loop that fills `luns_to_be`: from the index `i` on, where NULL ends the array.
  unfoldable pub plan_luns : ℕ → LunArray → List (Option ℕ) → M (List (Option ℕ))
  unfolding set_entry
  plan_luns i [] to_be = λ m. fault
  plan_luns i (none ∷ rest) to_be = return to_be
  plan_luns i (some lattrs ∷ rest) to_be =
      let id : ℕ = elim lattrs.id [ pos n ↦ n | negsuc n ↦ i ] in
      if ltb id max_luns then plan_luns (suc i) rest (set_entry id (some i) to_be) else λ m. fault

  -- `usbg_f_ms_set_lun_attrs` reads what its last argument points to.
  unfoldable pub set_entry_attrs : Ptr → ℕ → Option LunAttrs → M (Unit {0})
  set_entry_attrs mf i none = λ m. fault
  set_entry_attrs mf i (some lattrs) = set_lun_attrs mf (pos i) lattrs

  -- What is done for one LUN. The attributes are those at the index `i` of the array, not those
  -- at the index in `luns_to_be`.
  unfoldable pub settle_lun : Ptr → LunArray → ℕ → Bool → Option ℕ → M (Unit {0})
  unfolding set_entry_attrs
  settle_lun mf array i true (some j) = do lattrs ← at array i; set_entry_attrs mf i lattrs
  settle_lun mf array i true none = rm_lun mf (pos i)
  settle_lun mf array i false (some j) = do lattrs ← at array i; create_lun mf (pos i) lattrs
  settle_lun mf array i false none = return tt

  -- The loop behind `cleanup_luns`, for `n` indices from `j` on.
  unfoldable pub cleanup_luns : Ptr → List (Option ℕ) → ℕ → ℕ → M (Unit {0})
  unfolding lun_now
  cleanup_luns mf to_be zero j = return tt
  cleanup_luns mf to_be (suc n) j = do
    b ← lun_now mf j
    planned ← at to_be j
    if not b && is_planned planned then ignored (rm_lun mf (pos j)) else return tt
    cleanup_luns mf to_be n (suc j)

  -- The main loop, for `n` indices from `i` on.
  unfoldable pub settle_luns : Ptr → LunArray → List (Option ℕ) → ℕ → ℕ → M (Unit {0})
  unfolding lun_now settle_lun cleanup_luns
  settle_luns mf array to_be zero i = return tt
  settle_luns mf array to_be (suc n) i = do
    b ← lun_now mf i
    planned ← at to_be i
    on_error (settle_lun mf array i b planned) (cleanup_luns mf to_be i 0)
    settle_luns mf array to_be n (suc i)

  unfoldable pub ms_set_attrs : Ptr → MsAttrs → M (Unit {0})
  unfolding set_stall get_nluns plan_luns settle_luns filled
  ms_set_attrs mf attrs = do
    set_stall mf attrs.stall
    luns ← get_lun_mask mf
    nluns ← get_nluns mf
    to_be ← plan_luns 0 attrs.luns (filled max_luns none)
    settle_luns mf attrs.luns to_be max_luns 0

  -- The loop of `ms_remove`, for `n` indices from `i` on.
  unfoldable pub remove_luns : Ptr → ℕ → ℕ → M (Unit {0})
  unfolding lun_now
  remove_luns mf zero i = return tt
  remove_luns mf (suc n) i = do
    b ← lun_now mf i
    if b then rm_lun mf (pos i) else return tt
    remove_luns mf n (suc i)

  -- LUN 0 cannot be removed.
  unfoldable pub ms_remove : Ptr → ℕ → M (Unit {0})
  unfolding remove_luns
  ms_remove f opts = do luns ← get_lun_mask f; remove_luns f (max_luns - 1) 1
