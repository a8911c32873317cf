-- ===== src/FunctionOps.antt =====
-- `struct usbg_function_type` of usbg_internal.h as usbg.c sees it: what the code of src/function
-- implements for each type, behind the index into `function_types`. The allocation is the same
-- for all types and stands in `Objects`. `Funcs.Ops` has the types themselves.
use libusbgx.Base.{ℕ, Option}
use libusbgx.Heap.{Ptr}
use libusbgx.Heap.Monad.{M}
use libusbgx.Os.{Os}

pub record FunctionOps (os : Os) : Type 1 where
  -- What a `void *f_attrs` that is not NULL points to, when it is read and when it was filled.
  pub Attrs : Type 0
  pub Filled : Type 0
  pub set_attrs : ℕ → Ptr → Attrs → M ⦃os = os⦄ (Unit {0})
  pub get_attrs : ℕ → Ptr → M ⦃os = os⦄ Filled
  -- NULL for the types that have nothing of their own to remove.
  pub remove : ℕ → Option (Ptr → ℕ → M ⦃os = os⦄ (Unit {0}))
