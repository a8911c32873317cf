-- ===== src/Heap/Insert.antt =====
-- The macro INSERT_TAILQ_STRING_ORDER on a list in memory.
pub mod Linked
use libusbgx.Base.{ℕ, Bool, List, [], ◌∷◌, map}
use libusbgx.CStr.{CString}
use libusbgx.Error.{UsbgError, exist}
use libusbgx.Heap.{Ptr, null, Mem}
use libusbgx.Heap.Monad.{M, Slot, return, load, load_all, ◌>>=◌}
use libusbgx.Os.{Os}
use libusbgx.Tailq.{insert_string_order}

-- An entry with its structure.
abbrev pub entry_ptr : {A : Type 0} → Ptr × A → Ptr
entry_ptr e = e.0

module _ ⦃os : Os⦄ where
  -- INSERT_TAILQ_STRING_ORDER on the entries of a list. All names are read first.
  unfoldable pub insert_by_name :
      {A : Type 0} → Slot A → (A → CString) → Ptr → List Ptr → M (List Ptr)
  unfolding insert_string_order
  insert_by_name slot name p ps = do
    a ← load slot p
    entries ← load_all slot ps
    return (map entry_ptr (insert_string_order (λ e. name e.1) (p, a) entries))
