-- ===== src/Funcs/Attrs.antt =====
-- The attributes of a function as src/function handles them: a table that has for each attribute
-- its name, whether it is read only, and its type, which stands for the pair of `.get` and `.set`.
use libusbgx.Base.{ℕ, Bool, true, List, [], ◌∷◌, none, some, get_elem?, if◌then◌else◌}
use libusbgx.CStr.{CString}
use libusbgx.Error.{invalid_param}
use libusbgx.Funcs.Values.{Kind, Val, get_value, set_value}
use libusbgx.Heap.Monad.{M, fault, return, raise, io, ◌>>=◌, ◌>>◌}
use libusbgx.Num.{to_short}
use libusbgx.Os.{Os}

-- An entry of `midi_attr` and its like.
pub record Attr : Type 0 where
  pub name : CString
  pub ro : Bool
  pub kind : Kind

-- `struct usbg_f_midi_attrs` and its like: a field for each entry, at `.offset`.
abbrev pub Fields : List Attr → Type 0
Fields [] = Unit
Fields (e ∷ es) = Val e.kind × Fields es

-- `union usbg_f_midi_attr_val` and its like: what each of its members reads as.
abbrev pub Union : Type 0
Union = (k : Kind) → Val k

-- A value, with the member of the union that was written.
abbrev pub Value : Type 0
Value = (k : Kind) × Val k

-- What a field holds after `.get` has written an `int` to its offset: of a field that is declared
-- as a `short`, the low 16 bits, where the byte order is little endian.
abbrev pub narrow : (k : Kind) → Bool → Val k → Val k
narrow Kind.dec true v = to_short v
narrow k b v = v

-- The flags say which fields are declared as a `short`.
unfoldable pub narrow_fields : List Bool → (table : List Attr) → Fields table → Fields table
unfolding to_short
narrow_fields flags [] a = a
narrow_fields [] (e ∷ es) a = a
narrow_fields (b ∷ bs) (e ∷ es) (v, rest) = (narrow e.kind b v, narrow_fields bs es rest)

module _ ⦃os : Os⦄ (path name : CString) where
  -- The loop of `usbg_f_midi_get_attrs` and its like, which ends at the first error.
  unfoldable pub get_fields : (table : List Attr) → M (Fields table)
  get_fields [] = return tt
  get_fields (e ∷ es) = do
    v ← io (get_value e.kind path name e.name)
    rest ← get_fields es
    return (v, rest)

  -- The loop of `usbg_f_net_set_attrs` and its like.
  unfoldable pub set_fields : (table : List Attr) → Fields table → M (Unit {0})
  set_fields [] a = return tt
  set_fields (e ∷ es) (v, rest) = do
    if e.ro then return tt else set_value e.kind path name e.name v
    set_fields es rest

  -- An enumerator beyond the table is an access out of bounds.
  unfoldable pub get_field : List Attr → ℕ → M Value
  get_field table attr = elim (get_elem? table attr) [
    | none ↦ λ m. fault
    | some e ↦ do v ← io (get_value e.kind path name e.name); return (e.kind, v)
  ]

  unfoldable pub set_field : List Attr → ℕ → Union → M (Unit {0})
  set_field table attr val = elim (get_elem? table attr) [
    | none ↦ λ m. fault
    | some e ↦ if e.ro then raise invalid_param else set_value e.kind path name e.name (val e.kind)
  ]
