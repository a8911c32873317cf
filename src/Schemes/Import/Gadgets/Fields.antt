-- ===== src/Schemes/Import/Gadgets/Fields.antt =====
-- The numbers that an import gives to the setters of a gadget.
use libusbgx.Base.{ℕ, ◌<◌, ◌^◌, ◌≡◌, refl, ltb, ltb→lt, Bool-cases, inl, inr, Option-cases}
use libusbgx.Base.Int.{ℤ, pos, negsuc}
use libusbgx.CStr.{CString}
use libusbgx.Error.{invalid_value}
use libusbgx.Heap.{Mem}
use libusbgx.Heap.Monad.{M, require, ◌>>◌}
use libusbgx.Libconfig.{Libconfig, is_int}
use libusbgx.Os.{Os}
use libusbgx.Schemes.Import.Gadgets.{optional_attr, fits_field, field_of}
use libusbgx.Schemes.Nodes.{Setting}

module _ ⦃os : Os⦄ (w : ℕ) (set other : ℕ → M (Unit {0}))
    (agree : (n : ℕ) (m : Mem os) → n < 2 ^ w → set n m ≡ other n m) where
  checked-Within :
      (v : ℤ) (m : Mem os)
      → (require (fits_field w v) invalid_value >> set (field_of v)) m
        ≡ (require (fits_field w v) invalid_value >> other (field_of v)) m
  checked-Within (negsuc n) m = refl
  checked-Within (pos n) m = elim (Bool-cases (ltb n (2 ^ w))) [
    | inl h ↦ rw (h, agree n m (ltb→lt n (2 ^ w) h))
    | inr h ↦ rw h
  ]

  -- The import of a number into a field of `w` bits calls the setter with a number that the field
  -- holds, if it calls it at all: two setters that agree on the numbers below 2 ^ w cannot be told
  -- apart.
  pub optional_attr-Within :
      ⦃lc : Libconfig os⦄ (root : Setting) (name : CString) (m : Mem os)
      → optional_attr w root name set m ≡ optional_attr w root name other m
  unfolding optional_attr
  optional_attr-Within ⦃lc⦄ root name m = elim (Option-cases (lc.get_member root name m.world)) [
    | inl e ↦ rw e
    | inr (node, e) ↦ elim (Bool-cases (is_int (lc.type node m.world))) [
      | inl t ↦ rw (e, t, checked-Within (lc.get_int node m.world) m)
      | inr t ↦ rw (e, t)
    ]
  ]
