-- ===== src/Schemes/Nodes/Reports.antt =====
-- A report descriptor that was exported and is imported again.
use libusbgx.Base.{
  ℕ, suc, ◌≡◌, refl, Bool, true, false, ◌&&◌, [], ◌∷◌, some, arith, leb, length, if◌then◌else◌,
  Bool-cases, inl, inr,
}
use libusbgx.CStr.{CString}
use libusbgx.Error.{invalid_value}
use libusbgx.Heap.{Mem}
use libusbgx.Heap.Monad.{returned, raised}
use libusbgx.Libconfig.{Libconfig, type_int}
use libusbgx.Os.{Os}
use libusbgx.Schemes.Nodes.{Setting, report_bytes, report_byte, signed_char}

-- Whether every byte is one of a `char` that is not negative.
abbrev pub are_ascii : CString → Bool
are_ascii [] = true
are_ascii (b ∷ bs) = leb b 127 && are_ascii bs

module _ ⦃os : Os⦄ ⦃lc : Libconfig os⦄ (list : Setting) (m : Mem os) where
  -- From the index `i` on, the list has the numbers that the export writes for these bytes.
  abbrev pub Exported : ℕ → CString → Type 0
  Exported i [] = Unit
  Exported i (b ∷ bs) =
      ((node : Setting) × (lc.get_elem list i m.world ≡ some node)
        × (lc.type node m.world ≡ type_int)
        × (lc.get_int node m.world ≡ signed_char b))
      × Exported (suc i) bs

  small_byte : (b : ℕ) → leb b 127 ≡ true → report_byte (signed_char b) m ≡ returned b m
  small_byte b h = ground (arith, h)

  large_byte : (b : ℕ) → leb b 127 ≡ false → report_byte (signed_char b) m ≡ raised invalid_value m
  large_byte b h = rw h

  -- A list with the numbers that the export of a report descriptor writes where `char` is signed
  -- is imported as the same descriptor if each byte is below 128, and refused with
  -- USBG_ERROR_INVALID_VALUE if a byte is not.
  pub report_bytes-Exported :
      (i : ℕ) (bs : CString)
      → Exported i bs
      → report_bytes list (length bs) i m
        ≡ (if are_ascii bs then returned bs m else raised invalid_value m)
  unfolding report_bytes
  report_bytes-Exported i [] h = refl
  report_bytes-Exported i (b ∷ bs) ((node, e, t, v), h) = elim (Bool-cases (leb b 127)) [
    | inl s ↦ elim (Bool-cases (are_ascii bs)) [
      | inl r ↦ rw (e, t, v, small_byte b s, report_bytes-Exported (suc i) bs h, s, r)
      | inr r ↦ rw (e, t, v, small_byte b s, report_bytes-Exported (suc i) bs h, s, r)
    ]
    | inr l ↦ rw (e, t, v, large_byte b l, l)
  ]
