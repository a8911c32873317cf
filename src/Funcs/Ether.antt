-- ===== src/Funcs/Ether.antt =====
-- Ethernet addresses as text: `usbg_ether_ntoa_r` of usbg_common.c, and `ether_aton_r` of the C
-- library. A `struct ether_addr` is the list of its octets.
pub mod RoundTrip
use libusbgx.Base.{
  ℕ, zero, suc, ◌+◌, ◌-◌, ◌*◌, Bool, true, false, ◌||◌, List, [], ◌∷◌, ◌++◌, Option, none, some,
  ltb, leb, ◌==◌, if◌then◌else◌, ◌&&◌,
}
use libusbgx.CStr.{CString, isspace}
use libusbgx.Num.{print_hex, digit_value}

-- "%02x:%02x:%02x:%02x:%02x:%02x"
unfoldable pub ether_ntoa_r : List ℕ → CString
ether_ntoa_r [] = []
ether_ntoa_r (o ∷ []) = print_hex 2 o
ether_ntoa_r (o ∷ p ∷ os) = print_hex 2 o ++ b':' ∷ ether_ntoa_r (p ∷ os)

-- Whether an octet may end in front of this text. The last one may end at the end of the text or
-- at a space, the others at a colon.
abbrev ends_octet : ℕ → CString → Bool
ends_octet zero [] = true
ends_octet zero (x ∷ s) = isspace x
ends_octet (suc more) [] = false
ends_octet (suc more) (x ∷ s) = x == b':'

abbrev behind : CString → CString
behind [] = []
behind (x ∷ s) = s

-- The second digit, if there is one, and the text from the separator on.
unfoldable pub aton_second : ℕ → ℕ → CString → Option (ℕ × CString)
aton_second more high [] = if ends_octet more [] then some (high, []) else none
aton_second more high (x ∷ s) =
    if ends_octet more (x ∷ s) then some (high, x ∷ s) else (elim (digit_value 16 x) [
      | none ↦ none
      | some low ↦ elim more [
        | zero ↦ some (high * 16 + low, s)
        | suc k ↦ if ends_octet (suc k) s then some (high * 16 + low, s) else none
      ]
    ])

unfoldable pub aton_octet : ℕ → CString → Option (ℕ × CString)
aton_octet more [] = none
aton_octet more (x ∷ s) = elim (digit_value 16 x) [
  | none ↦ none
  | some high ↦ aton_second more high s
]

-- So many octets and one more.
unfoldable pub aton_octets : ℕ → CString → Option (List ℕ)
aton_octets zero s = elim (aton_octet 0 s) [ none ↦ none | some (o, rest) ↦ some (o ∷ []) ]
aton_octets (suc more) s = elim (aton_octet (suc more) s) [
  | none ↦ none
  | some (o, rest) ↦ elim (aton_octets more (behind rest)) [ none ↦ none | some os ↦ some (o ∷ os) ]
]

-- What follows the sixth octet and its separator is not looked at.
unfoldable pub ether_aton_r : CString → Option (List ℕ)
ether_aton_r s = aton_octets 5 s
