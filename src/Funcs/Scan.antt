-- ===== src/Funcs/Scan.antt =====
-- The conversions of `sscanf` that the library uses.
pub mod RoundTrip
use libusbgx.Base.{
  ℕ, suc, Bool, true, false, List, [], ◌∷◌, Option, none, some, length, ◌==◌, if◌then◌else◌,
}
use libusbgx.Base.Int.{ℤ}
use libusbgx.CStr.{CString, c}
use libusbgx.Num.{strtol, to_int, skip_space}

-- "%d": the number and the text behind it. With no digit nothing is converted.
unfoldable pub scan_int : CString → Option (ℤ × CString)
scan_int s =
    let p = strtol 10 s in if length p.rest == length s then none else some (to_int p.value, p.rest)

-- What the conversion of a literal and a "%d" behind it ends in: the number, a text that does not
-- match, or EOF, where the text ends before the number.
pub data Scanned : Type 0 where
  matched : ℤ → Scanned
  mismatched : Scanned
  eof : Scanned

abbrev number_or : Option (ℤ × CString) → CString → Scanned
number_or (some (z, rest)) s = matched z
number_or none [] = eof
number_or none (x ∷ s) = mismatched

-- `sscanf(s, "<literal>%d", &id)` for a literal with no space and no percent sign.
unfoldable pub scan_behind : CString → CString → Scanned
unfolding scan_int skip_space
scan_behind [] s = number_or (scan_int s) (skip_space s)
scan_behind (x ∷ l) [] = eof
scan_behind (x ∷ l) (y ∷ s) = let rest = scan_behind l s in if x == y then rest else mismatched

abbrev pub with_second : ℤ → Scanned → Option (ℤ × ℤ)
with_second a (matched b) = some (a, b)
with_second a mismatched = none
with_second a eof = none

unfoldable pub second_behind : Option (ℤ × CString) → Option (ℤ × ℤ)
unfolding scan_behind
second_behind none = none
second_behind (some (a, rest)) = with_second a (scan_behind (c ":") rest)

-- "%d:%d", if both numbers are converted.
unfoldable pub scan_pair : CString → Option (ℤ × ℤ)
unfolding scan_int second_behind
scan_pair s = second_behind (scan_int s)
