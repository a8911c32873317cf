-- ===== src/Num/Hex.antt =====
-- `strtol` in base 16 on what "0x%04x\n" and its like wrote.
use libusbgx.Base.{
  ℕ, zero, suc, ◌-◌, ◌^◌, ◌<◌, ◌≤◌, ◌≡◌, refl, ◌∙◌, ap, true, false, ◌∷◌, ◌++◌, arith, length,
}
use libusbgx.Base.Int.{pos}
use libusbgx.CStr.{CString, c}
use libusbgx.Num.{
  digit, print_base, print_hex, pad, digit_value, eat_digits, strtol, long_max, starts_with_digit,
  skip_prefix, clamp, to_int, to_unsigned,
}
use libusbgx.Num.RoundTrip.{digit_value-digit, eat_digits-print_base, print_base-digit}

pad-append : (k : ℕ) (s t : CString) → pad k s ++ t ≡ pad k (s ++ t)
pad-append zero s t = refl
pad-append (suc k) s t = ap (λ u. b'0' ∷ u) (pad-append k s t)

eat_digits-pad : (k : ℕ) (s : CString) → eat_digits 16 0 (pad k s) ≡ eat_digits 16 0 s
unfolding eat_digits
eat_digits-pad zero s = refl
eat_digits-pad (suc k) s = eat_digits-pad k s

starts_with_digit-pad :
    (k : ℕ) (s : CString) → starts_with_digit 16 s ≡ true → starts_with_digit 16 (pad k s) ≡ true
unfolding digit_value
starts_with_digit-pad zero s h = h
starts_with_digit-pad (suc k) s h = refl

starts_with_digit-append :
    (d : ℕ) (s r t : CString) → d < 16 → s ≡ digit d ∷ r → starts_with_digit 16 (s ++ t) ≡ true
starts_with_digit-append d s r t h e = rw (e, digit_value-digit 16 d (omega arith) h)

module _ (n : ℕ) (t rest : CString) (small : n ≤ long_max) where
  strtol-prefix :
      starts_with_digit 16 t ≡ true
      → eat_digits 16 0 t ≡ (n, rest)
      → strtol 16 (b'0' ∷ b'x' ∷ t) ≡ record { value = pos n; range = false; rest = rest }
  unfolding strtol skip_prefix clamp
  strtol-prefix first e = ground arith

-- The number, and the newline as the first byte that was not read.
pub strtol-print_hex :
    (width n : ℕ) (rest : CString)
    → n ≤ long_max
    → strtol 16 ((c "0x" ++ print_hex width n) ++ b'\n' ∷ rest)
      ≡ record { value = pos n; range = false; rest = b'\n' ∷ rest }
unfolding print_hex eat_digits
strtol-print_hex width n rest small =
    let s = print_base 16 (suc n) n in
    let k = width - length s in
    let tail : CString = b'\n' ∷ rest in
    let (d, r, p, e) = print_base-digit 16 (suc n) n (omega arith) (omega arith) in
    let read : eat_digits 16 0 (s ++ tail) ≡ (n, tail) =
      eat_digits-print_base 16 (suc n) n tail (omega arith) (omega arith) (omega arith) in
    rw (pad-append k s tail) (
      strtol-prefix n (pad k (s ++ tail)) tail small
        (starts_with_digit-pad k (s ++ tail) (starts_with_digit-append d s r tail p e))
        (eat_digits-pad k (s ++ tail) ∙ read))

-- A number below 2 ^ 31 that was written as "0x%x" with leading zeros up to any width, and a
-- newline behind it, is what `strtol` and the conversions to an `int` and to a field of `w` bits
-- make of the text, if the field holds it.
pub to_unsigned-strtol-print_hex :
    (w width n : ℕ) (rest : CString)
    → n < 2 ^ 31
    → n < 2 ^ w
    → to_unsigned w (to_int (strtol 16 ((c "0x" ++ print_hex width n) ++ b'\n' ∷ rest)).value) ≡ n
unfolding to_int
to_unsigned-strtol-print_hex w width n rest h k =
    rw (strtol-print_hex width n rest (omega arith)) (grind arith)
