-- ===== src/Num/RoundTrip/Signed.antt =====
-- `strtol` in base 10, converted to an `int`, on what "%d\n" wrote.
use libusbgx.Base.{
  ℕ, suc, ◌<◌, ◌≤◌, ◌^◌, ◌≡◌, refl, ◌∙◌, [], ◌∷◌, ◌++◌, arith, true, false, length, length-append,
  ltb, lt→ltb, Bool-cases, inl, inr, zero, ◌/◌, ◌%◌,
}
use libusbgx.Base.Int.{ℤ, pos, negsuc}
use libusbgx.CStr.{CString}
use libusbgx.Num.{
  digit, print_base, print_nat, print_int, digit_value, eat_digits, strtol, long_max, skip_space,
  signed, convert, clamp, to_int, to_unsigned,
}
use libusbgx.Num.RoundTrip.{
  digit_value-digit, eat_digits-print_base, print_base-digit, skip_prefix-ten, strtol-print_nat,
}

-- The range of an `int`.
abbrev pub IsInt : ℤ → Type 0
IsInt (pos n) = n < 2 ^ 31
IsInt (negsuc n) = n < 2 ^ 31

pub to_int-IsInt : (z : ℤ) → IsInt z → to_int z ≡ z
unfolding to_int to_unsigned
to_int-IsInt (pos n) h = ground arith
to_int-IsInt (negsuc n) h = ground arith

convert-negative :
    (whole s rest : CString) (d n : ℕ)
    → d < 10
    → n ≤ long_max
    → eat_digits 10 0 (digit d ∷ s) ≡ (suc n, rest)
    → convert 10 true whole (digit d ∷ s) ≡ record { value = negsuc n; range = false; rest = rest }
unfolding convert clamp
convert-negative whole s rest d n h small e =
    rw (skip_prefix-ten (digit d ∷ s), e, digit_value-digit 10 d (omega arith) h) (ground arith)

strtol-minus : (s : CString) → strtol 10 (b'-' ∷ s) ≡ convert 10 true (b'-' ∷ s) s
unfolding strtol skip_space signed
strtol-minus s = refl

pub strtol-print_int :
    (z : ℤ) (rest : CString)
    → IsInt z
    → ((n : ℕ) → eat_digits 10 n rest ≡ (n, rest))
    → strtol 10 (print_int z ++ rest) ≡ record { value = z; range = false; rest = rest }
unfolding print_int print_nat
strtol-print_int (pos n) rest h stop = strtol-print_nat n rest (ground arith) (stop n)
strtol-print_int (negsuc n) rest h stop =
    let (d, s, p, e) = print_base-digit 10 (suc (suc n)) (suc n) (omega arith) (omega arith) in
    let read =
      eat_digits-print_base 10 (suc (suc n)) (suc n) rest (omega arith) (omega arith) (omega arith)
      ∙ stop (suc n) in
    rw (e, strtol-minus (digit d ∷ s ++ rest))
      (convert-negative (b'-' ∷ digit d ∷ s ++ rest) (s ++ rest) rest d n p (ground arith)
        (rw e at read))

newline-stops : (rest : CString) (n : ℕ) → eat_digits 10 n (b'\n' ∷ rest) ≡ (n, b'\n' ∷ rest)
unfolding eat_digits digit_value
newline-stops rest n = refl

-- An `int` that was written as "%d\n" is read back, whatever follows the newline.
pub to_int-strtol-print_int :
    (z : ℤ) (rest : CString) → IsInt z → to_int (strtol 10 (print_int z ++ b'\n' ∷ rest)).value ≡ z
to_int-strtol-print_int z rest h =
    rw (strtol-print_int z (b'\n' ∷ rest) h (newline-stops rest)) (to_int-IsInt z h)

length-print_base : (d k n : ℕ) → n < 10 ^ suc d → length (print_base 10 k n) ≤ suc d
unfolding print_base
length-print_base d zero n h = omega arith
length-print_base zero (suc k) n h = rw (lt→ltb n 10 (ground arith)) (omega arith)
length-print_base (suc d) (suc k) n h = elim (Bool-cases (ltb n 10)) [
  | inl small ↦ rw small (omega arith)
  | inr large ↦
      let front = length-print_base d k (n / 10) (next h) in
      let both = length-append (print_base 10 k (n / 10)) (digit (n % 10) ∷ []) in
      rw large (omega (arith, front, both))
]
  where
    next : n < 10 ^ suc (suc d) → n / 10 < 10 ^ suc d
    next h = omega arith

-- An `int` has at most ten digits and a sign.
pub length-print_int : (z : ℤ) → IsInt z → length (print_int z) ≤ 11
unfolding print_int print_nat
length-print_int (pos n) h = omega (arith, length-print_base 9 (suc n) n (ground arith))
length-print_int (negsuc n) h =
    omega (arith, length-print_base 9 (suc (suc n)) (suc n) (ground arith))
