-- ===== src/Funcs/Scan/RoundTrip.antt =====
-- `sscanf` on a literal and a number that `printf` wrote.
use mathlib.Core.List.{append-nil}
use libusbgx.Base.{
  ℕ, suc, ◌<◌, ◌^◌, ◌≡◌, refl, subst, false, [], ◌∷◌, ◌++◌, some, arith, ==_refl, length-append,
}
use libusbgx.Base.Int.{ℤ, pos}
use libusbgx.CStr.{CString}
use libusbgx.Funcs.Scan.{scan_int, scan_behind, matched, scan_pair, second_behind}
use libusbgx.Num.{print_nat, print_int, eat_digits, strtol, digit_value}
use libusbgx.Num.RoundTrip.{print_base-digit, strtol-print_nat}
use libusbgx.Num.RoundTrip.Signed.{to_int-IsInt}

strtol-whole :
    (n : ℕ)
    → n < 2 ^ 31
    → strtol 10 (print_nat n) ≡ record { value = pos n; range = false; rest = [] }
unfolding eat_digits
strtol-whole n h =
    subst (λ s. strtol 10 s ≡ record { value = pos n; range = false; rest = [] })
      (append-nil (print_nat n)) (strtol-print_nat n [] (ground arith) refl)

scan_int-print_nat : (n : ℕ) → n < 2 ^ 31 → scan_int (print_nat n) ≡ some (pos n, [])
unfolding scan_int print_nat
scan_int-print_nat n h =
    let (d, s, p, e) = print_base-digit 10 (suc n) n (omega arith) (omega arith) in
    rw (strtol-whole n h, to_int-IsInt (pos n) h, e) (ground arith)

scan_behind-matched :
    (l s : CString) {z : ℤ} {rest : CString}
    → scan_int s ≡ some (z, rest)
    → scan_behind l (l ++ s) ≡ matched z
unfolding scan_behind
scan_behind-matched [] s e = rw e refl
scan_behind-matched (x ∷ l) s e = rw (==_refl x) (scan_behind-matched l s e)

-- A literal and a number that fits an `int` are scanned as this number.
pub scan_behind-print_int :
    (l : CString) (n : ℕ) → n < 2 ^ 31 → scan_behind l (l ++ print_int (pos n)) ≡ matched (pos n)
unfolding print_int
scan_behind-print_int l n h = scan_behind-matched l (print_nat n) (scan_int-print_nat n h)

colon-stops : (rest : CString) (n : ℕ) → eat_digits 10 n (b':' ∷ rest) ≡ (n, b':' ∷ rest)
unfolding eat_digits digit_value
colon-stops rest n = refl

scan_int-colon :
    (n : ℕ) (rest : CString)
    → n < 2 ^ 31
    → scan_int (print_nat n ++ b':' ∷ rest) ≡ some (pos n, b':' ∷ rest)
unfolding scan_int print_nat
scan_int-colon n rest h =
    let (d, s, p, e) = print_base-digit 10 (suc n) n (omega arith) (omega arith) in
    let read = strtol-print_nat n (b':' ∷ rest) (ground arith) (colon-stops rest n) in
    rw (read, to_int-IsInt (pos n) h, e) (ground (arith, length-append s (b':' ∷ rest)))

-- Two numbers that fit an `int`, with a colon between them, are scanned as these numbers.
pub scan_pair-print_nat :
    (a b : ℕ)
    → a < 2 ^ 31
    → b < 2 ^ 31
    → scan_pair (print_nat a ++ b':' ∷ print_nat b) ≡ some (pos a, pos b)
unfolding scan_pair second_behind print_int
scan_pair-print_nat a b h k =
    rw (scan_int-colon a (print_nat b) h, scan_behind-print_int (b':' ∷ []) b k) refl
