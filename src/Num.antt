-- ===== src/Num.antt =====
-- Numbers as text: `strtol` and the conversions of `printf` that the library uses, and the
-- conversions between the C integer types. `long` has 64 bits and `int` has 32.
pub mod RoundTrip
pub mod Hex
use libusbgx.Base.{
  ℕ, zero, suc, ◌+◌, ◌-◌, ◌*◌, ◌/◌, ◌%◌, ◌^◌, Bool, true, false, ◌&&◌, ◌||◌, List, [], ◌∷◌, ◌++◌,
  Option, none, some, ltb, leb, ◌==◌, if◌then◌else◌, length,
}
use libusbgx.Base.Int.{ℤ, pos, negsuc}
use libusbgx.CStr.{CString, isspace}

abbrev pub is_some {ℓ} : {A : Type ℓ} → Option A → Bool
is_some none = false
is_some (some _) = true

unfoldable pub digit : ℕ → ℕ
digit d = if ltb d 10 then 48 + d else 87 + d

-- The digits of `n`, given more rounds than it has digits.
unfoldable pub print_base : ℕ → ℕ → ℕ → CString
unfolding digit
print_base base zero n = []
print_base base (suc k) n =
    let front = print_base base k (n / base) in
    if ltb n base then digit n ∷ [] else front ++ digit (n % base) ∷ []

-- "%d" of a number that is not negative, and "%d".
unfoldable pub print_nat : ℕ → CString
unfolding print_base
print_nat n = print_base 10 (suc n) n

unfoldable pub print_int : ℤ → CString
unfolding print_nat
print_int (pos n) = print_nat n
print_int (negsuc n) = b'-' ∷ print_nat (suc n)

abbrev pad : ℕ → CString → CString
pad zero s = s
pad (suc k) s = b'0' ∷ pad k s

-- "%0<width>x" of an unsigned number; "%x" has width 0.
unfoldable pub print_hex : ℕ → ℕ → CString
unfolding print_base
print_hex width n = let s = print_base 16 (suc n) n in pad (width - length s) s

-- The value of a digit, if it is one in this base.
unfoldable pub digit_value : ℕ → ℕ → Option ℕ
digit_value base x =
    let v =
      if leb 48 x && leb x 57
      then x - 48
      else if leb 97 x && leb x 122
      then x - 87
      else if leb 65 x && leb x 90
      then x - 55
      else base in
    if ltb v base then some v else none

-- The number that the digits from here on stand for, behind those read so far, and what follows.
unfoldable pub eat_digits : ℕ → ℕ → CString → ℕ × CString
unfolding digit_value
eat_digits base v [] = (v, [])
eat_digits base v (x ∷ s) = elim (digit_value base x) [
  | some d ↦ eat_digits base (v * base + d) s
  | none ↦ (v, x ∷ s)
]

abbrev starts_with_digit : ℕ → CString → Bool
starts_with_digit base [] = false
starts_with_digit base (x ∷ s) = is_some (digit_value base x)

-- Base 16 allows a prefix "0x" in front of a digit.
skip_prefix : ℕ → CString → CString
unfolding digit_value
skip_prefix base (x ∷ y ∷ s) =
    if base == 16 && x == b'0' && (y == b'x' || y == b'X') && starts_with_digit base s
    then s
    else x ∷ y ∷ s
skip_prefix base s = s

unfoldable pub skip_space : CString → CString
skip_space [] = []
skip_space (x ∷ s) = let rest = skip_space s in if isspace x then rest else x ∷ s

-- `strtol`: the value, whether it set errno to ERANGE, and the text from `endptr` on.
pub record Parsed : Type 0 where
  pub value : ℤ
  pub range : Bool
  pub rest : CString

abbrev pub long_max : ℕ
long_max = 2 ^ 63 - 1

clamp : Bool → ℕ → CString → Parsed
clamp false n rest =
    if leb n long_max
    then record { value = pos n; range = false; rest = rest }
    else record { value = pos long_max; range = true; rest = rest }
clamp true zero rest = record { value = pos 0; range = false; rest = rest }
clamp true (suc n) rest =
    if leb n long_max
    then record { value = negsuc n; range = false; rest = rest }
    else record { value = negsuc long_max; range = true; rest = rest }

-- With no digit there is no conversion, and `endptr` is the start of the text.
convert : ℕ → Bool → CString → CString → Parsed
unfolding digit_value eat_digits clamp skip_prefix
convert base negative whole s =
    let t = skip_prefix base s in
    let (n, rest) = eat_digits base 0 t in
    if starts_with_digit base t
    then clamp negative n rest
    else record { value = pos 0; range = false; rest = whole }

signed : ℕ → CString → CString → Parsed
unfolding convert
signed base whole [] = record { value = pos 0; range = false; rest = whole }
signed base whole (x ∷ s) =
    if x == b'-'
    then convert base true whole s
    else if x == b'+'
    then convert base false whole s
    else convert base false whole (x ∷ s)

unfoldable pub strtol : ℕ → CString → Parsed
unfolding signed skip_space
strtol base s = signed base s (skip_space s)

-- A conversion to an unsigned type of `w` bits.
unfoldable pub to_unsigned : ℕ → ℤ → ℕ
to_unsigned w (pos n) = n % 2 ^ w
to_unsigned w (negsuc n) = 2 ^ w - 1 - n % 2 ^ w

-- A conversion from `long` to `int`.
unfoldable pub to_int : ℤ → ℤ
unfolding to_unsigned
to_int z = let n = to_unsigned 32 z in if ltb n (2 ^ 31) then pos n else negsuc (2 ^ 32 - 1 - n)

-- A conversion from `int` to `short`.
unfoldable pub to_short : ℤ → ℤ
unfolding to_unsigned
to_short z = let n = to_unsigned 16 z in if ltb n (2 ^ 15) then pos n else negsuc (2 ^ 16 - 1 - n)
