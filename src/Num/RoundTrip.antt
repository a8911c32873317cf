-- ===== src/Num/RoundTrip.antt =====
-- `strtol` in base 10 on what `printf` wrote.
pub mod Signed
use libusbgx.Base.{
  ℕ, zero, suc, ◌+◌, ◌*◌, ◌/◌, ◌%◌, ◌<◌, ◌≤◌, ◌≡◌, refl, ◌∙◌, ap, false, [], ◌∷◌, ◌++◌, some, arith,
  ltb, ltb→lt, Bool-cases, inl, inr,
}
use mathlib.Core.List.{append_assoc}
use native.Mathlib.Nat.{div-lt_self, mod-lt, div-add-mod'}
use libusbgx.Base.Int.{pos}
use libusbgx.CStr.{CString}
use libusbgx.Num.{
  digit, print_base, print_nat, digit_value, eat_digits, strtol, long_max, skip_space, skip_prefix,
  signed, convert, clamp,
}

pub digit_value-digit : (base d : ℕ) → base ≤ 16 → d < base → digit_value base (digit d) ≡ some d
unfolding digit_value digit
digit_value-digit base d h k = ground arith

eat_digits-digit :
    (base v d : ℕ) (s : CString)
    → base ≤ 16
    → d < base
    → eat_digits base v (digit d ∷ s) ≡ eat_digits base (v * base + d) s
unfolding eat_digits
eat_digits-digit base v d s hi h = ground (arith, digit_value-digit base d hi h)

-- Reading the digits of `n` gives `n`, whatever follows.
pub eat_digits-print_base :
    (base k n : ℕ) (rest : CString)
    → 2 ≤ base
    → base ≤ 16
    → n < k
    → eat_digits base 0 (print_base base k n ++ rest) ≡ eat_digits base n rest
unfolding print_base
eat_digits-print_base base zero n rest lo hi h = absurd (omega arith)
eat_digits-print_base base (suc k) n rest lo hi h = elim (Bool-cases (ltb n base)) [
  | inl small ↦ rw small (
      eat_digits-digit base 0 n rest hi (ground arith)
      ∙ ap (λ v. eat_digits base v rest) (omega arith))
  | inr large ↦
      rw (large, append_assoc)
        (eat_digits-print_base base k (n / base) (digit (n % base) ∷ rest) lo hi
            (omega (arith, div-lt_self {n = n} {k = base} (ground arith) lo))
          ∙ eat_digits-digit base (n / base) (n % base) rest hi (mod-lt n (omega arith))
          ∙ ap (λ v. eat_digits base v rest) (div-add-mod' n base))
]

-- What `print_base` writes begins with a digit.
pub print_base-digit :
    (base k n : ℕ)
    → 2 ≤ base
    → n < k
    → (d : ℕ) × (s : CString) × (d < base) × (print_base base k n ≡ digit d ∷ s)
unfolding print_base
print_base-digit base zero n lo h = absurd (omega arith)
print_base-digit base (suc k) n lo h = elim (Bool-cases (ltb n base)) [
  | inl small ↦ (n, [], ltb→lt n base small, rw small)
  | inr large ↦
      let smaller : n / base < k =
        omega (arith, div-lt_self {n = n} {k = base} (ground arith) lo) in
      let (d, s, p, e) = print_base-digit base k (n / base) lo smaller in
      (d, s ++ digit (n % base) ∷ [], p, rw (large, e))
]

skip_space-digit : (d : ℕ) (s : CString) → d < 10 → skip_space (digit d ∷ s) ≡ digit d ∷ s
unfolding skip_space digit
skip_space-digit d s h = ground arith

skip_prefix-ten : (s : CString) → skip_prefix 10 s ≡ s
unfolding skip_prefix
skip_prefix-ten [] = refl
skip_prefix-ten (x ∷ []) = refl
skip_prefix-ten (x ∷ y ∷ s) = refl

signed-digit :
    (whole : CString) (d : ℕ) (s : CString)
    → d < 10
    → signed 10 whole (digit d ∷ s) ≡ convert 10 false whole (digit d ∷ s)
unfolding signed digit
signed-digit whole d s h = ground arith

module _ (n : ℕ) (rest : CString) (small : n ≤ long_max) where
  convert-digit :
      (d : ℕ) (s : CString)
      → d < 10
      → eat_digits 10 0 (digit d ∷ s) ≡ (n, rest)
      → convert 10 false (digit d ∷ s) (digit d ∷ s)
        ≡ record { value = pos n; range = false; rest = rest }
  unfolding convert clamp
  convert-digit d s h e =
      rw (skip_prefix-ten (digit d ∷ s), e, digit_value-digit 10 d (omega arith) h) (ground arith)

  strtol-digit :
      (d : ℕ) (s : CString)
      → d < 10
      → eat_digits 10 0 (digit d ∷ s) ≡ (n, rest)
      → strtol 10 (digit d ∷ s) ≡ record { value = pos n; range = false; rest = rest }
  unfolding strtol
  strtol-digit d s h e = rw (skip_space-digit d s h, signed-digit _ d s h) (convert-digit d s h e)

  -- `strtol` in base 10 reads a number that "%d" wrote, if it fits a long and no digit follows.
  pub strtol-print_nat :
      eat_digits 10 n rest ≡ (n, rest)
      → strtol 10 (print_nat n ++ rest) ≡ record { value = pos n; range = false; rest = rest }
  unfolding print_nat
  strtol-print_nat stop =
      let (d, s, p, e) = print_base-digit 10 (suc n) n (omega arith) (omega arith) in
      let read =
        eat_digits-print_base 10 (suc n) n rest (omega arith) (omega arith) (omega arith) ∙ stop in
      rw e (strtol-digit d (s ++ rest) p (rw e at read))
