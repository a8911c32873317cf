-- ===== src/Funcs/Ether/RoundTrip.antt =====
-- `ether_aton_r` on what `usbg_ether_ntoa_r` wrote.
use native.Mathlib.Nat.{div-add-mod'}
use libusbgx.Base.{
  ap, ℕ, zero, suc, ◌+◌, ◌*◌, ◌/◌, ◌%◌, ◌<◌, ◌≡◌, refl, sym, true, false, List, [], ◌∷◌, some,
  length, arith, All, ltb, lt→ltb, le→ltb_false, Bool-cases, inl, inr, ◌≤◌,
}
use libusbgx.CStr.{CString}
use libusbgx.CStr.Search.{lacks}
use libusbgx.Files.{max_str_length}
use libusbgx.Files.Laws.{IsLine}
use libusbgx.Funcs.Ether.{
  ether_ntoa_r, ether_aton_r, aton_octet, aton_octets, aton_second, ends_octet,
}
use libusbgx.Num.{digit, print_base, print_hex}
use libusbgx.Num.RoundTrip.{digit_value-digit}

print_base-low : (k n : ℕ) → n < 16 → print_base 16 (suc k) n ≡ digit n ∷ []
unfolding print_base
print_base-low k n h = rw (lt→ltb n 16 h) refl

print_base-high :
    (k n : ℕ)
    → 16 ≤ n
    → n < 256
    → print_base 16 (suc (suc k)) n ≡ digit (n / 16) ∷ digit (n % 16) ∷ []
unfolding print_base
print_base-high k n h l = rw (le→ltb_false n 16 h, print_base-low k (n / 16) (omega arith)) refl

-- An octet is written as two digits.
print_hex-octet : (n : ℕ) → n < 256 → print_hex 2 n ≡ digit (n / 16) ∷ digit (n % 16) ∷ []
unfolding print_hex
print_hex-octet zero h = refl
print_hex-octet (suc k) h = elim (Bool-cases (ltb (suc k) 16)) [
  | inl small ↦ ground (arith, print_base-low (suc k) (suc k))
  | inr large ↦ rw (print_base-high k (suc k) (ground arith) h) refl
]

digit-no_end : (more d : ℕ) (t : CString) → d < 16 → ends_octet more (digit d ∷ t) ≡ false
unfolding digit
digit-no_end zero d t h = ground arith
digit-no_end (suc more) d t h = ground arith

aton_second-digit :
    (more a b : ℕ) (t : CString)
    → b < 16
    → ends_octet more t ≡ true
    → aton_second more a (digit b ∷ t) ≡ some (a * 16 + b, t)
unfolding aton_second
aton_second-digit zero a b t k e =
    rw (digit-no_end zero b t k, digit_value-digit 16 b (omega arith) k) refl
aton_second-digit (suc more) a b t k e =
    rw (digit-no_end (suc more) b t k, digit_value-digit 16 b (omega arith) k, e) refl

-- And read back, if it may end where the digits end.
aton_octet-digits :
    (more a b : ℕ) (t : CString)
    → a < 16
    → b < 16
    → ends_octet more t ≡ true
    → aton_octet more (digit a ∷ digit b ∷ t) ≡ some (a * 16 + b, t)
unfolding aton_octet
aton_octet-digits more a b t h k e =
    rw (aton_octet, digit_value-digit 16 a (omega arith) h) (aton_second-digit more a b t k e)

octets-ntoa :
    (o : ℕ) (os : List ℕ)
    → All (λ n. n < 256) (o ∷ os)
    → aton_octets (length os) (ether_ntoa_r (o ∷ os)) ≡ some (o ∷ os)
unfolding aton_octets ether_ntoa_r
octets-ntoa o [] (h, t) =
    rw
      (
        print_hex-octet o h,
        aton_octet-digits 0 (o / 16) (o % 16) [] (omega arith) (omega arith) refl,
        aton_octets,
      )
      (ap (λ n. some (n ∷ [])) (div-add-mod' o 16))
octets-ntoa o (p ∷ os) (h, t) =
    rw
      (
        print_hex-octet o h,
        aton_octet-digits (suc (length os)) (o / 16) (o % 16) (b':' ∷ ether_ntoa_r (p ∷ os))
            (omega arith) (omega arith) refl,
        octets-ntoa p os t,
        aton_octets,
      )
      (ap (λ n. some (n ∷ p ∷ os)) (div-add-mod' o 16))

-- `ether_aton_r` reads the address that `usbg_ether_ntoa_r` wrote, of six octets that are bytes,
-- back as it was.
pub ether_aton_r-ether_ntoa_r :
    (a : List ℕ) → length a ≡ 6 → All (λ n. n < 256) a → ether_aton_r (ether_ntoa_r a) ≡ some a
unfolding ether_aton_r
ether_aton_r-ether_ntoa_r [] six bytes = absurd (omega (arith, six))
ether_aton_r-ether_ntoa_r (o ∷ os) six bytes = rw (sym (five six)) (octets-ntoa o os bytes)
  where
    five : length (o ∷ os) ≡ 6 → length os ≡ 5
    five h = omega arith

pub lacks-digit :
    (b d : ℕ) (s : CString) → b < 48 → d < 16 → lacks b s ≡ true → lacks b (digit d ∷ s) ≡ true
unfolding lacks digit
lacks-digit b d s h k e = ground arith

lacks-colon : (b : ℕ) (s : CString) → b < 48 → lacks b s ≡ true → lacks b (b':' ∷ s) ≡ true
unfolding lacks
lacks-colon b s h e = ground arith

lacks-octet :
    (b o : ℕ) (s : CString)
    → b < 48
    → o < 256
    → lacks b s ≡ true
    → lacks b (digit (o / 16) ∷ digit (o % 16) ∷ s) ≡ true
lacks-octet b o s h k e =
    lacks-digit b (o / 16) (digit (o % 16) ∷ s) h (omega arith)
      (lacks-digit b (o % 16) s h (omega arith) e)

lacks-ntoa : (b : ℕ) (a : List ℕ) → b < 48 → All (λ n. n < 256) a → lacks b (ether_ntoa_r a) ≡ true
unfolding ether_ntoa_r lacks
lacks-ntoa b [] h k = refl
lacks-ntoa b (o ∷ []) h (k, _) = rw (print_hex-octet o k) (lacks-octet b o [] h k refl)
lacks-ntoa b (o ∷ p ∷ os) h (k, t) =
    let tail = ether_ntoa_r (p ∷ os) in
    rw (print_hex-octet o k)
      (lacks-octet b o (b':' ∷ tail) h k (lacks-colon b tail h (lacks-ntoa b (p ∷ os) h t)))

pub length-ntoa : (a : List ℕ) → All (λ n. n < 256) a → length (ether_ntoa_r a) ≤ 3 * length a
unfolding ether_ntoa_r
length-ntoa [] k = omega arith
length-ntoa (o ∷ []) (k, _) = rw (print_hex-octet o k) (omega arith)
length-ntoa (o ∷ p ∷ os) (k, t) =
    let rest = length-ntoa (p ∷ os) t in rw (print_hex-octet o k) (omega (arith, rest))

pub ether_ntoa_r-IsLine :
    (a : List ℕ) → length a ≡ 6 → All (λ n. n < 256) a → IsLine max_str_length (ether_ntoa_r a)
ether_ntoa_r-IsLine a six bytes = record {
  short = omega (arith, six, length-ntoa a bytes);
  no_newline = lacks-ntoa b'\n' a (omega arith) bytes;
  no_nul = lacks-ntoa 0 a (omega arith) bytes;
}
