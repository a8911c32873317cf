-- ===== src/Funcs/Values/Held.antt =====
-- The file of an attribute as the kernel fills it: what its getter makes of it, also for the types
-- that have no setter, and with a newline behind a text.
use libusbgx.Base.{
  ℕ, zero, suc, ◌+◌, ◌/◌, ◌%◌, ◌<◌, ◌≤◌, ◌^◌, ◌≡◌, refl, true, List, some, [], ◌∷◌, ◌++◌, All,
  arith, length, length-append, ltb, Bool-cases, inl, inr,
}
use libusbgx.Base.Int.{pos}
use libusbgx.CStr.{CString}
use libusbgx.CStr.Search.{lacks}
use libusbgx.Files.{max_str_length, max_file_size}
use libusbgx.Files.Laws.{IsLine}
use libusbgx.Files.Laws.Lines.{
  Holds, lacks-append, read_string_limited-newline, read_string_alloc-newline,
}
use libusbgx.Funcs.Ether.{ether_ntoa_r}
use libusbgx.Funcs.Ether.RoundTrip.{
  lacks-digit, length-ntoa, ether_aton_r-ether_ntoa_r, ether_ntoa_r-IsLine,
}
use libusbgx.Funcs.Scan.RoundTrip.{scan_pair-print_nat}
use libusbgx.Funcs.Values.{Kind, Val, get_value, get_string, get_ether_addr, get_dev}
use libusbgx.Funcs.Values.ReadBack.{Stored, get_value-Stored}
use libusbgx.Num.{print_base, print_nat, print_int, digit, to_unsigned}
use libusbgx.Num.RoundTrip.Signed.{length-print_int}
use libusbgx.Os.{Os}
use libusbgx.Os.Io.{ok}

-- The text of a file whose attribute has the value: what the library writes for it, or a line with
-- a newline behind it, or the two numbers of a device.
pub data Held : (k : Kind) → Val k → CString → Type 0 where
  held : {k : Kind} {v : Val k} {t : CString} → Stored k v t → Held k v t
  held_line :
      (s : CString)
      → IsLine max_file_size s
      → length s + 1 < max_file_size
      → Held Kind.text (some s) (s ++ b'\n' ∷ [])
  held_dev :
      (a b : ℕ)
      → a < 2 ^ 31
      → b < 2 ^ 31
      → Held Kind.dev (a, b) ((print_nat a ++ b':' ∷ print_nat b) ++ b'\n' ∷ [])
  held_ether :
      (a : List ℕ)
      → length a ≡ 6
      → All (λ n. n < 256) a
      → Held Kind.ether a (ether_ntoa_r a ++ b'\n' ∷ [])

lacks-print_base : (b k n : ℕ) → b < 48 → lacks b (print_base 10 k n) ≡ true
unfolding print_base lacks digit
lacks-print_base b zero n h = refl
lacks-print_base b (suc k) n h = elim (Bool-cases (ltb n 10)) [
  | inl small ↦ ground (arith, small)
  | inr large ↦ rw large (
      lacks-append b (print_base 10 k (n / 10)) (digit (n % 10) ∷ [])
        (lacks-print_base b k (n / 10) h) (lacks-digit b (n % 10) [] h (omega arith) refl))
]

lacks-pair : (c a b : ℕ) → c < 48 → lacks c (print_nat a ++ b':' ∷ print_nat b) ≡ true
unfolding lacks print_nat
lacks-pair c a b h =
    lacks-append c (print_nat a) (b':' ∷ print_nat b) (lacks-print_base c (suc a) a h)
      (ground (arith, lacks-print_base c (suc b) b h))

length-pair : (a b : ℕ) → a < 2 ^ 31 → b < 2 ^ 31 → length (print_nat a ++ b':' ∷ print_nat b) ≤ 23
unfolding print_int
length-pair a b h k = omega (
  arith,
  length-append (print_nat a) (b':' ∷ print_nat b),
  length-print_int (pos a) h,
  length-print_int (pos b) k,
)

pair-IsLine :
    (a b : ℕ) → a < 2 ^ 31 → b < 2 ^ 31 → IsLine max_str_length (print_nat a ++ b':' ∷ print_nat b)
pair-IsLine a b h k = record {
  short = omega (arith, length-pair a b h k);
  no_newline = lacks-pair b'\n' a b (omega arith);
  no_nul = lacks-pair 0 a b (omega arith);
}

number : (a : ℕ) → a < 2 ^ 31 → to_unsigned 32 (pos a) ≡ a
unfolding to_unsigned
number a h = omega arith

module _ ⦃os : Os⦄ (path name file : CString) (w : os.World)
    (memory : os.malloc w ≡ (true, w)) where
  get_dev-Held :
      (a b : ℕ)
      → a < 2 ^ 31
      → b < 2 ^ 31
      → Holds path name file ((print_nat a ++ b':' ∷ print_nat b) ++ b'\n' ∷ []) w
      → get_dev path name file w ≡ (ok (a, b), w)
  unfolding get_dev
  get_dev-Held a b h k file =
      rw
        (
          read_string_limited-newline path name _ _ w max_str_length refl file (pair-IsLine a b h k)
              (omega (arith, length-pair a b h k)),
          scan_pair-print_nat a b h k,
          number a h,
          number b k,
        )
        refl

  -- `.get` of an attribute.
  pub get_value-Held :
      {k : Kind} {v : Val k} {t : CString}
      → Held k v t
      → Holds path name file t w
      → get_value k path name file w ≡ (ok v, w)
  unfolding get_value get_string get_ether_addr
  get_value-Held (held s) file = get_value-Stored path name _ w memory s file
  get_value-Held (held_line s l h) file =
      rw (read_string_alloc-newline path name _ _ w refl file memory l h) refl
  get_value-Held (held_ether a h j) file =
      rw
        (
          read_string_limited-newline path name _ _ w max_str_length refl file
              (ether_ntoa_r-IsLine a h j) (omega (arith, h, length-ntoa a j)),
          ether_aton_r-ether_ntoa_r a h j,
        )
        refl
  get_value-Held (held_dev a b h k) file = get_dev-Held a b h k file
