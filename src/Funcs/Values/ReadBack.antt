-- ===== src/Funcs/Values/ReadBack.antt =====
-- The file of an attribute of a function: what is written for a value, and the value read back.
use mathlib.Core.List.{append_assoc}
use libusbgx.Base.{
  ℕ, ◌<◌, ◌≤◌, ◌≡◌, refl, Bool, true, false, some, [], ◌∷◌, ◌++◌, All, List, arith, length,
  length-append, lt→ltb, if◌then◌else◌,
}
use libusbgx.Base.Int.{ℤ, pos}
use libusbgx.CStr.{CString}
use libusbgx.Files.{
  read_int, read_bool, read_buf, write_buf, write_int, write_dec, write_bool, write_string,
  max_str_length, max_file_size, is_nonzero,
}
use libusbgx.Files.Laws.{IsLine}
use libusbgx.Files.Laws.Lines.{Holds, read_string_limited-line, read_string_alloc-line}
use libusbgx.Funcs.Ether.{ether_ntoa_r}
use libusbgx.Funcs.Ether.RoundTrip.{ether_aton_r-ether_ntoa_r, ether_ntoa_r-IsLine}
use libusbgx.Funcs.Values.{
  Kind, Val, get_value, set_value, get_string, get_ether_addr, hid_get_report, set_ether_addr,
  hid_set_report,
}
use libusbgx.Heap.{Heap, Mem}
use libusbgx.Heap.Keeps.{mem_at}
use libusbgx.Heap.Monad.{io}
use libusbgx.Num.{print_int}
use libusbgx.Num.RoundTrip.Signed.{IsInt, length-print_int, to_int-strtol-print_int}
use libusbgx.Os.{Os}
use libusbgx.Os.Io.{Io, ok, return, ◌>>=◌}

-- The value is one that the code can write, and the text is the one that it writes for it.
pub data Stored : (k : Kind) → Val k → CString → Type 0 where
  stored_dec : (z : ℤ) → IsInt z → Stored Kind.dec z (print_int z ++ b'\n' ∷ [])
  stored_bool :
      (b : Bool) → Stored Kind.boolean b (print_int (pos (if b then 1 else 0)) ++ b'\n' ∷ [])
  stored_text : (s : CString) → IsLine max_file_size s → Stored Kind.text (some s) s
  stored_ether :
      (a : List ℕ) → length a ≡ 6 → All (λ n. n < 256) a → Stored Kind.ether a (ether_ntoa_r a)
  stored_report :
      (x : ℕ) (s : CString) → length (x ∷ s) ≤ max_str_length → Stored Kind.report (x ∷ s) (x ∷ s)

short-int : (z : ℤ) → IsInt z → length (print_int z ++ b'\n' ∷ []) < max_str_length
short-int z h = omega (arith, length-append (print_int z) (b'\n' ∷ []), length-print_int z h)

bit : (b : Bool) → IsInt (pos (if b then 1 else 0))
bit true = omega arith
bit false = omega arith

module _ ⦃os : Os⦄ (path name file : CString) where
  written : CString → Io (Unit {0})
  written t = do n ← write_buf path name file t; return tt

  set_value-Stored :
      {k : Kind} {v : Val k} {t : CString} (m : Mem os)
      → Stored k v t
      → set_value k path name file v m ≡ io (written t) m
  unfolding set_value write_dec write_int write_bool write_string set_ether_addr hid_set_report
      written
  set_value-Stored m (stored_dec z h) = rw (lt→ltb _ _ (short-int z h)) refl
  set_value-Stored m (stored_bool b) =
      rw (lt→ltb _ _ (short-int (pos (if b then 1 else 0)) (bit b))) refl
  set_value-Stored m (stored_text s h) = refl
  set_value-Stored m (stored_ether a h j) = refl
  set_value-Stored m (stored_report x s h) = refl

  module _ (w : os.World) (memory : os.malloc w ≡ (true, w)) where
    read_int-line :
        (z : ℤ)
        → IsInt z
        → Holds path name file (print_int z ++ b'\n' ∷ []) w
        → read_int path name file 10 w ≡ (ok z, w)
    unfolding read_int
    read_int-line z h file =
        rw
          (
            file max_str_length (omega (arith, short-int z h)),
            append_assoc (print_int z) (b'\n' ∷ []) (os.stack w),
            to_int-strtol-print_int z (os.stack w) h,
          )
          refl

    bit_back : (b : Bool) → is_nonzero (pos (if b then 1 else 0)) ≡ b
    bit_back true = refl
    bit_back false = refl

    pub get_value-Stored :
        {k : Kind} {v : Val k} {t : CString}
        → Stored k v t
        → Holds path name file t w
        → get_value k path name file w ≡ (ok v, w)
    unfolding get_value read_bool get_string get_ether_addr hid_get_report read_buf
    get_value-Stored (stored_dec z h) file = read_int-line z h file
    get_value-Stored (stored_bool b) file =
        rw (read_int-line (pos (if b then 1 else 0)) (bit b) file, bit_back b) refl
    get_value-Stored (stored_text s h) file =
        rw (read_string_alloc-line path name _ s w file memory h) refl
    get_value-Stored (stored_ether a h j) file =
        rw
          (
            read_string_limited-line path name _ (ether_ntoa_r a) w max_str_length file
                (ether_ntoa_r-IsLine a h j),
            ether_aton_r-ether_ntoa_r a h j,
          )
          refl
    get_value-Stored (stored_report x s h) file =
        rw (file max_str_length h) (ground (arith, memory))

    -- For a value that is in the range of its type (an `int`; a text that is one line and fits
    -- the buffer; an address of six bytes; a report descriptor of 1 to 256 bytes), `.set` of the
    -- attribute writes the text for the value to its file and does nothing else, and
    -- `.get` returns the value from a file that can be read and holds this text, provided that
    -- the allocation succeeds.
    pub get_value-set_value :
        {k : Kind} {v : Val k} {t : CString} (h : Heap)
        → Stored k v t
        → Holds path name file t w
        → (set_value k path name file v (mem_at h w)
            ≡ io (do n ← write_buf path name file t; return tt) (mem_at h w))
          × (get_value k path name file w ≡ (ok v, w))
    unfolding written
    get_value-set_value h s file = (set_value-Stored (mem_at h w) s, get_value-Stored s file)
