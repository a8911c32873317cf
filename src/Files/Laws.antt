-- ===== src/Files/Laws.antt =====
-- usbg_common.c: what a text that was read looks like.
pub mod Lines
use libusbgx.Base.{
  ℕ, ◌-◌, ◌<◌, ◌≤◌, ◌≡◌, refl, subst, true, [], ◌∷◌, arith, length, take, length-take_le,
}
use libusbgx.CStr.{CString}
use libusbgx.CStr.Search.{lacks}
use libusbgx.Files.{cut, read_string_limited, string_in}
use libusbgx.Os.{Os}
use libusbgx.Os.Io.{ok, return, then_res-ok}

length-cut_le : (b : ℕ) (s : CString) → length (cut b s) ≤ length s
unfolding cut
length-cut_le b [] = omega arith
length-cut_le b (x ∷ s) = ground (arith, length-cut_le b s)

lacks-cut : (b : ℕ) (s : CString) → lacks b (cut b s) ≡ true
unfolding cut lacks
lacks-cut b [] = refl
lacks-cut b (x ∷ s) = ground (arith, lacks-cut b s)

lacks-cut_other : (a b : ℕ) (s : CString) → lacks a s ≡ true → lacks a (cut b s) ≡ true
unfolding cut lacks
lacks-cut_other a b [] h = refl
lacks-cut_other a b (x ∷ s) h = ground (arith, lacks-cut_other a b s)

-- A text that fits a buffer of `len` bytes with its terminator, and is one line.
pub record IsLine (len : ℕ) (s : CString) : Type 0 where
  pub short : length s < len
  pub no_newline : lacks b'\n' s ≡ true
  pub no_nul : lacks 0 s ≡ true

string_in-IsLine : (len : ℕ) (bytes : CString) → 0 < len → IsLine len (string_in len bytes)
string_in-IsLine len bytes h = record {
  short = omega (
    arith,
    length-cut_le b'\n' (cut 0 (take (len - 1) bytes)),
    length-cut_le 0 (take (len - 1) bytes),
    length-take_le (len - 1) bytes,
  );
  no_newline = lacks-cut b'\n' (cut 0 (take (len - 1) bytes));
  no_nul =
      lacks-cut_other 0 b'\n' (cut 0 (take (len - 1) bytes)) (lacks-cut 0 (take (len - 1) bytes));
}

module _ ⦃os : Os⦄ (w : os.World) where
  -- Where `usbg_read_string_limited` succeeds with a buffer of at least one byte, the text in it
  -- fits it with its terminator and has no newline and no NUL, whatever the file holds.
  pub read_string_limited-IsLine :
      (path name file : CString) (len : ℕ) {s : CString} {w' : os.World}
      → 0 < len
      → read_string_limited path name file len w ≡ (ok s, w')
      → IsLine len s
  unfolding read_string_limited
  read_string_limited-IsLine path name file len {s} {w'} h e =
      let (bytes, p, q) = then_res-ok (λ b. return (string_in len b)) _ _ e in
      subst (IsLine len) (ground arith) (string_in-IsLine len bytes h)
