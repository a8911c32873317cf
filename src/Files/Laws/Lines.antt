-- ===== src/Files/Laws/Lines.antt =====
-- usbg_common.c: a file that holds one line is read as that line.
use libusbgx.Base.{
  ℕ, zero, suc, ◌-◌, ◌≤◌, ◌≡◌, refl, ap, true, [], ◌∷◌, arith, length, take, ◌+◌, ◌<◌, ◌++◌,
  length-append, ==_refl,
}
use libusbgx.CStr.{CString}
use libusbgx.CStr.Search.{lacks}
use libusbgx.Files.{
  cut, read_buf_limited, read_string_limited, read_string_alloc, string_in, max_file_size,
}
use libusbgx.Files.Laws.{IsLine}
use libusbgx.Os.{Os}
use libusbgx.Os.Io.{ok}

cut-lacks : (b : ℕ) (s : CString) → lacks b s ≡ true → cut b s ≡ s
unfolding cut lacks
cut-lacks b [] h = refl
cut-lacks b (x ∷ s) h = ground (arith, cut-lacks b s)

pub take-length : (n : ℕ) (s : CString) → length s ≤ n → take n s ≡ s
take-length zero [] h = refl
take-length zero (x ∷ s) h = absurd (omega arith)
take-length (suc n) [] h = refl
take-length (suc n) (x ∷ s) h = ap (λ t. x ∷ t) (take-length n s (omega arith))

string_in-line : (len : ℕ) (s : CString) → IsLine len s → string_in len s ≡ s
string_in-line len s l =
    rw (take-length (len - 1) s (omega (arith, l.short)), cut-lacks 0 s l.no_nul)
      (cut-lacks b'\n' s l.no_newline)

pub lacks-append :
    (b : ℕ) (s t : CString) → lacks b s ≡ true → lacks b t ≡ true → lacks b (s ++ t) ≡ true
unfolding lacks
lacks-append b [] t h k = k
lacks-append b (x ∷ s) t h k = ground (arith, lacks-append b s t)

cut-found : (b : ℕ) (s t : CString) → lacks b s ≡ true → cut b (s ++ b ∷ t) ≡ s
unfolding cut lacks
cut-found b [] t h = ground (arith, ==_refl b)
cut-found b (x ∷ s) t h = ground (arith, cut-found b s t)

-- A line with a newline behind it.
string_in-newline :
    (len : ℕ) (s : CString)
    → IsLine len s
    → length s + 1 < len
    → string_in len (s ++ b'\n' ∷ []) ≡ s
unfolding lacks
string_in-newline len s l short =
    let t = s ++ b'\n' ∷ [] in
    rw
      (
        take-length (len - 1) t (omega (arith, short, length-append s (b'\n' ∷ []))),
        cut-lacks 0 t (lacks-append 0 s (b'\n' ∷ []) l.no_nul refl),
      )
      (cut-found b'\n' s [] l.no_newline)

module _ ⦃os : Os⦄ (path name file : CString) (t : CString) (w : os.World) where
  -- The file can be read, as often as one likes, with any buffer that its bytes fit.
  abbrev pub Holds : Type 0
  Holds = (len : ℕ) → length t ≤ len → read_buf_limited path name file len w ≡ (ok t, w)

  pub read_string_limited-line :
      (len : ℕ) → Holds → IsLine len t → read_string_limited path name file len w ≡ (ok t, w)
  unfolding read_string_limited
  read_string_limited-line len h l =
      rw (h len (omega (arith, l.short)), string_in-line len t l) refl

  pub read_string_limited-newline :
      {s : CString} (len : ℕ)
      → t ≡ s ++ b'\n' ∷ []
      → Holds
      → IsLine len s
      → length s + 1 < len
      → read_string_limited path name file len w ≡ (ok s, w)
  unfolding read_string_limited
  read_string_limited-newline {s} len e h l short =
      rw
        (
          h len (rw e (omega (arith, short, length-append s (b'\n' ∷ [])))),
          e,
          string_in-newline len s l short,
        )
        refl

  pub read_string_alloc-line :
      Holds
      → os.malloc w ≡ (true, w)
      → IsLine max_file_size t
      → read_string_alloc path name file w ≡ (ok t, w)
  unfolding read_string_alloc
  read_string_alloc-line h memory l = rw (read_string_limited-line max_file_size h l, memory) refl

  pub read_string_alloc-newline :
      {s : CString}
      → t ≡ s ++ b'\n' ∷ []
      → Holds
      → os.malloc w ≡ (true, w)
      → IsLine max_file_size s
      → length s + 1 < max_file_size
      → read_string_alloc path name file w ≡ (ok s, w)
  unfolding read_string_alloc
  read_string_alloc-newline e h memory l short =
      rw (read_string_limited-newline max_file_size e h l short, memory) refl
