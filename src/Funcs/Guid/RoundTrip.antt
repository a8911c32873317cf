-- ===== src/Funcs/Guid/RoundTrip.antt =====
-- The text of a GUID that was exported, and its bytes when it is written to a file.
use libusbgx.Base.{
  ℕ, zero, suc, ◌<◌, ◌≡◌, refl, Bool, true, false, not, ◌&&◌, ◌==◌, List, [], ◌∷◌, ◌++◌, some, All,
  arith, length, length-append, ◌+◌,
}
use libusbgx.Base.Int.{ℤ, pos, negsuc}
use libusbgx.CStr.{CString, isspace}
use libusbgx.Files.{write_buf}
use libusbgx.Funcs.Guid.{
  scan_byte, scan_guid, print_guid, write_guid, guid_fields, dashed, after_dash,
}
use libusbgx.Num.{Parsed, strtol, skip_space, to_unsigned, print_hex}
use libusbgx.Os.{Os}
use libusbgx.Os.Io.{return, ◌>>=◌}

is_whole : ℕ → Parsed → Bool
is_whole b p =
    (elim p.value [ pos n ↦ n == b | negsuc n ↦ false ])
    && (elim p.rest [ [] ↦ true | z ∷ s ↦ false ])

-- The text is two digits, which `strtol` reads as the number, whole.
reads : ℕ → CString → Bool
reads b (x ∷ y ∷ []) = not (isspace x) && is_whole b (strtol 16 (x ∷ y ∷ []))
reads b _ = false

all_below : ℕ → (ℕ → Bool) → Bool
all_below zero test = true
all_below (suc n) test = test n && all_below n test

all_below-at : (n : ℕ) (test : ℕ → Bool) (b : ℕ) → all_below n test ≡ true → b < n → test b ≡ true
unfolding all_below
all_below-at zero test b h l = absurd (omega arith)
all_below-at (suc n) test b h l = ground (arith, all_below-at n test b)

table : all_below 256 (λ b. reads b (print_hex 2 b)) ≡ true
unfolding all_below reads is_whole print_hex strtol skip_space
table = refl

whole : (b : ℕ) (p : Parsed) → is_whole b p ≡ true → (p.value ≡ pos b) × (p.rest ≡ [])
unfolding is_whole
whole b p h = go p.value p.rest h
  where
    go :
        (v : ℤ) (r : CString)
        → ((elim v [ pos n ↦ n == b | negsuc n ↦ false ]) && (elim r [ [] ↦ true | z ∷ s ↦ false ]))
          ≡ true
        → (v ≡ pos b) × (r ≡ [])
    go (pos n) [] h = ground arith
    go (pos n) (z ∷ s) h = ground arith
    go (negsuc n) r h = ground arith

scan_byte-reads :
    (b : ℕ) (text rest : CString)
    → b < 256
    → reads b text ≡ true
    → (scan_byte (text ++ rest) ≡ some (b, rest)) × (length text ≡ 2)
unfolding reads scan_byte skip_space to_unsigned
scan_byte-reads b [] rest h e = cc
scan_byte-reads b (x ∷ []) rest h e = cc
scan_byte-reads b (x ∷ y ∷ z ∷ s) rest h e = cc
scan_byte-reads b (x ∷ y ∷ []) rest h e =
    let (value, none_left) = whole b (strtol 16 (x ∷ y ∷ [])) (ground (arith, e)) in
    let dark : isspace x ≡ false = ground (arith, e) in
    (rw (dark, value, none_left) (ground arith), refl)

scan_byte-print_hex :
    (b : ℕ) (rest : CString) → b < 256 → scan_byte (print_hex 2 b ++ rest) ≡ some (b, rest)
scan_byte-print_hex b rest h =
    (scan_byte-reads b (print_hex 2 b) rest h (all_below-at 256 _ b table h)).0

field-scanned :
    (dash : Bool) (fields : List Bool) (s t rest : CString) (b : ℕ) (bs : List ℕ)
    → after_dash dash s ≡ some t
    → scan_byte t ≡ some (b, rest)
    → scan_guid fields rest ≡ some bs
    → scan_guid (dash ∷ fields) s ≡ some (b ∷ bs)
unfolding scan_guid
field-scanned dash fields s t rest b bs p q r = rw (scan_guid, p, q, r) refl

after_dash-dashed : (dash : Bool) (s : CString) → after_dash dash (dashed dash s) ≡ some s
after_dash-dashed true s = refl
after_dash-dashed false s = refl

scan_guid-print_guid :
    (fields : List Bool) (bytes : List ℕ)
    → length bytes ≡ length fields
    → All (λ b. b < 256) bytes
    → scan_guid fields (print_guid fields bytes) ≡ some bytes
unfolding print_guid
scan_guid-print_guid [] [] e all = unfold scan_guid in refl
scan_guid-print_guid [] (b ∷ bs) e all = absurd (omega (arith, e))
scan_guid-print_guid (d ∷ fields) [] e all = absurd (omega (arith, e))
scan_guid-print_guid (d ∷ fields) (b ∷ bs) e (h, all) =
    field-scanned d fields (dashed d (print_hex 2 b ++ print_guid fields bs))
      (print_hex 2 b ++ print_guid fields bs) (print_guid fields bs) b bs (after_dash-dashed d _)
      (scan_byte-print_hex b (print_guid fields bs) h)
      (scan_guid-print_guid fields bs (omega (arith, e)) all)

abbrev text_length : List Bool → ℕ
text_length [] = 0
text_length (true ∷ fields) = 3 + text_length fields
text_length (false ∷ fields) = 2 + text_length fields

length-dashed :
    (d : Bool) (fields : List Bool) (s : CString)
    → length s ≡ 2 + text_length fields
    → length (dashed d s) ≡ text_length (d ∷ fields)
length-dashed true fields s e = omega (arith, e)
length-dashed false fields s e = omega (arith, e)

length-print_guid :
    (fields : List Bool) (bytes : List ℕ)
    → length bytes ≡ length fields
    → All (λ b. b < 256) bytes
    → length (print_guid fields bytes) ≡ text_length fields
unfolding print_guid
length-print_guid [] bytes e all = refl
length-print_guid (d ∷ fields) [] e all = absurd (omega (arith, e))
length-print_guid (d ∷ fields) (b ∷ bs) e (h, all) =
    length-dashed d fields (print_hex 2 b ++ print_guid fields bs) (
      omega (
        arith,
        length-append {0} (print_hex 2 b) (print_guid fields bs),
        (scan_byte-reads b (print_hex 2 b) [] h (all_below-at 256 _ b table h)).1,
        length-print_guid fields bs (omega (arith, e)) all,
      ))

-- The text that `usbg_set_config_node_guid` makes of sixteen bytes is one that `usbg_write_guid`
-- takes, and it writes these bytes to the file.
pub write_guid-print_guid :
    ⦃os : Os⦄ (path name file : CString) (bytes : List ℕ) (w : os.World)
    → length bytes ≡ 16
    → All (λ b. b < 256) bytes
    → write_guid path name file (print_guid guid_fields bytes) w
      ≡ (do n ← write_buf path name file bytes; return tt) w
unfolding write_guid
write_guid-print_guid path name file bytes w e all =
    rw (length-print_guid guid_fields bytes e all, scan_guid-print_guid guid_fields bytes e all)
      refl
