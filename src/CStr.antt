-- ===== src/CStr.antt =====
-- C strings: the bytes before the terminating NUL, and the functions of <string.h> that the
-- library calls.
pub mod Order
pub mod Search
use Prim.Native.Char.{code}
use Prim.Native.String.{String}
use libusbgx.Base.{
  ℕ, suc, ◌≡◌, refl, ◌↔◌, Bool, true, false, ◌||◌, ◌&&◌, Option, none, some, List, [], ◌∷◌, ◌++◌,
  arith, compare, Ordering, ◌==◌, leb, if◌then◌else◌,
}

abbrev pub CString : Type 0
CString = List ℕ

-- The bytes of an ASCII literal.
abbrev pub c : String → CString
c String.[] = []
c (String.◌∷◌ x s) = code x ∷ c s

-- The sign of what `strcmp` returns.
unfoldable pub strcmp : CString → CString → Ordering
strcmp [] [] = Ordering.eq
strcmp [] (y ∷ ys) = Ordering.lt
strcmp (x ∷ xs) [] = Ordering.gt
strcmp (x ∷ xs) (y ∷ ys) = elim (compare x y) [
  | Ordering.lt ↦ Ordering.lt
  | Ordering.gt ↦ Ordering.gt
  | Ordering.eq ↦ strcmp xs ys
]

-- `!strcmp(a, b)`
abbrev pub str_eq : CString → CString → Bool
str_eq a b = elim (strcmp a b) [ Ordering.eq ↦ true | _ ↦ false ]

-- `strchr`: what stands before the first occurrence of the byte, and what stands behind it.
unfoldable pub strchr : ℕ → CString → Option (CString × CString)
strchr b [] = none
strchr b (x ∷ xs) =
    let rest = strchr b xs in
    if x == b
    then some ([], xs)
    else elim rest [ none ↦ none | some (before, behind) ↦ some (x ∷ before, behind) ]

-- `strrchr`: the same at the last occurrence.
unfoldable pub strrchr : ℕ → CString → Option (CString × CString)
strrchr b [] = none
strrchr b (x ∷ xs) = elim (strrchr b xs) [
  | some (before, behind) ↦ some (x ∷ before, behind)
  | none ↦ if x == b then some ([], xs) else none
]

-- `isspace` in the C locale.
abbrev pub isspace : ℕ → Bool
isspace b = b == b' ' || (leb 9 b && leb b 13)
