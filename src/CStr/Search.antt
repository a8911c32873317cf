-- ===== src/CStr/Search.antt =====
-- `strchr` and `strrchr` on a text that was put together around the byte.
use libusbgx.Base.{
  ℕ, ◌≡◌, refl, Bool, true, not, ◌&&◌, [], ◌∷◌, ◌++◌, none, some, ◌==◌, ==_refl, arith,
}
use libusbgx.CStr.{CString, strchr, strrchr}

-- The byte does not occur.
unfoldable pub lacks : ℕ → CString → Bool
lacks b [] = true
lacks b (x ∷ s) = not (x == b) && lacks b s

pub strchr-append : (b : ℕ) (s t : CString) → lacks b s ≡ true → strchr b (s ++ b ∷ t) ≡ some (s, t)
unfolding strchr lacks
strchr-append b [] t _ = rw ==_refl
strchr-append b (x ∷ s) t h = ground (arith, strchr-append b s t)

strrchr-none : (b : ℕ) (t : CString) → lacks b t ≡ true → strrchr b t ≡ none
unfolding strrchr lacks
strrchr-none b [] _ = refl
strrchr-none b (x ∷ t) h = ground (arith, strrchr-none b t)

pub strrchr-append :
    (b : ℕ) (s t : CString) → lacks b t ≡ true → strrchr b (s ++ b ∷ t) ≡ some (s, t)
unfolding strrchr
strrchr-append b [] t h = rw (strrchr-none b t h, ==_refl)
strrchr-append b (x ∷ s) t h = rw (strrchr-append b s t h)

pub lacks-append : (b : ℕ) (s t : CString) → lacks b (s ++ t) ≡ (lacks b s && lacks b t)
unfolding lacks
lacks-append b [] t = refl
lacks-append b (x ∷ s) t = ground (arith, lacks-append b s t)
