-- ===== src/Funcs/Uvc/Dirs.antt =====
-- Which directories uvc_create_dir makes.
use libusbgx.Base.{ℕ, ◌≡◌, ◌≢◌, refl, ◌∙◌, true, false, List, [], ◌∷◌, ◌++◌, All, arith, ◌==◌}
use mathlib.Core.List.{append_assoc, append-nil}
use libusbgx.CStr.{CString}
use libusbgx.Files.{fits}
use libusbgx.Funcs.Uvc.{make_dir, make_dirs, create_dir, without_slash}
use libusbgx.Os.{Os}
use libusbgx.Os.Io.{Io, Res, ok, err, then_res, ◌>>◌}

-- An absolute path, from the names of its directories.
abbrev pub path_of : List CString → CString
path_of [] = []
path_of (x ∷ xs) = b'/' ∷ (x ++ path_of xs)

abbrev pub IsName : CString → Type 0
IsName x = All (λ b. b ≢ b'/') x

without_slash-slash : (s : CString) → without_slash (s ++ b'/' ∷ []) ≡ s
unfolding without_slash
without_slash-slash [] = refl
without_slash-slash (x ∷ []) = refl
without_slash-slash (x ∷ y ∷ s) = rw (without_slash-slash (y ∷ s)) refl

module _ ⦃os : Os⦄ where
  -- The directories below `base`, one after the other, down to the last. The first that cannot be
  -- made ends it.
  abbrev pub made : CString → List CString → Io (Unit {0})
  made base [] = make_dir base
  made base (x ∷ xs) = make_dir base >> made (base ++ b'/' ∷ x) xs

  make_dirs-other :
      (over : CString) (b : ℕ) (s : CString) (w : os.World)
      → (b == b'/') ≡ false
      → make_dirs over (b ∷ s) w ≡ make_dirs (over ++ b ∷ []) s w
  unfolding make_dirs
  make_dirs-other over b s w other = rw other refl

  make_dirs-IsName :
      (over x s : CString) (w : os.World)
      → IsName x
      → make_dirs over (x ++ s) w ≡ make_dirs (over ++ x) s w
  make_dirs-IsName over [] s w h = rw (append-nil over) refl
  make_dirs-IsName over (b ∷ x) s w (ne, h) =
      make_dirs-other over b (x ++ s) w (ground (arith, ne))
      ∙ make_dirs-IsName (over ++ b ∷ []) x s w h
      ∙ rw (append_assoc over (b ∷ []) x) refl

  then-same :
      (m f g : Io (Unit {0})) (w : os.World)
      → ((w : os.World) → f w ≡ g w)
      → (m >> f) w ≡ (m >> g) w
  then-same m f g w same = go (m w).0 (m w).1
    where
      go : (r : Res (Unit {0})) (w : os.World) → then_res (λ _. f) r w ≡ then_res (λ _. g) r w
      go (ok a) w = same w
      go (err e) w = refl

  -- The loop, at the end of the name of `base`.
  make_dirs-path_of :
      (base : CString) (xs : List CString) (w : os.World)
      → All IsName xs
      → make_dirs base (path_of xs) w ≡ made base xs w
  unfolding make_dirs
  make_dirs-path_of base [] w h = refl
  make_dirs-path_of base (x ∷ xs) w (h, hs) =
      then-same (make_dir base) (make_dirs (base ++ b'/' ∷ []) (x ++ path_of xs))
        (made (base ++ b'/' ∷ x) xs) w
        (λ w.
          make_dirs-IsName (base ++ b'/' ∷ []) x (path_of xs) w h
          ∙ (rw (append_assoc base (b'/' ∷ []) x) (make_dirs-path_of (base ++ b'/' ∷ x) xs w hs)))

  -- `uvc_create_dir` of an absolute path of one or more names, none of which has a slash, that ends
  -- in a slash and fits the buffer, makes the directories of the path one after the other from the
  -- first on, where one that is there already is no error, until it has made the last or one cannot
  -- be made, whose error it returns.
  pub create_dir-made :
      (x : CString) (xs : List CString) (w : os.World)
      → IsName x
      → All IsName xs
      → fits (path_of (x ∷ xs) ++ b'/' ∷ []) ≡ true
      → create_dir (path_of (x ∷ xs) ++ b'/' ∷ []) w ≡ made (b'/' ∷ x) xs w
  unfolding create_dir
  create_dir-made x xs w h hs fit =
      rw (fit, without_slash-slash (path_of (x ∷ xs)))
        (make_dirs-IsName (b'/' ∷ []) x (path_of xs) w h ∙ make_dirs-path_of (b'/' ∷ x) xs w hs)
