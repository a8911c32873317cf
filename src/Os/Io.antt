-- ===== src/Os/Io.antt =====
-- Code that calls the environment and returns a value or an error code. `ret = f(...); if (ret)
-- goto out;` is a step of a do block; a cleanup label is `on_error`.
use libusbgx.Base.{◌≡◌, refl, arith, Bool, if◌then◌else◌}
use libusbgx.Base.Int.{pos}
use libusbgx.Error.{UsbgError, translate_error}
use libusbgx.Os.{Os, Sys, done, errno}

-- What a function that returns an `int` reports: a value, or a negative error code.
pub data Res (A : Type 0) : Type 0 where
  ok : A → Res A
  err : UsbgError → Res A

abbrev pub Io : ⦃os : Os⦄ → Type 0 → Type 0
Io ⦃os⦄ A = os.World → Res A × os.World

module _ ⦃os : Os⦄ where
  abbrev pub return : {A : Type 0} → A → Io A
  return a w = (ok a, w)

  abbrev pub fail : {A : Type 0} → UsbgError → Io A
  fail e w = (err e, w)

  abbrev pub from_res : {A : Type 0} → Res A → Io A
  from_res r w = (r, w)

  abbrev pub then_res : {A B : Type 0} → (A → Io B) → Res A → os.World → Res B × os.World
  then_res f (ok a) w = f a w
  then_res f (err e) w = (err e, w)

  infixl 5 ◌>>=◌ ◌>>◌
  abbrev pub ◌>>=◌ : {A B : Type 0} → Io A → (A → Io B) → Io B
  ◌>>=◌ m f w = then_res f (m w).0 (m w).1

  abbrev pub ◌>>◌ : {B : Type 0} → Io (Unit {0}) → Io B → Io B
  m >> k = m >>= λ _. k

  -- A system call whose error is translated: `ret = usbg_translate_error(errno)`.
  abbrev pub translated : {A : Type 0} → Sys A → os.World → Res A × os.World
  translated (done a) w = (ok a, w)
  translated (errno n) w = (err (translate_error (pos n)), w)

  abbrev pub call : {A : Type 0} → (os.World → Sys A × os.World) → Io A
  call s w = translated (s w).0 (s w).1

  -- A call whose outcome the code does not look at.
  abbrev pub ignore : {A : Type 0} → (os.World → A × os.World) → Io (Unit {0})
  ignore s w = (ok tt, (s w).1)

  -- An allocation, and the error that a failure of it is reported as.
  abbrev pub allocate : UsbgError → Io (Unit {0})
  allocate e w = (if (os.malloc w).0 then ok tt else err e, (os.malloc w).1)

  -- An allocation whose result the code keeps and tests later.
  abbrev pub try_allocate : Io Bool
  try_allocate w = (ok (os.malloc w).0, (os.malloc w).1)

  abbrev pub check : Bool → UsbgError → Io (Unit {0})
  check b e w = (if b then ok tt else err e, w)

  -- A step that ended well went through a step that did.
  pub then_res-ok :
      {A B : Type 0} (f : A → Io B) (r : Res A) (w : os.World) {b : B} {w' : os.World}
      → then_res f r w ≡ (ok b, w')
      → (a : A) × (r ≡ ok a) × (f a w ≡ (ok b, w'))
  then_res-ok f (ok a) w h = (a, refl, h)
  then_res-ok f (err e) w h = ground arith
