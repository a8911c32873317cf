-- ===== src/Heap/Keeps.antt =====
-- Code that reads structures and the environment, and changes no structure.
use libusbgx.Base.{Bool, true, false}
use libusbgx.Error.{UsbgError}
use libusbgx.Heap.{Heap, Mem, Ptr}
use libusbgx.Heap.Monad.{
  M, Run, returned, raised, fault, Slot, then_run, clean, raise_again, io, in_memory, load, require,
}
use libusbgx.Heap.Post.{Post, returns, raises, Live, load-returned}
use libusbgx.Os.{Os}
use libusbgx.Os.Io.{Io, Res, ok, err}

-- The structures `h` in the world `w`.
abbrev pub mem_at : ⦃os : Os⦄ → Heap → os.World → Mem os
mem_at h w = record { world = w; heap = h }

-- It does not fault, and leaves the structures `h`.
pub data Keeps ⦃os : Os⦄ {A : Type 0} (h : Heap) : Run (Mem os) A → Type 0 where
  kept : (a : A) (w : os.World) → Keeps h (returned a (mem_at h w))
  failed_kept : (e : UsbgError) (w : os.World) → Keeps h (raised e (mem_at h w))

module _ ⦃os : Os⦄ {A : Type 0} {h : Heap} where
  pub Keeps-bind :
      {B : Type 0} {r : Run (Mem os) B} (f : B → M A)
      → Keeps h r
      → ((b : B) (w : os.World) → Keeps h (f b (mem_at h w)))
      → Keeps h (then_run f r)
  Keeps-bind f (kept b w) next = next b w
  Keeps-bind f (failed_kept e w) next = failed_kept e w

  pub Keeps-io : (s : Io A) (w : os.World) → Keeps h (io s (mem_at h w))
  Keeps-io s w = go (s w).0 (s w).1
    where
      go : (r : Res A) (v : os.World) → Keeps h (in_memory (mem_at h w) r v)
      go (ok a) v = kept a v
      go (err e) v = failed_kept e v

  pub Keeps-load :
      {B : Type 0} (slot : Slot B) (f : B → M A) {p : Ptr} {b : B} {w : os.World}
      → Live slot h p b
      → Keeps h (f b (mem_at h w))
      → Keeps h (then_run f (load slot p (mem_at h w)))
  Keeps-load slot f {w = w} live next = rw (load-returned {m = mem_at h w} live) next

pub Keeps-require :
    ⦃os : Os⦄ {h : Heap} (b : Bool) (e : UsbgError) (w : os.World)
    → Keeps h (require b e (mem_at h w))
Keeps-require true e w = kept tt w
Keeps-require false e w = failed_kept e w

module _ ⦃os : Os⦄ {A : Type 0} {P : A → Mem os → Type 0} {Q : Mem os → Type 0} where
  -- Such code and what follows it.
  pub Keeps-Post :
      {B : Type 0} {h : Heap} {r : Run (Mem os) B} (f : B → M A)
      → Keeps h r
      → ((b : B) (w : os.World) → Post P (λ _ n. Q n) (f b (mem_at h w)))
      → ((w : os.World) → Q (mem_at h w))
      → Post P (λ _ n. Q n) (then_run f r)
  Keeps-Post f (kept b w) next stop = next b w
  Keeps-Post f (failed_kept e w) next stop = raises (stop w)

  raise_again-then :
      {B : Type 0} (f : B → M A) (e : UsbgError) (r : Run (Mem os) (Unit {0}))
      → Post (λ _ n. Q n) (λ _ n. Q n) r
      → Post P (λ _ n. Q n) (then_run f (raise_again {A = B} e r))
  raise_again-then f e (returned _ _) (returns q) = raises q
  raise_again-then f e (raised _ _) (raises q) = raises q
  raise_again-then f e fault q = elim q [ ]

  -- The same with a cleanup after an error.
  pub Keeps-guard :
      {B : Type 0} {h : Heap} {r : Run (Mem os) B} (f : B → M A) (cleanup : M (Unit {0}))
      → Keeps h r
      → ((b : B) (w : os.World) → Post P (λ _ n. Q n) (f b (mem_at h w)))
      → ((w : os.World) → Post (λ _ n. Q n) (λ _ n. Q n) (cleanup (mem_at h w)))
      → Post P (λ _ n. Q n) (then_run f (clean cleanup r))
  Keeps-guard f cleanup (kept b w) next undo = next b w
  Keeps-guard {h = h} f cleanup (failed_kept e w) next undo =
      raise_again-then f e (cleanup (mem_at h w)) (undo w)

pub Keeps-end :
    ⦃os : Os⦄ {A : Type 0} {P : A → Mem os → Type 0} {Q : Mem os → Type 0} {h : Heap}
    {r : Run (Mem os) A}
    → Keeps h r
    → ((a : A) (w : os.World) → P a (mem_at h w))
    → ((w : os.World) → Q (mem_at h w))
    → Post P (λ _ n. Q n) r
Keeps-end (kept a w) f g = returns (f a w)
Keeps-end (failed_kept e w) f g = raises (g w)
