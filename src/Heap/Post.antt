-- ===== src/Heap/Post.antt =====
-- Total correctness of code on memory: it does not fault, and what it returns or raises has a
-- postcondition.
use libusbgx.Base.{◌≡◌, ◌≢◌, some, arith}
use libusbgx.Error.{UsbgError}
use libusbgx.Heap.{Ptr, null, Heap, Mem}
use libusbgx.Heap.Monad.{
  M, Run, returned, raised, Slot, then_run, io, load, store, free, written, freed, in_memory,
}
use libusbgx.Os.{Os}
use libusbgx.Os.Io.{Io, Res, ok, err}

pub data Post {S A : Type 0} (P : A → S → Type 0) (Q : UsbgError → S → Type 0)
    : Run S A → Type 0 where
  returns : {a : A} {s : S} → P a s → Post P Q (returned a s)
  raises : {e : UsbgError} {s : S} → Q e s → Post P Q (raised e s)

module _ ⦃os : Os⦄ {A : Type 0} {P : A → Mem os → Type 0} {Q : UsbgError → Mem os → Type 0} where
  pub Post-bind :
      {B : Type 0} {R : B → Mem os → Type 0} {r : Run (Mem os) A} {f : A → M B}
      → Post P Q r
      → ((a : A) (m : Mem os) → P a m → Post R Q (f a m))
      → Post R Q (then_run f r)
  Post-bind (returns p) next = next _ _ p
  Post-bind (raises q) next = raises q

  in_memory-Post :
      (m : Mem os) (r : Res A) (w : os.World)
      → ((a : A) (w : os.World) → P a (record m { world = w }))
      → ((e : UsbgError) (w : os.World) → Q e (record m { world = w }))
      → Post P Q (in_memory m r w)
  in_memory-Post m (ok a) w p q = returns (p a w)
  in_memory-Post m (err e) w p q = raises (q e w)

  -- Whatever code that does not touch the structures does.
  pub io-Post :
      (c : Io A) (m : Mem os)
      → ((a : A) (w : os.World) → P a (record m { world = w }))
      → ((e : UsbgError) (w : os.World) → Q e (record m { world = w }))
      → Post P Q (io c m)
  io-Post c m p q = in_memory-Post m _ _ p q

  -- A call that does not touch the structures, and what follows it.
  pub Post-io :
      {B : Type 0} (c : Io B) (f : B → M A) (m : Mem os)
      → ((b : B) (w : os.World) → Post P Q (f b (record m { world = w })))
      → ((e : UsbgError) (w : os.World) → Q e (record m { world = w }))
      → Post P Q (then_run f (io c m))
  Post-io c f m next stop = go (c m.world).0 (c m.world).1
    where
      go : (r : Res _) (w : os.World) → Post P Q (then_run f (in_memory m r w))
      go (ok b) w = next b w
      go (err e) w = raises (stop e w)

  pub Post-mono :
      {P' : A → Mem os → Type 0} {Q' : UsbgError → Mem os → Type 0} {r : Run (Mem os) A}
      → Post P Q r
      → ((a : A) (m : Mem os) → P a m → P' a m)
      → ((e : UsbgError) (m : Mem os) → Q e m → Q' e m)
      → Post P' Q' r
  Post-mono (returns p) f g = returns (f _ _ p)
  Post-mono (raises q) f g = raises (g _ _ q)

-- A live object.
pub record Live {A : Type 0} (slot : Slot A) (h : Heap) (p : Ptr) (a : A) : Type 0 where
  pub ne_null : p ≢ null
  pub holds : slot.table h p ≡ some a

module _ ⦃os : Os⦄ {A : Type 0} {slot : Slot A} {m : Mem os} {p : Ptr} {a : A}
    (l : Live slot m.heap p a) where
  pub load-returned : load slot p m ≡ returned a m
  load-returned = ground arith

  pub store-returned :
      (b : A) → store slot p b m ≡ returned tt (record m { heap = written slot p b m.heap })
  store-returned b = ground arith

  pub free-returned : free slot p m ≡ returned tt (record m { heap = freed slot p m.heap })
  free-returned = ground arith
