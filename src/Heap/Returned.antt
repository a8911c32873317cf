-- ===== src/Heap/Returned.antt =====
-- Properties of what code on memory returns, if it does.
use libusbgx.Error.{UsbgError}
use libusbgx.Heap.{Heap, Mem}
use libusbgx.Heap.Keeps.{mem_at, Keeps, kept, failed_kept}
use libusbgx.Heap.Monad.{M, Run, returned, raised, fault, then_run}
use libusbgx.Os.{Os}

-- If it returns, this holds of what it returns.
pub data IfReturned {S A : Type 0} (P : A → Type 0) : Run S A → Type 0 where
  if_returned : {a : A} {s : S} → P a → IfReturned P (returned a s)
  if_raised : {e : UsbgError} {s : S} → IfReturned P (raised e s)
  if_fault : IfReturned P fault

module _ ⦃os : Os⦄ where
  pub IfReturned-bind :
      {A B : Type 0} {P : B → Type 0} (f : A → M B) (r : Run (Mem os) A)
      → ((a : A) (m : Mem os) → IfReturned P (f a m))
      → IfReturned P (then_run f r)
  IfReturned-bind f (returned a m) next = next a m
  IfReturned-bind f (raised e m) next = if_raised
  IfReturned-bind f fault next = if_fault

  pub IfReturned-mono :
      {A : Type 0} {P Q : A → Type 0} {r : Run (Mem os) A}
      → ((a : A) → P a → Q a)
      → IfReturned P r
      → IfReturned Q r
  IfReturned-mono f (if_returned p) = if_returned (f _ p)
  IfReturned-mono f if_raised = if_raised
  IfReturned-mono f if_fault = if_fault

  pub IfReturned-Keeps :
      {A B : Type 0} {P : B → Type 0} {h : Heap} {r : Run (Mem os) A} (f : A → M B)
      → Keeps h r
      → ((a : A) (w : os.World) → IfReturned P (f a (mem_at h w)))
      → IfReturned P (then_run f r)
  IfReturned-Keeps f (kept a w) next = next a w
  IfReturned-Keeps f (failed_kept e w) next = if_raised

  pub IfReturned-never :
      {A B : Type 0} {P : A → Type 0} {Q : B → Type 0} {r : Run (Mem os) A} (f : A → M B)
      → ((a : A) → ¬ P a)
      → IfReturned P r
      → IfReturned Q (then_run f r)
  IfReturned-never f none_holds (if_returned p) = absurd (none_holds _ p)
  IfReturned-never f none_holds if_raised = if_raised
  IfReturned-never f none_holds if_fault = if_fault
