-- ===== src/Heap/Monad.antt =====
-- Code that works on memory: it returns a value or raises an error code, or it faults. As in
-- `Os.Io`, `if (ret) goto out;` is a step of a do block and a cleanup label is `on_error`.
use libusbgx.Base.{suc, Bool, true, false, List, [], ◌∷◌, Option, none, some, ◌==◌, if◌then◌else◌}
use libusbgx.Error.{UsbgError}
use libusbgx.Heap.{Ptr, null, State, Gadget, Config, Function, Binding, Udc, Table, Heap, Mem}
use libusbgx.Os.{Os}
use libusbgx.Os.Io.{Io, Res, ok, err}

pub data Run (S A : Type 0) : Type 0 where
  returned : A → S → Run S A
  raised : UsbgError → S → Run S A
  fault : Run S A

abbrev pub M : ⦃os : Os⦄ → Type 0 → Type 0
M ⦃os⦄ A = Mem os → Run (Mem os) A

abbrev pub update : {A : Type 0} → Table A → Ptr → Option A → Table A
update t p v q = if p == q then v else t q

-- One of the tables.
pub record Slot (A : Type 0) : Type 0 where
  pub table : Heap → Table A
  pub with_table : Table A → Heap → Heap

abbrev pub state_at : Slot State
state_at = record { table = λ h. h.states; with_table = λ t h. record h { states = t } }

abbrev pub gadget_at : Slot Gadget
gadget_at = record { table = λ h. h.gadgets; with_table = λ t h. record h { gadgets = t } }

abbrev pub config_at : Slot Config
config_at = record { table = λ h. h.configs; with_table = λ t h. record h { configs = t } }

abbrev pub function_at : Slot Function
function_at = record { table = λ h. h.functions; with_table = λ t h. record h { functions = t } }

abbrev pub binding_at : Slot Binding
binding_at = record { table = λ h. h.bindings; with_table = λ t h. record h { bindings = t } }

abbrev pub udc_at : Slot Udc
udc_at = record { table = λ h. h.udcs; with_table = λ t h. record h { udcs = t } }

-- The heap with an object written, freed, or added.
abbrev pub written : {A : Type 0} → Slot A → Ptr → A → Heap → Heap
written slot p a h = slot.with_table (update (slot.table h) p (some a)) h

abbrev pub freed : {A : Type 0} → Slot A → Ptr → Heap → Heap
freed slot p h = slot.with_table (update (slot.table h) p none) h

abbrev pub added : {A : Type 0} → Slot A → A → Heap → Heap
added slot a h = let n = written slot h.next a h in record n { next = suc h.next }

module _ ⦃os : Os⦄ where
  abbrev pub return : {A : Type 0} → A → M A
  return a m = returned a m

  abbrev pub raise : {A : Type 0} → UsbgError → M A
  raise e m = raised e m

  abbrev pub then_run : {A B : Type 0} → (A → M B) → Run (Mem os) A → Run (Mem os) B
  then_run f (returned a m) = f a m
  then_run f (raised e m) = raised e m
  then_run f fault = fault

  infixl 5 ◌>>=◌ ◌>>◌
  abbrev pub ◌>>=◌ : {A B : Type 0} → M A → (A → M B) → M B
  ◌>>=◌ c f m = then_run f (c m)

  abbrev pub ◌>>◌ : {B : Type 0} → M (Unit {0}) → M B → M B
  c >> k = c >>= λ _. k

  -- After the cleanup the error is the one that led to it.
  abbrev pub raise_again : {A : Type 0} → UsbgError → Run (Mem os) (Unit {0}) → Run (Mem os) A
  raise_again e (returned _ m) = raised e m
  raise_again e (raised _ m) = raised e m
  raise_again e fault = fault

  abbrev pub clean : {A : Type 0} → M (Unit {0}) → Run (Mem os) A → Run (Mem os) A
  clean cleanup (returned a m) = returned a m
  clean cleanup (raised e m) = raise_again e (cleanup m)
  clean cleanup fault = fault

  abbrev pub on_error : {A : Type 0} → M A → M (Unit {0}) → M A
  on_error c cleanup m = clean cleanup (c m)

  abbrev pub quiet : Run (Mem os) (Unit {0}) → Run (Mem os) (Unit {0})
  quiet (returned _ m) = returned tt m
  quiet (raised _ m) = returned tt m
  quiet fault = fault

  -- A call whose error code is not looked at.
  abbrev pub ignored : M (Unit {0}) → M (Unit {0})
  ignored c m = quiet (c m)

  abbrev pub in_memory : {A : Type 0} → Mem os → Res A → os.World → Run (Mem os) A
  in_memory m (ok a) w = returned a (record m { world = w })
  in_memory m (err e) w = raised e (record m { world = w })

  -- Code that does not touch the structures.
  abbrev pub io : {A : Type 0} → Io A → M A
  io c m = in_memory m (c m.world).0 (c m.world).1

  abbrev pub require : Bool → UsbgError → M (Unit {0})
  require true e = return tt
  require false e = raise e

  abbrev pub loaded : {A : Type 0} → Option A → M A
  loaded none m = fault
  loaded (some a) m = returned a m

  -- `*p`
  abbrev pub load : {A : Type 0} → Slot A → Ptr → M A
  load slot p m = if p == null then fault else loaded (slot.table m.heap p) m

  -- An assignment to a live object.
  abbrev assigned : {A : Type 0} → Option A → Heap → M (Unit {0})
  assigned none h m = fault
  assigned (some _) h m = returned tt (record m { heap = h })

  -- `*p = a`
  abbrev pub store : {A : Type 0} → Slot A → Ptr → A → M (Unit {0})
  store slot p a m =
      if p == null then fault else assigned (slot.table m.heap p) (written slot p a m.heap) m

  -- `free(p)` of a structure that is in use. (`free(NULL)` does not occur for structures.)
  abbrev pub free : {A : Type 0} → Slot A → Ptr → M (Unit {0})
  free slot p m =
      if p == null then fault else assigned (slot.table m.heap p) (freed slot p m.heap) m

  -- Memory for a new structure, filled in.
  abbrev pub new : {A : Type 0} → Slot A → A → M Ptr
  new slot a m = returned m.heap.next (record m { heap = added slot a m.heap })

  -- The structures that a list links, in order.
  unfoldable pub load_all : {A : Type 0} → Slot A → List Ptr → M (List (Ptr × A))
  load_all slot [] m = returned [] m
  load_all slot (p ∷ ps) m = (do a ← load slot p; rest ← load_all slot ps; return ((p, a) ∷ rest)) m

-- `TAILQ_REMOVE`
unfoldable pub remove : Ptr → List Ptr → List Ptr
remove p [] = []
remove p (q ∷ qs) = let rest = remove p qs in if p == q then qs else q ∷ rest
