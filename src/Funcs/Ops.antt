-- ===== src/Funcs/Ops.antt =====
-- The `struct usbg_function_type` of each type, by its number.
use libusbgx.Base.{ℕ, List, [], ◌∷◌, Option, none, some, get_elem?}
use libusbgx.Base.Int.{ℤ}
use libusbgx.CStr.{CString}
use libusbgx.FunctionOps.{FunctionOps}
use libusbgx.Funcs.Attrs.{Fields}
use libusbgx.Funcs.Ms.{MsAttrs, ms_set_attrs, ms_get_attrs, ms_remove}
use libusbgx.Funcs.Simple.{
  serial_set_attrs, serial_get_attrs, phonet_set_attrs, phonet_get_attrs, ffs_set_attrs,
  ffs_get_attrs, p9fs_set_attrs, p9fs_get_attrs,
}
use libusbgx.Funcs.Tables.{midi_attr, loopback_attr, hid_attr, net_attr, uac2_attr, to_function}
use libusbgx.Funcs.Types.{
  midi_set_attrs, midi_get_attrs, loopback_set_attrs, loopback_get_attrs, hid_set_attrs,
  hid_get_attrs, uac2_set_attrs, uac2_get_attrs, ether_set_attrs, ether_get_attrs,
}
use libusbgx.Funcs.Uvc.Classes.{UvcAttrs, uvc_set_attrs, uvc_get_attrs, uvc_remove}
use libusbgx.Heap.{Ptr}
use libusbgx.Heap.Monad.{M, fault, return, ◌>>=◌}
use libusbgx.Names.{f_mass_storage}
use libusbgx.Os.{Os}

-- What implements a type.
pub data Impl : Type 0 where
  serial net phonet ffs mass_storage midi loopback hid uac2 uvc printer p9fs : Impl

-- `function_types`
unfoldable pub function_types : List Impl
function_types =
    Impl.serial ∷ Impl.serial ∷ Impl.serial ∷ Impl.net ∷ Impl.net ∷ Impl.net ∷ Impl.net ∷ Impl.net
    ∷ Impl.phonet ∷ Impl.ffs ∷ Impl.mass_storage ∷ Impl.midi ∷ Impl.loopback ∷ Impl.hid ∷ Impl.uac2
    ∷ Impl.uvc ∷ Impl.printer ∷ Impl.p9fs ∷ []

module _ ⦃os : Os⦄ where
  -- What the `void *f_attrs` of a type points to.
  abbrev pub Pointee : Impl → Type 0
  Pointee Impl.serial = ℤ
  Pointee Impl.net = Fields net_attr
  Pointee Impl.phonet = Option CString
  Pointee Impl.ffs = Option CString
  Pointee Impl.mass_storage = MsAttrs
  Pointee Impl.midi = Fields midi_attr
  Pointee Impl.loopback = Fields loopback_attr
  Pointee Impl.hid = Fields hid_attr
  Pointee Impl.uac2 = Fields uac2_attr
  Pointee Impl.uvc = UvcAttrs
  Pointee Impl.printer = Unit
  Pointee Impl.p9fs = Option CString

  -- The pointer has no type, so what it points to may be meant for another type of function: as in
  -- a union, this is what it reads as for each.
  abbrev pub FAttrs : Type 0
  FAttrs = (i : Impl) → Pointee i

  -- `.set_attrs`, which is NULL for a printer.
  unfoldable pub set_attrs_of : Impl → Ptr → FAttrs → M (Unit {0})
  set_attrs_of Impl.serial f a = serial_set_attrs f (a Impl.serial)
  set_attrs_of Impl.net f a = ether_set_attrs f (a Impl.net)
  set_attrs_of Impl.phonet f a = phonet_set_attrs f (a Impl.phonet)
  set_attrs_of Impl.ffs f a = ffs_set_attrs f (a Impl.ffs)
  set_attrs_of Impl.mass_storage f a = do
    mf ← to_function (f_mass_storage ∷ []) f
    ms_set_attrs mf (a Impl.mass_storage)
  set_attrs_of Impl.midi f a = midi_set_attrs f (a Impl.midi)
  set_attrs_of Impl.loopback f a = loopback_set_attrs f (a Impl.loopback)
  set_attrs_of Impl.hid f a = hid_set_attrs f (a Impl.hid)
  set_attrs_of Impl.uac2 f a = uac2_set_attrs f (a Impl.uac2)
  set_attrs_of Impl.uvc f a = uvc_set_attrs f (a Impl.uvc)
  set_attrs_of Impl.printer f a = λ m. fault
  set_attrs_of Impl.p9fs f a = p9fs_set_attrs f (a Impl.p9fs)

  -- What `.get_attrs` fills: for a video function nothing.
  abbrev pub Output : Impl → Type 0
  Output Impl.serial = ℤ
  Output Impl.net = Fields net_attr
  Output Impl.phonet = Option CString
  Output Impl.ffs = Option CString
  Output Impl.mass_storage = MsAttrs
  Output Impl.midi = Fields midi_attr
  Output Impl.loopback = Fields loopback_attr
  Output Impl.hid = Fields hid_attr
  Output Impl.uac2 = Fields uac2_attr
  Output Impl.uvc = Unit
  Output Impl.printer = Unit
  Output Impl.p9fs = Option CString

  -- What `.get_attrs` filled, with the type it is meant for.
  abbrev pub Filled : Type 0
  Filled = (i : Impl) × Output i

  abbrev filling : (i : Impl) → M (Output i) → M Filled
  filling i get = do a ← get; return (i, a)

  -- `.get_attrs`, which is NULL for a printer.
  unfoldable pub get_attrs_of : Impl → Ptr → M Filled
  get_attrs_of Impl.serial f = filling Impl.serial (serial_get_attrs f)
  get_attrs_of Impl.net f = filling Impl.net (ether_get_attrs f)
  get_attrs_of Impl.phonet f = filling Impl.phonet (phonet_get_attrs f)
  get_attrs_of Impl.ffs f = filling Impl.ffs (ffs_get_attrs f)
  get_attrs_of Impl.mass_storage f =
      filling Impl.mass_storage (do mf ← to_function (f_mass_storage ∷ []) f; ms_get_attrs mf)
  get_attrs_of Impl.midi f = filling Impl.midi (midi_get_attrs f)
  get_attrs_of Impl.loopback f = filling Impl.loopback (loopback_get_attrs f)
  get_attrs_of Impl.hid f = filling Impl.hid (hid_get_attrs f)
  get_attrs_of Impl.uac2 f = filling Impl.uac2 (uac2_get_attrs f)
  get_attrs_of Impl.uvc f = filling Impl.uvc (uvc_get_attrs f)
  get_attrs_of Impl.printer f = λ m. fault
  get_attrs_of Impl.p9fs f = filling Impl.p9fs (p9fs_get_attrs f)

  -- `.remove`
  unfoldable pub remove_of : Impl → Option (Ptr → ℕ → M (Unit {0}))
  remove_of Impl.mass_storage =
      some (λ f opts. do mf ← to_function (f_mass_storage ∷ []) f; ms_remove mf opts)
  remove_of Impl.uvc = some uvc_remove
  remove_of _ = none

  -- A type beyond the table is an access out of bounds.
  abbrev impl_of : {A : Type 0} → ℕ → (Impl → M A) → M A
  impl_of type f = elim (get_elem? function_types type) [ none ↦ λ m. fault | some i ↦ f i ]

  unfoldable pub function_ops : FunctionOps os
  unfolding set_attrs_of get_attrs_of remove_of function_types
  function_ops = record {
    Attrs = FAttrs;
    Filled = Filled;
    set_attrs = λ type f a. impl_of type (λ i. set_attrs_of i f a);
    get_attrs = λ type f. impl_of type (λ i. get_attrs_of i f);
    remove = λ type. elim (get_elem? function_types type) [
      | none ↦ some (λ f opts m. fault)
      | some i ↦ remove_of i
    ];
  }
