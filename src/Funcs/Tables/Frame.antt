-- ===== src/Funcs/Tables/Frame.antt =====
-- Setting attributes of functions changes no structure.
use libusbgx.Base.{
  ℕ, Bool, true, false, ◌||◌, ◌≡◌, refl, ◌⊎◌, inl, inr, List, [], ◌∷◌, some, get_elem?, All, arith,
  if◌then◌else◌,
}
use libusbgx.CStr.{CString}
use libusbgx.Error.{invalid_param}
use libusbgx.Files.{write_dec, write_bool, write_string}
use libusbgx.Funcs.Attrs.{Attr, Fields, Union, set_fields, set_field}
use libusbgx.Funcs.Tables.{set_attrs, set_attr_val}
use libusbgx.Funcs.Values.{Kind, Val, set_value, set_ether_addr, hid_set_report}
use libusbgx.Heap.{Ptr, Heap, Function, Mem}
use libusbgx.Heap.Keeps.{mem_at, Keeps, kept, failed_kept, Keeps-bind, Keeps-io, Keeps-load}
use libusbgx.Heap.Monad.{M, return, raise, raised, function_at}
use libusbgx.Heap.Post.{Live, load-returned}
use libusbgx.Os.{Os}

-- Every type of attribute but a device has a `.set`.
abbrev has_set : Kind → Bool
has_set Kind.dev = false
has_set _ = true

-- The attribute is read only or can be set.
abbrev pub is_settable : Attr → Bool
is_settable e = e.ro || has_set e.kind

module _ ⦃os : Os⦄ {h : Heap} (path name : CString) where
  set_value-Keeps :
      (k : Kind) (file : CString) (v : Val k) (w : os.World)
      → has_set k ≡ true
      → Keeps h (set_value k path name file v (mem_at h w))
  unfolding set_value
  set_value-Keeps Kind.dec file v w e = Keeps-io (write_dec path name file v) w
  set_value-Keeps Kind.boolean file v w e = Keeps-io (write_bool path name file v) w
  set_value-Keeps Kind.text file v w e = Keeps-io (write_string path name file v) w
  set_value-Keeps Kind.ether file v w e = Keeps-io (set_ether_addr path name file v) w
  set_value-Keeps Kind.dev file v w e = ground arith
  set_value-Keeps Kind.report file v w e = Keeps-io (hid_set_report path name file v) w

  set_unless_ro-Keeps :
      (ro : Bool) (k : Kind) (file : CString) (v : Val k) (w : os.World)
      → (ro || has_set k) ≡ true
      → Keeps h ((if ro then return tt else set_value k path name file v) (mem_at h w))
  set_unless_ro-Keeps true k file v w s = kept tt w
  set_unless_ro-Keeps false k file v w s = set_value-Keeps k file v w s

  pub set_fields-Keeps :
      (table : List Attr) (a : Fields table) (w : os.World)
      → All (λ e. is_settable e ≡ true) table
      → Keeps h (set_fields path name table a (mem_at h w))
  unfolding set_fields
  set_fields-Keeps [] a w s = kept tt w
  set_fields-Keeps (e ∷ es) (v, rest) w (s, t) =
      Keeps-bind (λ _. set_fields path name es rest) (set_unless_ro-Keeps e.ro e.kind e.name v w s)
        (λ _ w. set_fields-Keeps es rest w t)

  set_field-Keeps :
      (e : Attr) (val : Union) (w : os.World)
      → is_settable e ≡ true
      → Keeps h (
          (if e.ro then raise invalid_param else set_value e.kind path name e.name (val e.kind))
            (mem_at h w))
  set_field-Keeps e val w s = go e.ro s
    where
      go :
          (ro : Bool)
          → (ro || has_set e.kind) ≡ true
          → Keeps h (
              (if ro then raise invalid_param else set_value e.kind path name e.name (val e.kind))
                (mem_at h w))
      go true s = failed_kept invalid_param w
      go false s = set_value-Keeps e.kind e.name (val e.kind) w s

module _ ⦃os : Os⦄ (h : Heap) (w : os.World) (table : List Attr) {f : Ptr} {func : Function}
    (live : Live function_at h f func) where
  -- Setting all attributes of a live function with any table in which every attribute is read
  -- only or has a `.set` (as every table of the library) does not fault, and changes no structure,
  -- whether it succeeds or not.
  pub set_attrs-Keeps :
      (a : Fields table)
      → All (λ e. is_settable e ≡ true) table
      → Keeps h (set_attrs table f a (mem_at h w))
  unfolding set_attrs
  set_attrs-Keeps a s =
      Keeps-load function_at (λ func. set_fields func.path func.name table a) live
        (set_fields-Keeps func.path func.name table a w s)

  set_attr_val-run :
      (attr : ℕ) (e : Attr) (val : Union)
      → get_elem? table attr ≡ some e
      → set_attr_val table f attr val (mem_at h w)
        ≡ (if e.ro
              then raise invalid_param
              else set_value e.kind func.path func.name e.name (val e.kind))
            (mem_at h w)
  unfolding set_attr_val set_field
  set_attr_val-run attr e val found =
      rw (load-returned {m = mem_at h w} live) (ground (arith, found))

  set_field-read_only :
      (ro : Bool) (act : M (Unit {0})) (m : Mem os)
      → (ro ≡ false) ⊎ ((if ro then raise invalid_param else act) m ≡ raised invalid_param m)
  set_field-read_only true act m = inr refl
  set_field-read_only false act m = inl refl

  -- Setting one attribute of such a table does not fault and changes no structure, if the number
  -- is one of the table. An attribute that is read only is refused as an invalid parameter, and
  -- then nothing outside has changed either.
  pub set_attr_val-Keeps :
      (attr : ℕ) (e : Attr) (val : Union)
      → get_elem? table attr ≡ some e
      → is_settable e ≡ true
      → Keeps h (set_attr_val table f attr val (mem_at h w))
        × ((e.ro ≡ false)
            ⊎ (set_attr_val table f attr val (mem_at h w) ≡ raised invalid_param (mem_at h w)))
  set_attr_val-Keeps attr e val found s =
      let run = set_attr_val-run attr e val found in
      (
        rw run (set_field-Keeps func.path func.name e val w s),
        rw run (
            set_field-read_only e.ro (set_value e.kind func.path func.name e.name (val e.kind))
              (mem_at h w)),
      )
