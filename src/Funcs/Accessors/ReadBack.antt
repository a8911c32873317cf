-- ===== src/Funcs/Accessors/ReadBack.antt =====
-- What the accessors of an unsigned attribute write and read.
use libusbgx.Base.{
  ℕ, ◌<◌, ◌≡◌, refl, true, some, List, get_elem?, [], ◌∷◌, ◌++◌, ltb, Bool-cases, inl, inr, arith,
  ◌^◌, ◌%◌,
}
use libusbgx.Base.Int.{ℤ, pos}
use libusbgx.CStr.{CString}
use libusbgx.Files.{write_buf}
use libusbgx.Files.Laws.Lines.{Holds}
use libusbgx.Funcs.Accessors.{of_int, of_unsigned, as_unsigned}
use libusbgx.Funcs.Attrs.{Attr, Union, get_field, set_field}
use libusbgx.Funcs.Tables.{dec_attr, get_attr_val, set_attr_val}
use libusbgx.Funcs.Values.{Kind, get_value, set_value}
use libusbgx.Funcs.Values.ReadBack.{stored_dec, get_value-set_value}
use libusbgx.Heap.{Ptr, Heap, Function, Mem}
use libusbgx.Os.Io.{ok}
use libusbgx.Heap.Keeps.{mem_at}
use libusbgx.Heap.Monad.{returned, function_at, io}
use libusbgx.Heap.Post.{Live, load-returned}
use libusbgx.Num.{print_int, to_int, to_unsigned}
use libusbgx.Num.RoundTrip.Signed.{IsInt}
use libusbgx.Os.{Os}
use libusbgx.Os.Io.{return, ◌>>=◌}

-- An unsigned number through an `int` and back.
to_unsigned-to_int : (n : ℕ) → n < 2 ^ 32 → to_unsigned 32 (to_int (pos n)) ≡ n
unfolding to_int to_unsigned
to_unsigned-to_int n h = grind arith

IsInt-to_int : (n : ℕ) → n < 2 ^ 32 → IsInt (to_int (pos n))
unfolding to_int to_unsigned
IsInt-to_int n h = elim (Bool-cases (ltb (n % 2 ^ 32) (2 ^ 31))) [
  | inl small ↦ rw small (ground arith)
  | inr large ↦ rw large (ground arith)
]

module _ ⦃os : Os⦄ (table : List Attr) (i : ℕ) {name : CString}
    (entry : get_elem? table i ≡ some (dec_attr name)) (path dir : CString) (m : Mem os) where
  set_field-entry :
      (u : Union) → set_field path dir table i u m ≡ set_value Kind.dec path dir name (u Kind.dec) m
  unfolding set_field
  set_field-entry u = rw (set_field, entry) refl

  get_field-entry :
      (z : ℤ)
      → get_value Kind.dec path dir name m.world ≡ (ok z, m.world)
      → get_field path dir table i m ≡ returned (Kind.dec, z) m
  unfolding get_field
  get_field-entry z e = rw (get_field, entry, e) refl

-- For an attribute whose type is a number, with any unsigned value below 2 ^ 32, the setter of a
-- header, such as `usbg_f_midi_set_qlen`, writes the number that an `int` with these bits has to the
-- file of the attribute and does nothing else, and the getter, such as `usbg_f_midi_get_qlen`,
-- returns the value from a file that can be read and holds this text. The function is live, and
-- allocations succeed.
pub as_unsigned-of_unsigned :
    ⦃os : Os⦄ (h : Heap) (w : os.World) (table : List Attr) (i n : ℕ) {f : Ptr} {func : Function}
    {name : CString}
    → Live function_at h f func
    → os.malloc w ≡ (true, w)
    → get_elem? table i ≡ some (dec_attr name)
    → n < 2 ^ 32
    → Holds func.path func.name name (print_int (to_int (pos n)) ++ b'\n' ∷ []) w
    → (set_attr_val table f i (of_unsigned n) (mem_at h w)
        ≡ io
            (do
              written ←
                  write_buf func.path func.name name (print_int (to_int (pos n)) ++ b'\n' ∷ [])
              return tt)
            (mem_at h w))
      × (as_unsigned (get_attr_val table f i) (mem_at h w) ≡ returned n (mem_at h w))
unfolding set_attr_val get_attr_val of_int
as_unsigned-of_unsigned h w table i n {func = func} {name} live memory e l file =
    let z = to_int (pos n) in
    let (written, read) =
      get_value-set_value func.path func.name name w memory h (stored_dec z (IsInt-to_int n l))
        file in
    let load = load-returned {m = mem_at h w} live in
    (
      rw (load, set_field-entry table i e func.path func.name (mem_at h w) (of_unsigned n)) written,
      rw (load, get_field-entry table i e func.path func.name (mem_at h w) z read)
          (rw (to_unsigned-to_int n l) refl),
    )
