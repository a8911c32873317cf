-- ===== src/Funcs/Accessors.antt =====
-- The inline functions of the headers under include/usbg/function that get and set one attribute:
-- the unions that they make of a value (USBG_TO_UNION), and the values that they take out of one.
pub mod Midi
pub mod Hid
pub mod Uac2
pub mod Net
pub mod Loopback
pub mod Luns
pub mod ReadBack
use libusbgx.Base.{ℕ, Bool, false, List, [], Option, none}
use libusbgx.Base.Int.{ℤ, pos}
use libusbgx.CStr.{CString}
use libusbgx.Funcs.Attrs.{Union, Value}
use libusbgx.Funcs.Values.{Kind, Val}
use libusbgx.Heap.Monad.{M, fault, return, ◌>>=◌}
use libusbgx.Num.{to_int, to_unsigned}
use libusbgx.Os.{Os}

-- What the members that were not written read as. They are not read where the attribute has the
-- type of the member that was written.
abbrev unwritten : Union
unwritten Kind.dec = pos 0
unwritten Kind.boolean = false
unwritten Kind.text = none
unwritten Kind.ether = []
unwritten Kind.dev = (0, 0)
unwritten Kind.report = []

unfoldable pub of_int : ℤ → Union
of_int z Kind.dec = z
of_int z k = unwritten k

-- A member that is unsigned is read as an `int`.
abbrev pub of_unsigned : ℕ → Union
of_unsigned n = of_int (to_int (pos n))

unfoldable pub of_bool : Bool → Union
of_bool b Kind.boolean = b
of_bool b k = unwritten k

unfoldable pub of_text : Option CString → Union
of_text s Kind.text = s
of_text s k = unwritten k

unfoldable pub of_addr : List ℕ → Union
of_addr a Kind.ether = a
of_addr a k = unwritten k

unfoldable pub of_report : List ℕ → Union
of_report a Kind.report = a
of_report a k = unwritten k

module _ ⦃os : Os⦄ where
  -- The value of an attribute that has this type. An enumerator of another type is a fault.
  abbrev int_in : Value → M ℤ
  int_in (Kind.dec, z) = return z
  int_in v = λ m. fault

  abbrev bool_in : Value → M Bool
  bool_in (Kind.boolean, b) = return b
  bool_in v = λ m. fault

  abbrev text_in : Value → M (Option CString)
  text_in (Kind.text, s) = return s
  text_in v = λ m. fault

  abbrev report_in : Value → M (List ℕ)
  report_in (Kind.report, a) = return a
  report_in v = λ m. fault

  abbrev dev_in : Value → M (ℕ × ℕ)
  dev_in (Kind.dev, d) = return d
  dev_in v = λ m. fault

  -- The cast of the pointer to the union, for the function that reads the value.
  abbrev pub as_int : M Value → M ℤ
  as_int get = get >>= int_in

  abbrev pub as_unsigned : M Value → M ℕ
  as_unsigned get = do z ← as_int get; return (to_unsigned 32 z)

  abbrev pub as_bool : M Value → M Bool
  as_bool get = get >>= bool_in

  abbrev pub as_text : M Value → M (Option CString)
  as_text get = get >>= text_in

  abbrev pub as_report : M Value → M (List ℕ)
  as_report get = get >>= report_in

  abbrev pub as_dev : M Value → M (ℕ × ℕ)
  as_dev get = get >>= dev_in
