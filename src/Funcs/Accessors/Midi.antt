-- ===== src/Funcs/Accessors/Midi.antt =====
-- The accessors of one attribute in include/usbg/function/midi.h. A number is that of the enumeration.
use libusbgx.Base.{Option, ℕ}
use libusbgx.Base.Int.{ℤ}
use libusbgx.CStr.{CString}
use libusbgx.Funcs.Accessors.{as_int, as_text, as_unsigned, of_int, of_text, of_unsigned}
use libusbgx.Funcs.Types.{f_midi_get_attr_val, f_midi_set_attr_val}
use libusbgx.Heap.{Ptr}
use libusbgx.Heap.Monad.{M}
use libusbgx.Os.{Os}

abbrev midi_index : ℕ
midi_index = 0

abbrev midi_id : ℕ
midi_id = 1

abbrev midi_in_ports : ℕ
midi_in_ports = 2

abbrev midi_out_ports : ℕ
midi_out_ports = 3

abbrev midi_buflen : ℕ
midi_buflen = 4

abbrev midi_qlen : ℕ
midi_qlen = 5

module _ ⦃os : Os⦄ where
  f_midi_get_index : Ptr → M ℤ
  f_midi_get_index f = as_int (f_midi_get_attr_val f midi_index)

  f_midi_set_index : Ptr → ℤ → M (Unit {0})
  f_midi_set_index f v = f_midi_set_attr_val f midi_index (of_int v)

  f_midi_get_id : Ptr → M (Option CString)
  f_midi_get_id f = as_text (f_midi_get_attr_val f midi_id)

  f_midi_set_id : Ptr → Option CString → M (Unit {0})
  f_midi_set_id f v = f_midi_set_attr_val f midi_id (of_text v)

  f_midi_get_in_ports : Ptr → M ℕ
  f_midi_get_in_ports f = as_unsigned (f_midi_get_attr_val f midi_in_ports)

  f_midi_set_in_ports : Ptr → ℕ → M (Unit {0})
  f_midi_set_in_ports f v = f_midi_set_attr_val f midi_in_ports (of_unsigned v)

  f_midi_get_out_ports : Ptr → M ℕ
  f_midi_get_out_ports f = as_unsigned (f_midi_get_attr_val f midi_out_ports)

  f_midi_set_out_ports : Ptr → ℕ → M (Unit {0})
  f_midi_set_out_ports f v = f_midi_set_attr_val f midi_out_ports (of_unsigned v)

  f_midi_get_buflen : Ptr → M ℤ
  f_midi_get_buflen f = as_int (f_midi_get_attr_val f midi_buflen)

  f_midi_set_buflen : Ptr → ℕ → M (Unit {0})
  f_midi_set_buflen f v = f_midi_set_attr_val f midi_buflen (of_unsigned v)

  f_midi_get_qlen : Ptr → M ℕ
  f_midi_get_qlen f = as_unsigned (f_midi_get_attr_val f midi_qlen)

  f_midi_set_qlen : Ptr → ℕ → M (Unit {0})
  f_midi_set_qlen f v = f_midi_set_attr_val f midi_qlen (of_unsigned v)
