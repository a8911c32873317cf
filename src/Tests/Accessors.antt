-- ===== src/Tests/Accessors.antt =====
-- The theorem on the accessors of unsigned attributes at a concrete input.
use libusbgx.Base.{◌≡◌, refl, true, ltb, arith, some, none, [], ◌∷◌}
use libusbgx.CStr.{c, strcmp}
use libusbgx.Files.{write_buf, read_buf_limited}
use libusbgx.Files.Laws.Lines.{Holds, take-length}
use libusbgx.Funcs.Accessors.{of_unsigned, as_unsigned}
use libusbgx.Funcs.Accessors.ReadBack.{as_unsigned-of_unsigned}
use libusbgx.Funcs.Tables.{midi_attr, set_attr_val, get_attr_val}
use libusbgx.Heap.{Function, Heap}
use libusbgx.Heap.Keeps.{mem_at}
use libusbgx.Heap.Monad.{update, returned, io}
use libusbgx.Num.{print_int, to_int}
use libusbgx.Os.Io.{return, ◌>>=◌}
use libusbgx.Tests.Configfs.{configfs, Disk, file, norm, find}
use libusbgx.Tests.Functions.{no_error}
use libusbgx.Tests.Structures.{acm}
use libusbgx.Tests.Structures

abbrev midi : Function
midi = record acm { path = c "/f"; name = c "midi.0"; type = 11 }

abbrev heap : Heap
heap = record Structures.heap { functions = update (λ _. none) 6 (some midi) }

-- 3000000000, as an `int`.
abbrev disk : Disk
disk = record { nodes = (c "/f/midi.0/qlen", file (c "-1294967296\n")) ∷ []; memory = true }

qlen-Holds : Holds (c "/f") (c "midi.0") (c "qlen") (c "-1294967296\n") disk
unfolding read_buf_limited norm find strcmp
qlen-Holds len h = rw (take-length len (c "-1294967296\n") h, no_error (ltb 12 len)) refl

as_unsigned-of_unsigned_example :
    (set_attr_val midi_attr 6 5 (of_unsigned 3000000000) (mem_at heap disk)
      ≡ io
          (do n ← write_buf (c "/f") (c "midi.0") (c "qlen") (c "-1294967296\n"); return tt)
          (mem_at heap disk))
    × (as_unsigned (get_attr_val midi_attr 6 5) (mem_at heap disk)
        ≡ returned 3000000000 (mem_at heap disk))
unfolding print_int to_int
as_unsigned-of_unsigned_example =
    as_unsigned-of_unsigned heap disk midi_attr 5 3000000000
      (record { ne_null = ground arith; holds = refl }) refl refl (omega arith) qlen-Holds
