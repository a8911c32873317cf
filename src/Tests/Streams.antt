-- ===== src/Tests/Streams.antt =====
-- The theorem on failed imports at a concrete input: a file that is not there.
use libusbgx.Base.{◌≡◌, refl, true, some, [], arith}
use libusbgx.Base.Int.{pos}
use libusbgx.CStr.{c}
use libusbgx.Error.{invalid_format}
use libusbgx.Heap.{Mem}
use libusbgx.Heap.Monad.{returned, raised}
use libusbgx.Schemes.Streams.{
  import_function, import_config, get_func_import_error_text, get_func_import_error_line,
  get_config_import_error_text, get_config_import_error_line,
}
use libusbgx.Schemes.Streams.Errors.{after_failure, import_error-kept}
use libusbgx.Tests.Configfs.{configfs, find}
use libusbgx.Tests.Structures.{gadget-Live, heap, no_ops}
use libusbgx.Tests.Tree.{tree}

abbrev mem : Mem configfs
mem = record { world = record { nodes = []; memory = true }; heap = heap }

abbrev failed : Mem configfs
failed = after_failure (c "/import") mem gadget-Live

import_error-kept_example :
    (import_function no_ops 2 (c "/import") (c "0") mem ≡ raised invalid_format failed)
    × (import_config no_ops 2 (c "/import") (pos 1) mem ≡ raised invalid_format failed)
    × (get_func_import_error_text 2 failed ≡ returned (some (c "syntax error")) failed)
    × (get_func_import_error_line 2 failed ≡ returned (pos 1) failed)
    × (get_config_import_error_text 2 failed ≡ returned (some (c "syntax error")) failed)
    × (get_config_import_error_line 2 failed ≡ returned (pos 1) failed)
unfolding find
import_error-kept_example =
    import_error-kept (c "/import") mem gadget-Live no_ops (c "0") 1 refl refl (ground arith)
