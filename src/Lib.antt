-- ===== src/Lib.antt =====
-- A model of libusbgx, the library that configures USB gadgets through configfs, with its
-- properties.
--
-- The library keeps structures in memory (a state with its gadgets and UDCs, gadgets with their
-- functions and configurations, configurations with their bindings) that mirror the directories
-- of configfs: src/usbg.c reads the directories into the structures once, and afterwards each
-- operation changes the file system first and the structures then. The files of attributes are
-- read and written by src/usbg_common.c.
--
-- Environment. `Os` is the interface to the C library and the kernel (opendir, mkdir, fopen,
--   malloc and so on) over any type of worlds. It is a parameter of all code that calls it; no law
--   of it is assumed. `Os.Io` is the monad of code that uses it and fails with a `usbg_error`.
-- Memory. `Heap` has the structures of include/usbg/usbg_internal.h in tables from pointers to
--   live objects; a TAILQ is the list of its entries. `Heap.Monad` is the monad of code on it, in
--   which a read or write through NULL or a freed pointer is a fault, `Heap.Post` is total
--   correctness in it, `Heap.Keeps` is code that changes no structure, and
--   `Heap.Returned` is what code returns if it does. `Heap.Insert` is
--   INSERT_TAILQ_STRING_ORDER on pointers, `Tailq` on lists.
-- Texts. `CStr` has C strings and <string.h>, `Num` has printf and strtol of numbers, with the
--   conversions to int and to unsigned fields written out.
-- src/usbg_error.c is `Error`. src/usbg_common.c is `Files`. The parts of src/usbg.c are `Names`
--   (the tables and their lookups), `Split` (names of directories), `Objects` (allocation and
--   release), `Query` (usbg_get_*, with the loops usbg_for_each_* of include/usbg/usbg.h in
--   `Query.Walk`), `Parse` (usbg_init), `Create`, `Remove`, `Attrs`, `Strings`,
--   `OsDesc` (Microsoft OS descriptors) and `Udc` (binding to a UDC).
-- `FunctionOps` is struct usbg_function_type, through which src/usbg.c calls src/function: a
--   parameter of the operations that use it. `Funcs` is src/function: `Funcs.Values` has one value
--   in a file, `Funcs.Tables` the operations on a table of attributes and the tables of midi.c,
--   hid.c, ether.c, uac2.c and loopback.c, `Funcs.Simple` the types with one attribute,
--   `Funcs.Luns` and `Funcs.Ms` ms.c, `Funcs.Uvc` uvc.c, `Funcs.Guid` the GUIDs of its formats,
--   `Funcs.Accessors` the inline functions of include/usbg/function for one attribute, and `Funcs.Ops`
--   the operations by type.
-- `Libconfig` is the interface to libconfig, whose trees are part of the world: a parameter, of
--   which no law is assumed. `Schemes` is import and export: `Schemes.Nodes` has one value in a tree
--   (src/usbg_common_libconfig.c), `Schemes.Attrs`, `Schemes.Ms` and `Schemes.Uvc` the attributes of
--   functions (src/function), `Schemes.Export` and `Schemes.Import` the part of
--   src/usbg_schemes_libconfig.c between trees and structures, and `Schemes.Streams` its part between
--   streams and trees, which keeps the tree of a failed import for the accessors of its error;
--   `Schemes.Without` is src/usbg_schemes_none.c.
-- `Tests` has a configfs in memory, on which the model runs, and the theorems at concrete inputs.
--
-- A function of the C code has the same name here, without the prefix usbg_. An integer is a
-- natural number with its reduction modulo 2 ^ w written out, or an integer where it can be
-- negative. A NULL text is `none`. An output parameter is a result; a test of it for NULL is left
-- out. Directory streams and lists of directory entries that are freed in all cases are left out.
-- Loops over lists that they change (`drain` in `Remove`) run on fuel: one round for each entry of
-- the list at the start and one for the last test, as each round removes an entry or ends the loop
-- with an error. `print_base` has the number itself and one as fuel, and a number has no more
-- digits than that. `walk` (the loops usbg_for_each_*) takes one round for each entry of the list and
-- one for the last test. The other loops are recursion on a list or on a count.
--
-- What C leaves to the platform: `char` is signed (the numbers of a report descriptor), and the byte
-- order is little endian (an int that is written to a field of type short, in the attributes of
-- uac2.c). Where a field of type short is read as an int, the model's value is that int, with the
-- bytes behind the field.
--
-- Not modelled: the release of the tree of a failed import when its gadget or state is freed
-- (config_destroy of libconfig); a GUID file that is shorter than 16 bytes, whose count uvc.c passes
-- on as if it were an error code, and which is a fault here; a directory of a LUN or a frame without
-- a number, which is one too, where the code has the number of the directory before; the functions
-- that release a structure of the caller (usbg_f_*_cleanup_attrs, usbg_free_*_strs); the texts that
-- the library logs; the examples and tests. The directory name of a language is read as strtol reads
-- it, where the code has strtoul: they differ on names with a minus sign whose number exceeds a long.
pub mod Base
pub mod CStr
pub mod Error
pub mod Tailq
pub mod Names
pub mod Os
pub mod Num
pub mod Split
pub mod Files
pub mod Heap
pub mod Objects
pub mod Query
pub mod FunctionOps
pub mod Remove
pub mod OsDesc
pub mod Attrs
pub mod Strings
pub mod Create
pub mod Udc
pub mod Parse
pub mod Funcs
pub mod Libconfig
pub mod Schemes
pub mod Tests
