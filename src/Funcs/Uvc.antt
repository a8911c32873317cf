-- ===== src/Funcs/Uvc.antt =====
-- src/function/uvc.c: which frames of the two formats exist, their attributes, and those of the
-- function as a whole. A format is named by its directory, such as "mjpeg/m".
pub mod Formats
pub mod Classes
pub mod Never
pub mod Frames
pub mod Dirs
use libusbgx.Base.{
  ℕ, zero, suc, Bool, true, false, not, ◌&&◌, List, [], ◌∷◌, ◌++◌, Option, none, some, get_elem?,
  ltb, ◌==◌, if◌then◌else◌,
}
use libusbgx.Base.Int.{ℤ, pos, negsuc}
use libusbgx.CStr.{CString, c}
use libusbgx.Error.{UsbgError, invalid_param, exist, path_too_long, translate_error, eexist}
use libusbgx.Files.{join, fits, file_select, scandir}
use libusbgx.Funcs.Attrs.{Attr, Fields, Union, Value, get_fields, set_fields, get_field, set_field}
use libusbgx.Funcs.Luns.{lun_at, set_lun}
use libusbgx.Funcs.Ms.{set_entry}
use libusbgx.Funcs.Scan.{Scanned, matched, mismatched, eof, scan_behind}
use libusbgx.Funcs.Tables.{dec_attr, string_attr, to_function}
use libusbgx.Heap.{Ptr, Function}
use libusbgx.Heap
use libusbgx.Heap.Monad.{
  M, fault, return, raise, require, io, load, store, function_at, on_error, ignored, ◌>>=◌, ◌>>◌,
}
use libusbgx.Num.{print_int}
use libusbgx.Objects.{max_frames}
use libusbgx.Os.{Os, Sys, done, errno, Dirent}
use libusbgx.Os.Io.{Io, fail, ignore}
use libusbgx.Os.Io

abbrev pub format_names : List CString
format_names = c "mjpeg/m" ∷ c "uncompressed/u" ∷ []

-- `uvc_config_attr`
abbrev pub uvc_config_attr : List Attr
uvc_config_attr =
    dec_attr (c "streaming_maxburst")
    ∷ dec_attr (c "streaming_maxpacket")
    ∷ dec_attr (c "streaming_interval")
    ∷ string_attr (c "function_name")
    ∷ []

-- `uvc_frame_attr`, in the order of its enumeration.
abbrev pub uvc_frame_attr : List Attr
uvc_frame_attr =
    dec_attr (c "bFrameIndex")
    ∷ dec_attr (c "bmCapabilities")
    ∷ dec_attr (c "dwMinBitRate")
    ∷ dec_attr (c "dwMaxBitRate")
    ∷ dec_attr (c "dwMaxVideoFrameBufferSize")
    ∷ dec_attr (c "dwDefaultFrameInterval")
    ∷ dec_attr (c "dwFrameInterval")
    ∷ dec_attr (c "wHeight")
    ∷ dec_attr (c "wWidth")
    ∷ []

-- USBG_F_UVC_FRAME_ATTR_MAX
abbrev pub frame_attr_max : ℕ
frame_attr_max = 9

-- `struct usbg_f_uvc_frame_attrs`
abbrev pub FrameAttrs : Type 0
FrameAttrs = Fields uvc_frame_attr

-- "%s/%s/"
unfoldable pub config_path : Function → CString
config_path f = join (join f.path f.name) []

-- "%s/%s/streaming/%s/"
unfoldable pub format_path : Function → CString → CString
format_path f format = join (join f.path f.name) (join (c "streaming") (join format []))

-- "%s/%s/streaming/%s/frame.%d/"
unfoldable pub frame_path : Function → CString → ℤ → CString
frame_path f format id =
    join (join f.path f.name)
      (join (c "streaming") (join format (join (c "frame." ++ print_int id) [])))

unfoldable pub scan_frame : CString → Scanned
scan_frame name = scan_behind (c "frame.") name

-- EOF is not 0, so a name that ends before the number is selected too.
abbrev frame_select : Dirent → Bool
frame_select d = file_select d && (elim (scan_frame d.name) [ mismatched ↦ false | _ ↦ true ])

-- `frame_id >= MAX_FRAMES`
abbrev pub is_frame_id : ℤ → Bool
is_frame_id (negsuc n) = true
is_frame_id (pos i) = ltb i max_frames

-- `mkdir`, for which a directory that is there is no error.
abbrev made_dir : {A : Type 0} → Sys (Unit {0}) → A → Io.Res (Unit {0}) × A
made_dir (done _) w = (Io.ok tt, w)
made_dir (errno n) w = if n == eexist then (Io.ok tt, w) else (Io.err (translate_error (pos n)), w)

-- Without a slash at the end.
unfoldable pub without_slash : CString → CString
without_slash [] = []
without_slash (x ∷ []) = if x == b'/' then [] else x ∷ []
without_slash (x ∷ y ∷ s) = x ∷ without_slash (y ∷ s)

module _ ⦃os : Os⦄ where
  pub make_dir : CString → Io (Unit {0})
  make_dir p w = let (r, w') = os.mkdir p w in made_dir r w'

  -- The loop of `uvc_create_dir`, with what it went over, and the call behind it.
  unfoldable pub make_dirs : CString → CString → Io (Unit {0})
  unfolding make_dir
  make_dirs over [] = make_dir over
  make_dirs over (x ∷ s) =
      Io.◌>>◌ (if x == b'/' then make_dir over else Io.return tt) (make_dirs (over ++ x ∷ []) s)

  -- From the second byte on.
  abbrev make_from : CString → Io (Unit {0})
  make_from [] = make_dirs [] []
  make_from (x ∷ s) = make_dirs (x ∷ []) s

  -- The path is not empty.
  unfoldable pub create_dir : CString → Io (Unit {0})
  unfolding without_slash make_dirs
  create_dir path = if fits path then make_from (without_slash path) else fail path_too_long

  -- The loop of `init_frames`. An index out of bounds is a fault; so is a name with no number, which
  -- leaves `id` as it was. The order of the names, which `frame_sort` gives them, makes no difference
  -- where all have one.
  unfoldable pub mark_frames : List CString → List Bool → M (List Bool)
  mark_frames [] frames = return frames
  mark_frames (n ∷ ns) frames = elim (scan_frame n) [
    | matched (pos id) ↦
        if ltb id max_frames then mark_frames ns (set_lun id true frames) else λ m. fault
    | _ ↦ λ m. fault
  ]

  -- `uvc->formats[j]`
  abbrev pub format_at : Ptr → ℕ → M Heap.Formats
  format_at uvc j = do
    func ← load function_at uvc
    elim (get_elem? func.formats j) [ none ↦ λ m. fault | some a ↦ return a ]

  abbrev pub set_format_at : Ptr → ℕ → Heap.Formats → M (Unit {0})
  set_format_at uvc j a = do
    func ← load function_at uvc
    store function_at uvc (record func { formats = set_entry j a func.formats })

  unfoldable pub init_frames : Ptr → ℕ → CString → M (Unit {0})
  unfolding scan_frame scandir mark_frames format_path set_entry
  init_frames uvc j name = do
    func ← load function_at uvc
    require (fits (format_path func name)) path_too_long
    names ← io (scandir frame_select (format_path func name))
    old ← format_at uvc j
    frames ← mark_frames names old.frames
    set_format_at uvc j (record { frames = frames; frames_initiated = true })

  set_initiated : Ptr → Bool → M (Unit {0})
  set_initiated uvc b = do
    func ← load function_at uvc
    store function_at uvc (record func { formats_initiated = b })

  -- The loop of `get_formats_mask`: an error clears the flag, and the loop goes on.
  init_formats : Ptr → ℕ → List CString → M (Unit {0})
  unfolding init_frames set_initiated
  init_formats uvc j [] = return tt
  init_formats uvc j (n ∷ ns) = do
    ignored (on_error (init_frames uvc j n) (set_initiated uvc false))
    init_formats uvc (suc j) ns

  -- The array `formats` is filled in, as far as it can be.
  unfoldable pub get_formats_mask : Ptr → M (Unit {0})
  unfolding init_formats set_initiated
  get_formats_mask uvc = do
    func ← load function_at uvc
    if func.formats_initiated
        then return tt
        else do set_initiated uvc true; init_formats uvc 0 format_names

  unfoldable pub get_config_attr_val : Ptr → ℕ → M Value
  unfolding config_path
  get_config_attr_val uvcf iattr = do
    func ← load function_at uvcf
    require (fits (config_path func)) path_too_long
    get_field (config_path func) [] uvc_config_attr iattr

  unfoldable pub set_config_attr_val : Ptr → ℕ → Union → M (Unit {0})
  unfolding config_path
  set_config_attr_val uvcf iattr val = do
    func ← load function_at uvcf
    require (fits (config_path func)) path_too_long
    set_field (config_path func) [] uvc_config_attr iattr val

  unfoldable pub get_config_attrs : Ptr → M (Fields uvc_config_attr)
  unfolding config_path
  get_config_attrs uvcf = do
    func ← load function_at uvcf
    require (fits (config_path func)) path_too_long
    get_fields (config_path func) [] uvc_config_attr

  -- The loop, for `n` enumerators from `i` on. `iattrs` is what the structure reads as at the offset
  -- of each.
  unfoldable pub set_config_each : Ptr → (ℕ → Union) → ℕ → ℕ → M (Unit {0})
  unfolding set_config_attr_val
  set_config_each uvcf iattrs zero i = return tt
  set_config_each uvcf iattrs (suc n) i = do
    set_config_attr_val uvcf i (iattrs i)
    set_config_each uvcf iattrs n (suc i)

  -- The loop runs over the enumerators of another table.
  unfoldable pub set_config_attrs : Ptr → (ℕ → Union) → M (Unit {0})
  unfolding set_config_each
  set_config_attrs uvcf iattrs = set_config_each uvcf iattrs frame_attr_max 0

  unfoldable pub get_frame_attr_val : Ptr → CString → ℤ → ℕ → M Value
  unfolding frame_path
  get_frame_attr_val uvcf format frame_id fattr = do
    func ← load function_at uvcf
    require (fits (frame_path func format frame_id)) path_too_long
    get_field (frame_path func format frame_id) [] uvc_frame_attr fattr

  unfoldable pub set_frame_attr_val : Ptr → CString → ℤ → ℕ → Union → M (Unit {0})
  unfolding frame_path
  set_frame_attr_val uvcf format frame_id fattr val = do
    func ← load function_at uvcf
    require (fits (frame_path func format frame_id)) path_too_long
    set_field (frame_path func format frame_id) [] uvc_frame_attr fattr val

  -- The index is the number of the frame, whatever was read for it.
  unfoldable pub get_frame_attrs : Ptr → CString → ℤ → M FrameAttrs
  unfolding frame_path
  get_frame_attrs uvcf format frame_id = do
    func ← load function_at uvcf
    require (fits (frame_path func format frame_id)) path_too_long
    attrs ← get_fields (frame_path func format frame_id) [] uvc_frame_attr
    return (frame_id, attrs.1)

  unfoldable pub set_frame_attrs : Ptr → CString → ℤ → FrameAttrs → M (Unit {0})
  unfolding frame_path
  set_frame_attrs uvcf format frame_id fattrs = do
    func ← load function_at uvcf
    require (fits (frame_path func format frame_id)) path_too_long
    set_fields (frame_path func format frame_id) [] uvc_frame_attr fattrs

  -- `frames[frame_id]` of the format with the index `j`.
  unfoldable pub frame_at : Ptr → ℕ → ℤ → M Bool
  frame_at uvcf j id = do a ← format_at uvcf j; lun_at a.frames id

  unfoldable pub write_frame : Ptr → ℕ → ℤ → M (Unit {0})
  unfolding set_lun set_entry
  write_frame uvcf j (negsuc n) = λ m. fault
  write_frame uvcf j (pos i) = do
    a ← format_at uvcf j
    set_format_at uvcf j (record a { frames = set_lun i true a.frames })

  -- `if (fattrs) ...`
  set_frame_attrs_if : Ptr → CString → ℤ → Option FrameAttrs → M (Unit {0})
  unfolding set_frame_attrs
  set_frame_attrs_if uvcf format frame_id none = return tt
  set_frame_attrs_if uvcf format frame_id (some a) = set_frame_attrs uvcf format frame_id a

  unfoldable pub create_frame : Ptr → CString → ℕ → ℤ → Option FrameAttrs → M (Unit {0})
  unfolding create_dir frame_at write_frame frame_path set_frame_attrs_if
  create_frame uvcf format j frame_id fattrs = do
    require (is_frame_id frame_id) invalid_param
    there ← frame_at uvcf j frame_id
    require (not there) exist
    func ← load function_at uvcf
    let path = frame_path func format frame_id
    require (fits path) path_too_long
    io (create_dir path)
    on_error (set_frame_attrs_if uvcf format frame_id fattrs) (io (ignore (os.rmdir path)))
    write_frame uvcf j frame_id
