-- ===== src/Funcs/Uvc/Classes.antt =====
-- src/function/uvc.c: the links of the classes, setting all attributes, and the removal.
use libusbgx.Base.{ℕ, Bool, true, false, ◌&&◌, List, [], ◌∷◌, ◌++◌, ◌==◌, if◌then◌else◌}
use libusbgx.Base.Int.{ℤ}
use libusbgx.CStr.{CString, c}
use libusbgx.Error.{path_too_long}
use libusbgx.Files.{join, fits, write_dec}
use libusbgx.Funcs.Tables.{to_function}
use libusbgx.Funcs.Uvc.{FrameAttrs, create_dir}
use libusbgx.Heap.{Ptr}
use libusbgx.Heap.Monad.{M, return, require, io, load, function_at, ignored, ◌>>=◌, ◌>>◌}
use libusbgx.Num.{print_int}
use libusbgx.Os.{Os}
use libusbgx.Os.Io.{Io, ok, call}

-- `struct usbg_f_uvc_format_attrs`, the fields that the code uses. `frames` is the array up to
-- NULL.
pub record UvcFormat : Type 0 where
  pub format : CString
  pub b_default_frame_index : ℤ
  pub frames : List FrameAttrs

-- `struct usbg_f_uvc_attrs`: the array `formats` up to NULL.
abbrev pub UvcAttrs : Type 0
UvcAttrs = List UvcFormat

-- `strncmp` of the text with the first bytes of another is 0.
abbrev starts_with : CString → CString → Bool
starts_with [] s = true
starts_with (x ∷ p) [] = false
starts_with (x ∷ p) (y ∷ s) = x == y && starts_with p s

module _ ⦃os : Os⦄ where
  unfoldable pub uvc_link : CString → CString → CString → M (Unit {0})
  uvc_link path to from = do
    require (fits (join path to)) path_too_long
    require (fits (join path from)) path_too_long
    io (call (os.symlink (join path to) (join path from)))

  -- The link to a format, if it is there.
  link_format : CString → CString → CString → M (Unit {0})
  unfolding uvc_link
  link_format path format from = do
    require (fits (join path format)) path_too_long
    there ← io (λ w. (ok (os.stat (join path format) w).0, (os.stat (join path format) w).1))
    if there then uvc_link path format from else return tt

  -- What only the class "streaming" has.
  link_streaming : CString → M (Unit {0})
  unfolding link_format uvc_link
  link_streaming path = do
    link_format path (c "uncompressed/u") (c "header/h/u")
    link_format path (c "mjpeg/m") (c "header/h/m")
    uvc_link path (c "header/h") (c "class/hs/h")

  unfoldable pub uvc_set_class : Ptr → CString → M (Unit {0})
  unfolding link_streaming uvc_link
  uvc_set_class uvcf cs = do
    func ← load function_at uvcf
    let path = join (join func.path func.name) cs
    require (fits path) path_too_long
    require (fits (join path (c "header/h"))) path_too_long
    io (create_dir (join path (c "header/h")))
    if starts_with (c "streaming") cs then link_streaming path else return tt
    uvc_link path (c "header/h") (c "class/fs/h")
    uvc_link path (c "header/h") (c "class/ss/h")

  unfoldable pub uvc_set_format : CString → CString → UvcFormat → M (Unit {0})
  uvc_set_format path format a =
      io (write_dec path format (c "bDefaultFrameIndex") a.b_default_frame_index)

  -- The files in the order in which they are written, with the fields for them.
  abbrev frame_files : FrameAttrs → List (CString × ℤ)
  frame_files
        (
          index,
          (caps, (min_rate, (max_rate, (size, (default, (interval, (height, (width, _)))))))),
        ) =
      (c "dwFrameInterval", interval)
      ∷ (c "dwDefaultFrameInterval", default)
      ∷ (c "dwMaxVideoFrameBufferSize", size)
      ∷ (c "dwMinBitRate", min_rate)
      ∷ (c "dwMaxBitRate", max_rate)
      ∷ (c "wHeight", height)
      ∷ (c "wWidth", width)
      ∷ []

  write_files : CString → CString → List (CString × ℤ) → M (Unit {0})
  write_files path name [] = return tt
  write_files path name ((file, v) ∷ rest) = do
    io (write_dec path name file v)
    write_files path name rest

  unfoldable pub uvc_set_frame : CString → CString → FrameAttrs → M (Unit {0})
  unfolding write_files
  uvc_set_frame path format attrs = do
    let name = c "frame." ++ print_int attrs.0
    require (fits (join path format)) path_too_long
    require (fits (join (join path format) name)) path_too_long
    io (create_dir (join (join path format) name))
    write_files (join path format) name (frame_files attrs)

  -- The errors of the frames are only logged.
  set_frames : CString → CString → List FrameAttrs → M (Unit {0})
  unfolding uvc_set_frame
  set_frames path format [] = return tt
  set_frames path format (a ∷ as') = do
    ignored (uvc_set_frame path format a)
    set_frames path format as'

  unfoldable pub uvc_set_streaming : CString → UvcFormat → M (Unit {0})
  unfolding set_frames uvc_set_format
  uvc_set_streaming func_path a = do
    let path = join func_path (c "streaming")
    require (fits path) path_too_long
    set_frames path a.format a.frames
    uvc_set_format path a.format a

  -- So are those of the formats.
  set_formats : CString → UvcAttrs → M (Unit {0})
  unfolding uvc_set_streaming
  set_formats path [] = return tt
  set_formats path (a ∷ as') = do ignored (uvc_set_streaming path a); set_formats path as'

  unfoldable pub f_uvc_set_attrs : Ptr → UvcAttrs → M (Unit {0})
  unfolding set_formats uvc_set_class
  f_uvc_set_attrs uvcf attrs = do
    func ← load function_at uvcf
    let path = join func.path func.name
    require (fits path) path_too_long
    set_formats path attrs
    uvc_set_class uvcf (c "control")
    uvc_set_class uvcf (c "streaming")

  pub to_uvc_function : Ptr → M Ptr
  to_uvc_function = to_function (15 ∷ [])

  unfoldable pub uvc_set_attrs : Ptr → UvcAttrs → M (Unit {0})
  unfolding to_uvc_function f_uvc_set_attrs
  uvc_set_attrs f a = do uvcf ← to_uvc_function f; f_uvc_set_attrs uvcf a

  -- Nothing is read, nor written to the structure of the caller.
  unfoldable pub uvc_get_attrs : Ptr → M (Unit {0})
  unfolding to_uvc_function
  uvc_get_attrs f = do uvcf ← to_uvc_function f; return tt

  -- `dir_nftw_cb`, which reports no failure of `remove`.
  abbrev remove_entry : CString → ℕ → os.World → os.World
  remove_entry path level w = (os.remove path w).1

  -- `content_nftw_cb`, which leaves the directory itself.
  abbrev remove_below : CString → ℕ → os.World → os.World
  remove_below path level w = if level == 0 then w else (os.remove path w).1

  remove_dir : CString → Io Bool
  remove_dir dirpath w = let (done, w') = os.nftw dirpath remove_entry w in (ok done, w')

  remove_dir_content : CString → Io Bool
  remove_dir_content dirpath w = let (done, w') = os.nftw dirpath remove_below w in (ok done, w')

  unfoldable pub uvc_remove : Ptr → ℕ → M (Unit {0})
  unfolding to_uvc_function remove_dir remove_dir_content
  uvc_remove f opts = do
    uvcf ← to_uvc_function f
    func ← load function_at uvcf
    let path = join func.path func.name
    require (fits path) path_too_long
    require (fits (join path (c "streaming"))) path_too_long
    require (fits (join path (c "control"))) path_too_long
    streaming_empty ← io (remove_dir_content (join path (c "streaming")))
    require streaming_empty path_too_long
    control_empty ← io (remove_dir_content (join path (c "control")))
    require control_empty path_too_long
    streaming_gone ← io (remove_dir (join path (c "streaming")))
    require streaming_gone path_too_long
    control_gone ← io (remove_dir (join path (c "control")))
    require control_gone path_too_long
