-- ===== src/Funcs/Uvc/Frames.antt =====
-- What creating a frame of a format does to the array of the frames that exist.
use libusbgx.Base.{
  ℕ, ◌<◌, ◌≡◌, ◌≢◌, refl, true, Option, none, some, [], get_elem?, length, arith, lt→ltb,
  Bool-cases, inl, inr,
}
use libusbgx.Base.Int.{ℤ, pos}
use libusbgx.CStr.{CString}
use libusbgx.Error.{path_too_long}
use libusbgx.Files.{fits}
use libusbgx.Funcs.Attrs.{set_fields}
use libusbgx.Funcs.Luns.{lun_of, lun_at, set_lun}
use libusbgx.Funcs.Luns.Mask.{get_elem?-lun_of}
use libusbgx.Funcs.Ms.{set_entry}
use libusbgx.Funcs.Tables.Frame.{set_fields-Keeps}
use libusbgx.Funcs.Uvc.{
  FrameAttrs, uvc_frame_attr, frame_path, create_dir, frame_at, write_frame, set_frame_attrs,
  set_frame_attrs_if, create_frame, format_at,
}
use libusbgx.Heap.{Ptr, Heap, Function, Formats}
use libusbgx.Heap.Keeps.{
  mem_at, Keeps, kept, Keeps-Post, Keeps-bind, Keeps-guard, Keeps-io, Keeps-load, Keeps-require,
}
use libusbgx.Heap.Monad.{M, returned, function_at, written, require, io, on_error, ◌>>◌}
use libusbgx.Heap.Post.{Post, returns, raises, Live, load-returned, store-returned, io-Post}
use libusbgx.Objects.{max_frames}
use libusbgx.Os.{Os}
use libusbgx.Os.Io.{ignore}

-- A live video function, and the array of its format with the index `j`.
pub record IsFormat (h : Heap) (uvc : Ptr) (func : Function) (j : ℕ) (a : Formats) : Type 0 where
  pub live : Live function_at h uvc func
  pub entry : get_elem? func.formats j ≡ some a
  pub sized : length a.frames ≡ max_frames

module _ ⦃os : Os⦄ {h : Heap} {uvc : Ptr} {func : Function} {j : ℕ} {a : Formats}
    (is : IsFormat h uvc func j a) where
  -- The heap with a frame that exists.
  abbrev pub with_frame : ℕ → Heap
  with_frame i =
      written function_at uvc
        (record func {
          formats = set_entry j (record a { frames = set_lun i true a.frames }) func.formats;
        })
        h

  format_at-run : (w : os.World) → format_at uvc j (mem_at h w) ≡ returned a (mem_at h w)
  format_at-run w = rw (load-returned {m = mem_at h w} is.live) (let e = is.entry in ground arith)

  frame_at-run :
      (w : os.World) (i : ℕ)
      → i < max_frames
      → frame_at uvc j (pos i) (mem_at h w) ≡ returned (lun_of a.frames i) (mem_at h w)
  unfolding frame_at lun_at
  frame_at-run w i l = rw (format_at-run w) (ground (arith, get_elem?-lun_of a.frames i, is.sized))

  write_frame-run :
      (w : os.World) (i : ℕ)
      → write_frame uvc j (pos i) (mem_at h w) ≡ returned tt (mem_at (with_frame i) w)
  unfolding write_frame
  write_frame-run w i =
      rw (format_at-run w, load-returned {m = mem_at h w} is.live)
        (store-returned {m = mem_at h w} is.live _)

  set_frame_attrs_if-Keeps :
      (w : os.World) (format : CString) (id : ℤ) (fattrs : Option FrameAttrs)
      → Keeps h (set_frame_attrs_if uvc format id fattrs (mem_at h w))
  unfolding set_frame_attrs_if set_frame_attrs
  set_frame_attrs_if-Keeps w format id none = kept tt w
  set_frame_attrs_if-Keeps w format id (some fattrs) =
      Keeps-load function_at
        (λ func.
          require (fits (frame_path func format id)) path_too_long
          >> set_fields (frame_path func format id) [] uvc_frame_attr fattrs)
        is.live
        (Keeps-bind (λ _. set_fields (frame_path func format id) [] uvc_frame_attr fattrs)
          (Keeps-require (fits (frame_path func format id)) path_too_long w)
          (λ _ w.
            set_fields-Keeps (frame_path func format id) [] uvc_frame_attr fattrs w
              (refl, (refl, (refl, (refl, (refl, (refl, (refl, (refl, (refl, tt)))))))))))

  -- From the test of the path on.
  make_frame : CString → ℕ → Option FrameAttrs → CString → M (Unit {0})
  make_frame format id fattrs path =
      require (fits path) path_too_long
      >> (io (create_dir path)
          >> (on_error (set_frame_attrs_if uvc format (pos id) fattrs) (io (ignore (os.rmdir path)))
              >> write_frame uvc j (pos id)))

  make_frame-Post :
      {P : Type 0} (p : P) (format : CString) (id : ℕ) (fattrs : Option FrameAttrs) (path : CString)
      (w : os.World)
      → Post
          (λ _ n. P × (n.heap ≡ with_frame id))
          (λ _ n. n.heap ≡ h)
          (make_frame format id fattrs path (mem_at h w))
  unfolding make_frame
  make_frame-Post p format id fattrs path w =
      let undo : M (Unit {0}) = io (ignore (os.rmdir path)) in
      let set = set_frame_attrs_if uvc format (pos id) fattrs in
      Keeps-Post (λ _. io (create_dir path) >> (on_error set undo >> write_frame uvc j (pos id)))
        (Keeps-require (fits path) path_too_long w)
        (λ _ w.
          Keeps-Post (λ _. on_error set undo >> write_frame uvc j (pos id))
            (Keeps-io (create_dir path) w)
            (λ _ w.
              Keeps-guard (λ _. write_frame uvc j (pos id)) undo
                (set_frame_attrs_if-Keeps w format (pos id) fattrs)
                (λ _ w. rw (write_frame-run w id) (returns (p, refl)))
                (λ w. io-Post (ignore (os.rmdir path)) (mem_at h w) (λ _ _. refl) (λ _ _. refl)))
            (λ _. refl))
        (λ _. refl)

  -- Creating a frame with a number below MAX_FRAMES of a format of a live function does not fault.
  -- If it succeeds, the frame did not exist, and in the structures only the entry of this frame of
  -- this format is changed, which is set. If it fails, no structure is changed.
  pub create_frame-Post :
      (format : CString) (id : ℕ) (fattrs : Option FrameAttrs) (w : os.World)
      → id < max_frames
      → Post
          (λ _ n. (lun_of a.frames id ≢ true) × (n.heap ≡ with_frame id))
          (λ _ n. n.heap ≡ h)
          (create_frame uvc format j (pos id) fattrs (mem_at h w))
  unfolding create_frame make_frame
  create_frame-Post format id fattrs w l =
      rw (lt→ltb id max_frames l, frame_at-run w id l)
        (elim (Bool-cases (lun_of a.frames id)) [
          | inl there ↦ rw there (raises refl)
          | inr absent ↦
              rw (absent, load-returned {m = mem_at h w} is.live)
                (make_frame-Post (λ e. ground (arith, e)) format id fattrs
                  (frame_path func format (pos id)) w)
        ])
