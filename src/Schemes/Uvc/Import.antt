-- ===== src/Schemes/Uvc/Import.antt =====
-- `.import` of a video function (uvc.c).
use libusbgx.Base.{ℕ, zero, suc, List, [], ◌∷◌, Option, none, some, if◌then◌else◌}
use libusbgx.Base.Int.{ℤ, pos}
use libusbgx.CStr.{CString, c}
use libusbgx.Error.{invalid_param, invalid_type, invalid_format, path_too_long}
use libusbgx.Files.{join, fits}
use libusbgx.Funcs.Uvc.{uvc_config_attr, uvc_frame_attr, get_formats_mask, frame_at, create_frame}
use libusbgx.Funcs.Uvc.Classes.{to_uvc_function, uvc_set_class}
use libusbgx.Funcs.Uvc.Formats.{
  FormatAttr, FormatKind, FormatUnion, uvc_format_attr, set_format_attr_val,
}
use libusbgx.Heap.{Ptr}
use libusbgx.Heap.Monad.{M, fault, return, raise, require, ◌>>=◌, ◌>>◌}
use libusbgx.Libconfig.{Libconfig, is_list, is_group, ask}
use libusbgx.Os.{Os}
use libusbgx.Schemes.Attrs.{import_fields, set_if_found}
use libusbgx.Schemes.Nodes.{Setting, if_member, get_config_node_int, get_config_node_string}
use libusbgx.Schemes.Uvc.{config_setter, frame_setter}

-- What a function with a union as a parameter gets, of which one member was written. The other is
-- not read.
abbrev of_number : ℤ → FormatUnion
of_number z = record { number_val = z; text_val = none }

abbrev of_text : Option CString → FormatUnion
of_text s = record { number_val = pos 0; text_val = s }

module _ ⦃os : Os⦄ ⦃lc : Libconfig os⦄ where
  unfoldable pub uvc_import_frame_attrs : Ptr → CString → ℤ → Setting → M (Unit {0})
  uvc_import_frame_attrs uvcf format id root =
      import_fields (frame_setter uvcf format id) root uvc_frame_attr

  -- An attribute of a format, with its enumerator. One that is read only is left out.
  import_format_attr : Ptr → CString → Setting → ℕ → CString → FormatKind → M (Unit {0})
  import_format_attr uvcf format root i name FormatKind.number_ro = return tt
  import_format_attr uvcf format root i name FormatKind.number =
      get_config_node_int root name
      >>= set_if_found (λ z. set_format_attr_val uvcf format i (of_number z))
  import_format_attr uvcf format root i name FormatKind.guid =
      get_config_node_string root name
      >>= set_if_found (λ s. set_format_attr_val uvcf format i (of_text s))

  import_format_each : Ptr → CString → Setting → ℕ → List FormatAttr → M (Unit {0})
  unfolding import_format_attr
  import_format_each uvcf format root i [] = return tt
  import_format_each uvcf format root i (e ∷ es) = do
    import_format_attr uvcf format root i e.name e.kind
    import_format_each uvcf format root (suc i) es

  unfoldable pub uvc_import_format_attrs : Ptr → CString → Setting → M (Unit {0})
  unfolding import_format_each
  uvc_import_format_attrs uvcf format root = import_format_each uvcf format root 0 uvc_format_attr

  -- `if (!frames[i]) ...`
  create_missing : Ptr → CString → ℕ → ℕ → M (Unit {0})
  create_missing uvcf format j i = do
    there ← frame_at uvcf j (pos i)
    if there then return tt else create_frame uvcf format j (pos i) none

  -- The loop over the list, for `n` elements from the index `i` on.
  import_frames : Ptr → CString → ℕ → Setting → ℕ → ℕ → M (Unit {0})
  unfolding create_missing
  import_frames uvcf format j frames zero i = return tt
  import_frames uvcf format j frames (suc n) i = do
    node ← ask (lc.get_elem frames i)
    elim node [
      | none ↦ raise invalid_format
      | some nd ↦ do
        t ← ask (lc.type nd)
        require (is_group t) invalid_type
        create_missing uvcf format j i
        uvc_import_frame_attrs uvcf format (pos i) nd
        import_frames uvcf format j frames n (suc i)
    ]

  unfoldable pub uvc_import_format : Ptr → CString → ℕ → Setting → M (Unit {0})
  unfolding import_frames
  uvc_import_format uvcf format j root =
      if_member root (c "frames") (raise invalid_param) (λ frames. do
        t ← ask (lc.type frames)
        require (is_list t) invalid_type
        n ← ask (lc.length frames)
        import_frames uvcf format j frames n 0)

  unfoldable pub uvc_import_config : Ptr → Setting → M (Unit {0})
  uvc_import_config uvcf root = if_member root (c "config") (raise invalid_param) (λ node. do
    t ← ask (lc.type node)
    require (is_group t) invalid_type
    import_fields (config_setter uvcf) node uvc_config_attr)

  -- "%s/%c" with the name of the format and its first letter. Without a name this is an access
  -- through NULL.
  abbrev format_dir : Option CString → M CString
  format_dir none = λ m. fault
  format_dir (some []) = return (join [] [])
  format_dir (some (x ∷ s)) = return (join (x ∷ s) (x ∷ []))

  -- The loop over the formats. The frames are those of the format with this index, whatever its
  -- name is.
  import_formats : Ptr → Setting → ℕ → ℕ → M (Unit {0})
  import_formats uvcf formats zero j = return tt
  import_formats uvcf formats (suc n) j = do
    node ← ask (lc.get_elem formats j)
    elim node [
      | none ↦ raise invalid_format
      | some nd ↦ do
        t ← ask (lc.type nd)
        require (is_group t) invalid_type
        name ← ask (lc.name nd)
        fp ← format_dir name
        require (fits fp) path_too_long
        uvc_import_format uvcf fp j nd
        uvc_import_format_attrs uvcf fp nd
        import_formats uvcf formats n (suc j)
    ]

  unfoldable pub uvc_libconfig_import : Ptr → Setting → M (Unit {0})
  unfolding import_formats
  uvc_libconfig_import f root = do
    uvcf ← to_uvc_function f
    if_member root (c "formats") (raise invalid_param) (λ formats. do
      t ← ask (lc.type formats)
      require (is_group t) invalid_type
      n ← ask (lc.length formats)
      get_formats_mask uvcf
      import_formats uvcf formats n 0
      uvc_import_config uvcf root
      uvc_set_class uvcf (c "control")
      uvc_set_class uvcf (c "streaming"))
