-- ===== src/Schemes/Uvc/Export.antt =====
-- `.export` of a video function (uvc.c).
use libusbgx.Base.{ℕ, zero, suc, false, List, [], ◌∷◌, none, some}
use libusbgx.Base.Int.{ℤ, pos}
use libusbgx.CStr.{CString, c}
use libusbgx.Error.{invalid_param, invalid_format}
use libusbgx.Funcs.Ms.{count_luns}
use libusbgx.Funcs.Uvc.{uvc_config_attr, uvc_frame_attr, format_names, format_at, get_formats_mask}
use libusbgx.Funcs.Uvc.Classes.{to_uvc_function}
use libusbgx.Funcs.Uvc.Formats.{
  FormatAttr, FormatVal, number_of, guid_of, uvc_format_attr, get_format_attr_val,
}
use libusbgx.Heap.{Ptr}
use libusbgx.Heap.Monad.{M, return, raise, ◌>>=◌, ◌>>◌}
use libusbgx.Libconfig.{Libconfig, SettingType, type_list, type_group, change}
use libusbgx.Os.{Os}
use libusbgx.Schemes.Attrs.{export_fields}
use libusbgx.Schemes.Nodes.{Setting, set_config_node_int}
use libusbgx.Schemes.Uvc.{config_getter, frame_getter, set_config_node_guid, unless, is_not_found}

-- A name of a format without its last two bytes.
abbrev format_label : CString → CString
format_label (x ∷ y ∷ z ∷ s) = x ∷ format_label (y ∷ z ∷ s)
format_label _ = []

module _ ⦃os : Os⦄ ⦃lc : Libconfig os⦄ where
  -- A node, and what is done if it cannot be added.
  abbrev with_node :
      Setting → CString → SettingType → M (Unit {0}) → (Setting → M (Unit {0})) → M (Unit {0})
  with_node root name type missing there = do
    node ← change (lc.add root (some name) type)
    elim node [ none ↦ missing | some n ↦ there n ]

  -- Without the node the export succeeds.
  unfoldable pub uvc_export_config : Ptr → Setting → M (Unit {0})
  uvc_export_config uvcf root =
      with_node root (c "config") type_group (return tt)
        (λ node. export_fields false (config_getter uvcf) node uvc_config_attr)

  export_format_val : Setting → CString → FormatVal → M (Unit {0})
  export_format_val root name (number_of z) = set_config_node_int root (some name) z
  export_format_val root name (guid_of bin) = set_config_node_guid root (some name) bin

  -- The loop, from the enumerator `i` on.
  export_format_each : Ptr → CString → Setting → ℕ → List FormatAttr → M (Unit {0})
  unfolding export_format_val
  export_format_each uvcf format root i [] = return tt
  export_format_each uvcf format root i (e ∷ es) = do
    v ← get_format_attr_val uvcf format i
    export_format_val root e.name v
    export_format_each uvcf format root (suc i) es

  -- A missing file ends the loop, and is no error.
  unfoldable pub uvc_export_format_attrs : Ptr → CString → Setting → M (Unit {0})
  unfolding export_format_each
  uvc_export_format_attrs uvcf format root m =
      unless is_not_found (export_format_each uvcf format root 0 uvc_format_attr m)

  unfoldable pub uvc_export_frame_attrs : Ptr → CString → ℤ → Setting → M (Unit {0})
  uvc_export_frame_attrs uvcf format frame_id root m =
      unless is_not_found
        (export_fields false (frame_getter uvcf format frame_id) root uvc_frame_attr m)

  -- The loop of `uvc_export_frames`, for `n` frames from the number `i` on.
  unfoldable pub export_frames : Ptr → CString → Setting → ℕ → ℕ → M (Unit {0})
  export_frames uvcf format frames zero i = return tt
  export_frames uvcf format frames (suc n) i = with_node frames [] type_group (return tt) (λ node.
      do
        uvc_export_frame_attrs uvcf format (pos i) node
        export_frames uvcf format frames n (suc i))

  unfoldable pub uvc_export_frames : Ptr → CString → ℕ → Setting → M (Unit {0})
  unfolding count_luns export_frames
  uvc_export_frames uvcf format j root =
      with_node root (c "frames") type_list (raise invalid_format) (λ frames. do
        a ← format_at uvcf j
        export_frames uvcf format frames (count_luns a.frames) 0)

  -- The loop over the formats, from the index `j` on, and the call behind it. If a node cannot be
  -- added, the export ends with success.
  export_formats : Ptr → Setting → Setting → ℕ → List CString → M (Unit {0})
  export_formats uvcf root formats j [] = uvc_export_config uvcf root
  export_formats uvcf root formats j (format ∷ rest) =
      with_node formats (format_label format) type_group (return tt) (λ node. do
        uvc_export_frames uvcf format j node
        uvc_export_format_attrs uvcf format node
        export_formats uvcf root formats (suc j) rest)

  unfoldable pub uvc_libconfig_export : Ptr → Setting → M (Unit {0})
  unfolding export_formats
  uvc_libconfig_export f root = do
    uvcf ← to_uvc_function f
    with_node root (c "formats") type_group (raise invalid_param)
        (λ formats. do get_formats_mask uvcf; export_formats uvcf root formats 0 format_names)
