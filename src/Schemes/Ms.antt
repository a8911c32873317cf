-- ===== src/Schemes/Ms.antt =====
-- `.import` and `.export` of a mass storage function (ms.c).
use libusbgx.Base.{ℕ, zero, suc, false, not, [], ◌∷◌, none, some, if◌then◌else◌}
use libusbgx.Base.Int.{pos}
use libusbgx.CStr.{c}
use libusbgx.Error.{invalid_param, invalid_type, invalid_format, path_too_long}
use libusbgx.Files.{fits}
use libusbgx.Funcs.Luns.{ms_lun_attr, lun_path, get_lun_mask, create_lun}
use libusbgx.Funcs.Ms.{get_stall, set_stall, lun_now}
use libusbgx.Funcs.Tables.{to_function}
use libusbgx.Funcs.Values.{get_value, set_value}
use libusbgx.Heap.{Ptr}
use libusbgx.Heap.Monad.{M, return, raise, require, io, load, function_at, ◌>>=◌, ◌>>◌}
use libusbgx.Libconfig.{Libconfig, type_list, type_group, is_list, is_group, ask, change}
use libusbgx.Names.{f_mass_storage}
use libusbgx.Objects.{max_luns}
use libusbgx.Os.{Os}
use libusbgx.Schemes.Attrs.{Getter, Setter, import_fields, export_fields, set_if_found}
use libusbgx.Schemes.Nodes.{
  Setting, if_member, get_config_node_bool, if_positive, set_config_node_bool,
}

module _ ⦃os : Os⦄ ⦃lc : Libconfig os⦄ where
  abbrev lun_getter : Ptr → ℕ → Getter
  lun_getter mf i k file = do
    func ← load function_at mf
    require (fits (lun_path func (pos i))) path_too_long
    io (get_value k (lun_path func (pos i)) [] file)

  abbrev lun_setter : Ptr → ℕ → Setter
  lun_setter mf i k file v = do
    func ← load function_at mf
    require (fits (lun_path func (pos i))) path_too_long
    set_value k (lun_path func (pos i)) [] file v

  unfoldable pub ms_import_lun_attrs : Ptr → ℕ → Setting → M (Unit {0})
  ms_import_lun_attrs mf i root = import_fields (lun_setter mf i) root ms_lun_attr

  unfoldable pub ms_export_lun_attrs : Ptr → ℕ → Setting → M (Unit {0})
  ms_export_lun_attrs mf i root = export_fields false (lun_getter mf i) root ms_lun_attr

  -- `if (!luns[i]) ...`: beyond the array this is an access out of bounds.
  create_missing : Ptr → ℕ → M (Unit {0})
  create_missing mf i = do
    there ← lun_now mf i
    if there then return tt else create_lun mf (pos i) none

  -- The loop over the list, for `n` elements from the index `i` on.
  pub import_luns : Ptr → Setting → ℕ → ℕ → M (Unit {0})
  import_luns mf luns zero i = return tt
  import_luns mf luns (suc n) i = do
    node ← ask (lc.get_elem luns i)
    elim node [
      | none ↦ raise invalid_format
      | some nd ↦ do
        t ← ask (lc.type nd)
        require (is_group t) invalid_type
        create_missing mf i
        ms_import_lun_attrs mf i nd
        import_luns mf luns n (suc i)
    ]

  unfoldable pub ms_libconfig_import : Ptr → Setting → M (Unit {0})
  ms_libconfig_import f root = do
    mf ← to_function (f_mass_storage ∷ []) f
    stall ← get_config_node_bool root (c "stall")
    set_if_found (set_stall mf) (if_positive stall)
    if_member root (c "luns") (raise invalid_param) (λ luns. do
      t ← ask (lc.type luns)
      require (is_list t) invalid_type
      n ← ask (lc.length luns)
      mask ← get_lun_mask mf
      import_luns mf luns n 0)

  -- The loop of the export, for `n` indices from `i` on. A node that cannot be made ends it, and
  -- the export succeeds.
  pub export_luns : Ptr → Setting → ℕ → ℕ → M (Unit {0})
  export_luns mf luns zero i = return tt
  export_luns mf luns (suc n) i =
      let rest = export_luns mf luns n (suc i) in
      lun_now mf i >>= λ there.
      (if not there then rest else do
        node ← change (lc.add luns (some []) type_group)
        elim node [ none ↦ return tt | some nd ↦ do ms_export_lun_attrs mf i nd; rest ])

  unfoldable pub ms_libconfig_export : Ptr → Setting → M (Unit {0})
  ms_libconfig_export f root = do
    mf ← to_function (f_mass_storage ∷ []) f
    stall ← get_stall mf
    set_config_node_bool root (some (c "stall")) stall
    luns ← change (lc.add root (some (c "luns")) type_list)
    elim luns [
      | none ↦ return tt
      | some node ↦ do mask ← get_lun_mask mf; export_luns mf node max_luns 0
    ]
