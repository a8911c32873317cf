-- ===== src/Schemes/Nodes.antt =====
-- usbg_common_libconfig.c, and the report descriptors of hid.c: one value in a tree of settings.
-- A getter says that a node was not found by 0, here `none`, and a positive number comes with the
-- value.
pub mod Reports
pub mod RoundTrip
use libusbgx.Base.{
  ℕ, suc, Bool, true, false, not, ◌&&◌, List, [], ◌∷◌, ◌++◌, Option, none, some, leb, zero, ◌-◌,
  if◌then◌else◌,
}
use libusbgx.Base.Int.{ℤ, pos, negsuc}
use libusbgx.CStr.{CString, c}
use libusbgx.Error.{no_mem, other_error, invalid_type, invalid_value}
use libusbgx.Files.{is_nonzero}
use libusbgx.Funcs.Ether.{ether_ntoa_r, ether_aton_r}
use libusbgx.Funcs.Values.{Kind, Val}
use libusbgx.Heap.Monad.{M, fault, return, raise, require, io, ◌>>=◌, ◌>>◌}
use libusbgx.Libconfig.{
  Libconfig, SettingType, type_int, type_bool, type_string, type_list, type_group, is_int,
  is_string, is_list, ask, change,
}
use libusbgx.Num.{to_int}
use libusbgx.Os.{Os}
use libusbgx.Os.Io.{allocate}

module _ ⦃os : Os⦄ ⦃lc : Libconfig os⦄ where
  abbrev pub Setting : Type 0
  Setting = lc.Setting

  abbrev pub if_member : {A : Type 0} → Setting → CString → M A → (Setting → M A) → M A
  if_member root name missing there = do
    node ← ask (lc.get_member root name)
    elim node [ none ↦ missing | some n ↦ there n ]

  unfoldable pub get_config_node_int : Setting → CString → M (Option ℤ)
  get_config_node_int root name = if_member root name (return none) (λ node. do
    t ← ask (lc.type node)
    require (is_int t) invalid_type
    v ← ask (lc.get_int node)
    return (some v))

  -- The number that it returns, and what was written to `*value`, if anything was. The number is 0
  -- in any case, which stands for a node that is missing.
  unfoldable pub get_config_node_bool : Setting → CString → M (ℕ × Option Bool)
  get_config_node_bool root name = if_member root name (return (0, none)) (λ node. do
    t ← ask (lc.type node)
    elim t [
      | type_int ↦ do v ← ask (lc.get_int node); return (0, some (is_nonzero v))
      | type_bool ↦ do b ← ask (lc.get_bool node); return (0, some b)
      | _ ↦ raise invalid_type
    ])

  -- `if (ret > 0)`, with the value that was written.
  abbrev pub if_positive : ℕ × Option Bool → Option Bool
  if_positive (zero, v) = none
  if_positive (suc n, v) = v

  unfoldable pub get_config_node_string : Setting → CString → M (Option (Option CString))
  get_config_node_string root name = if_member root name (return none) (λ node. do
    t ← ask (lc.type node)
    require (is_string t) invalid_type
    v ← ask (lc.get_string node)
    return (some v))

  -- `ether_aton_r` reads a text that is not NULL.
  abbrev parsed_addr : Option (Option CString) → M (Option (List ℕ))
  parsed_addr none = return none
  parsed_addr (some none) = λ m. fault
  parsed_addr (some (some s)) = elim (ether_aton_r s) [
    | none ↦ raise invalid_value
    | some a ↦ return (some a)
  ]

  unfoldable pub get_config_node_ether_addr : Setting → CString → M (Option (List ℕ))
  get_config_node_ether_addr root name = do s ← get_config_node_string root name; parsed_addr s

  -- A byte of a report descriptor.
  abbrev pub report_byte : ℤ → M ℕ
  report_byte (negsuc n) = raise invalid_value
  report_byte (pos n) = if leb n 255 then return n else raise invalid_value

  -- For `n` elements of the list from the index `i` on. `assert(node)` ends the program.
  pub report_bytes : Setting → ℕ → ℕ → M CString
  report_bytes list zero i = return []
  report_bytes list (suc n) i = do
    node ← ask (lc.get_elem list i)
    elim node [
      | none ↦ λ m. fault
      | some nd ↦ do
        t ← ask (lc.type nd)
        require (is_int t) invalid_type
        tmp ← ask (lc.get_int nd)
        b ← report_byte tmp
        rest ← report_bytes list n (suc i)
        return (b ∷ rest)
    ]

  unfoldable pub hid_get_config_node_report : Setting → CString → M (Option CString)
  hid_get_config_node_report root name = if_member root name (return none) (λ list. do
    t ← ask (lc.type list)
    require (is_list t) invalid_type
    n ← ask (lc.length list)
    io (allocate no_mem)
    buf ← report_bytes list n 0
    return (some buf))

  -- `config_setting_add`, whose NULL is reported as no memory, and the calls behind it, of which
  -- any other result than CONFIG_TRUE is reported as another error.
  abbrev pub add_node : Setting → Option CString → SettingType → M Setting
  add_node root name type = do
    node ← change (lc.add root name type)
    elim node [ none ↦ raise no_mem | some n ↦ return n ]

  abbrev pub assured : (os.World → Bool × os.World) → M (Unit {0})
  assured f = do b ← change f; require b other_error

  unfoldable pub set_config_node_int : Setting → Option CString → ℤ → M (Unit {0})
  set_config_node_int root name v = do
    node ← add_node root name type_int
    assured (lc.set_int node v)

  unfoldable pub set_config_node_int_hex : Setting → Option CString → ℤ → M (Unit {0})
  set_config_node_int_hex root name v = do
    node ← add_node root name type_int
    assured (lc.set_format_hex node)
    assured (lc.set_int node v)

  unfoldable pub set_config_node_bool : Setting → Option CString → Bool → M (Unit {0})
  set_config_node_bool root name v = do
    node ← add_node root name type_bool
    assured (lc.set_bool node v)

  unfoldable pub set_config_node_string : Setting → Option CString → Option CString → M (Unit {0})
  set_config_node_string root name v = do
    node ← add_node root name type_string
    assured (lc.set_string node v)

  unfoldable pub set_config_node_ether_addr : Setting → CString → List ℕ → M (Unit {0})
  set_config_node_ether_addr root name a =
      set_config_node_string root (some name) (some (ether_ntoa_r a))

  unfoldable pub set_config_node_dev : Setting → CString → ℕ × ℕ → M (Unit {0})
  set_config_node_dev root name (major, minor) = do
    node ← add_node root (some name) type_group
    set_config_node_int node (some (c "major")) (to_int (pos major))
    set_config_node_int node (some (c "minor")) (to_int (pos minor))

  -- `int tmp = report_desc->desc[i]`, where `char` is signed.
  abbrev pub signed_char : ℕ → ℤ
  signed_char b = if leb b 127 then pos b else negsuc (255 - b)

  pub report_nodes : Setting → CString → M (Unit {0})
  report_nodes node [] = return tt
  report_nodes node (b ∷ bs) = do
    set_config_node_int_hex node none (signed_char b)
    report_nodes node bs

  unfoldable pub hid_set_config_node_report : Setting → CString → CString → M (Unit {0})
  hid_set_config_node_report root name desc = do
    node ← add_node root (some name) type_list
    report_nodes node desc

  -- `.import` of an attribute of this type, which is NULL for a device, and `.export`.
  unfoldable pub import_value : (k : Kind) → Setting → CString → M (Option (Val k))
  import_value Kind.dec = get_config_node_int
  import_value Kind.boolean =
      λ root name. do r ← get_config_node_bool root name; return (if_positive r)
  import_value Kind.text = get_config_node_string
  import_value Kind.ether = get_config_node_ether_addr
  import_value Kind.dev = λ root name m. fault
  import_value Kind.report = hid_get_config_node_report

  unfoldable pub export_value : (k : Kind) → Setting → CString → Val k → M (Unit {0})
  export_value Kind.dec root name v = set_config_node_int root (some name) v
  export_value Kind.boolean root name v = set_config_node_bool root (some name) v
  export_value Kind.text root name v = set_config_node_string root (some name) v
  export_value Kind.ether root name v = set_config_node_ether_addr root name v
  export_value Kind.dev root name v = set_config_node_dev root name v
  export_value Kind.report root name v = hid_set_config_node_report root name v
