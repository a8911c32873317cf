-- ===== src/Schemes/Import.antt =====
-- usbg_schemes_libconfig.c: what imports share, and the parts of functions and configurations that
-- need no creation of functions.
pub mod Labels
pub mod Lookup
pub mod Configs
pub mod Gadgets
use libusbgx.Base.{
  ℕ, zero, suc, Bool, true, false, not, ◌||◌, List, [], ◌∷◌, Option, none, some, length, ltb, ◌==◌,
  get_elem?, if◌then◌else◌,
}
use libusbgx.Attrs.{set_config_bm_attrs, set_config_max_power}
use libusbgx.Base.Int.{ℤ, pos, negsuc}
use libusbgx.CStr.{CString, c, str_eq, strchr}
use libusbgx.Create.{create_config, create_function, add_config_function}
use libusbgx.Error.{not_supported, not_found, invalid_type, missing_tag, other_error, no_mem}
use libusbgx.FunctionOps.{FunctionOps}
use libusbgx.Funcs.Ops.{Impl, function_types}
use libusbgx.Heap.{Ptr, null, Function}
use libusbgx.Heap.Monad.{
  M, fault, return, raise, require, io, load, store, on_error, ignored, gadget_at, config_at,
  function_at, ◌>>=◌, ◌>>◌,
}
use libusbgx.Libconfig.{Libconfig, is_int, is_string, is_group, is_list, ask}
use libusbgx.Names.{Found, found, failed, lookup_function_type}
use libusbgx.Num.{to_unsigned}
use libusbgx.Os.{Os}
use libusbgx.Os.Io.{allocate}
use libusbgx.OsDesc.{FunctionOsDesc, set_interf_os_desc}
use libusbgx.Query.{find_first, get_function}
use libusbgx.Remove.{rm_config}
use libusbgx.Schemes.Attrs.{
  midi_libconfig_import, hid_libconfig_import, uac2_libconfig_import, ether_libconfig_import,
  loopback_libconfig_import, set_if_found,
}
use libusbgx.Schemes.Export.{max_name_length, os_desc_iname}
use libusbgx.Schemes.Ms.{ms_libconfig_import}
use libusbgx.Schemes.Nodes.{Setting, if_member, get_config_node_string}
use libusbgx.Strings.{set_config_strs}

abbrev pub rm_recurse : ℕ
rm_recurse = 1

-- `split_function_label`: the type and the instance. Without an underscore it computes with the
-- difference of NULL and the label, which is `none` here.
abbrev with_type : Found → CString → Option (ℕ × CString)
with_type (found t) instance = some (t, instance)
with_type (failed e) instance = none

pub data Split : Type 0 where
  undefined : Split
  no_match : Split
  function_label : ℕ → CString → Split

abbrev split_at : CString → CString → Split
split_at [] instance = no_match
split_at (x ∷ s) instance =
    if ltb (length (x ∷ s)) max_name_length
    then (elim (lookup_function_type (some (x ∷ s))) [
      | found t ↦ function_label t instance
      | failed e ↦ no_match
    ])
    else no_match

unfoldable pub split_function_label : CString → Split
split_function_label label = elim (strchr b'_' label) [
  | none ↦ undefined
  | some (floor, instance) ↦ split_at floor instance
]

-- `find_string`
unfoldable pub find_string : CString → List CString → Bool
find_string s [] = false
find_string s (x ∷ xs) = str_eq s x || find_string s xs

module _ ⦃os : Os⦄ ⦃lc : Libconfig os⦄ where
  -- A text that is not found stays NULL.
  abbrev found_text : Option (Option CString) → Option CString
  found_text none = none
  found_text (some s) = s

  unfoldable pub get_config_node_os_desc : Setting → M FunctionOsDesc
  get_config_node_os_desc node = do
    compatible ← get_config_node_string node (c "compatible_id")
    sub_compatible ← get_config_node_string node (c "sub_compatible_id")
    return (record {
      compatible_id = found_text compatible;
      sub_compatible_id = found_text sub_compatible;
    })

  -- A node that has to be there, and a text that must not be NULL.
  abbrev pub elem_or : {A : Type 0} → Setting → ℕ → M A → (Setting → M A) → M A
  elem_or list i missing there = do
    node ← ask (lc.get_elem list i)
    elim node [ none ↦ missing | some n ↦ there n ]

  abbrev pub text_or : {A : Type 0} → Setting → M A → (CString → M A) → M A
  text_or node missing there = do
    s ← ask (lc.get_string node)
    elim s [ none ↦ missing | some t ↦ there t ]

  abbrev pub require_group : Setting → M (Unit {0})
  require_group node = do t ← ask (lc.type node); require (is_group t) invalid_type

  import_os_desc : Ptr → Function → Setting → M (Unit {0})
  import_os_desc f func node = do
    require_group node
    if_member node (c "interface") (raise missing_tag) (λ interf.
        text_or interf (raise other_error) (λ interface. do
          require (find_string interface (os_desc_iname func.type)) not_supported
          d ← get_config_node_os_desc node
          set_interf_os_desc f (some interface) d))

  -- A loop over `n` elements of a list from the index `i` on.
  unfoldable pub each_elem :
      (Setting → M (Unit {0})) → M (Unit {0}) → Setting → ℕ → ℕ → M (Unit {0})
  each_elem act missing list zero i = return tt
  each_elem act missing list (suc n) i = do
    elem_or list i missing act
    each_elem act missing list n (suc i)

  unfoldable pub import_function_os_descs : Setting → Ptr → M (Unit {0})
  unfolding import_os_desc
  import_function_os_descs root f = do
    func ← load function_at f
    count ← ask (lc.length root)
    each_elem (import_os_desc f func) (raise other_error) root count 0

  -- `if (node) ...`
  abbrev pub optional : Setting → CString → (Setting → M (Unit {0})) → M (Unit {0})
  optional root name act = if_member root name (return tt) act

  has_label : CString → Function → Bool
  has_label label f = elim f.label [ none ↦ false | some l ↦ str_eq l label ]

  -- NULL if no function fits.
  unfoldable pub lookup_function : Ptr → CString → M Ptr
  unfolding has_label
  lookup_function g label = do
    gad ← load gadget_at g
    f ← find_first function_at (λ _ f. has_label label f) gad.functions
    if not (f == null) then return f else (elim (split_function_label label) [
      | undefined ↦ λ m. fault
      | no_match ↦ return null
      | function_label type instance ↦ get_function g type instance
    ])

  -- A label that names a function of the gadget.
  pub labelled : Ptr → Setting → M Ptr
  labelled p node = text_or node (raise other_error) (λ label. do
    conf ← load config_at p
    target ← lookup_function conf.parent label
    require (not (target == null)) not_found
    return target)

  unfoldable pub import_binding_string : Setting → Ptr → M (Unit {0})
  unfolding labelled
  import_binding_string root p = do
    target ← labelled p root
    func ← load function_at target
    add_config_function p (some func.name) target

  -- The name is optional: otherwise it is the function's.
  pub binding_name : Setting → Ptr → M CString
  binding_name root target =
      if_member root (c "name") (do func ← load function_at target; return func.name)
        (λ node. do
          t ← ask (lc.type node)
          require (is_string t) invalid_type
          text_or node (raise other_error) return)

  -- The language of a group of texts.
  unfoldable pub get_lang : Setting → M ℕ
  get_lang root = if_member root (c "lang") (raise missing_tag) (λ node. do
    t ← ask (lc.type node)
    require (is_int t) invalid_type
    lang ← ask (lc.get_int node)
    return (to_unsigned 32 lang))

  -- An optional text.
  unfoldable pub get_text : Setting → CString → M (Option CString)
  get_text root name = if_member root name (return none) (λ node. do
    t ← ask (lc.type node)
    require (is_string t) invalid_type
    ask (lc.get_string node))

  unfoldable pub import_config_strs_lang : Ptr → Setting → M (Unit {0})
  import_config_strs_lang p root = do
    lang ← get_lang root
    text ← get_text root (c "configuration")
    set_config_strs p lang text

  unfoldable pub import_config_strings : Setting → Ptr → M (Unit {0})
  import_config_strings root p = do
    count ← ask (lc.length root)
    each_elem (λ node. do require_group node; import_config_strs_lang p node) (λ m. fault) root
        count 0

  -- An optional number.
  abbrev pub number : Setting → CString → (ℤ → M (Unit {0})) → M (Unit {0})
  number root name set = optional root name (λ node. do
    t ← ask (lc.type node)
    require (is_int t) invalid_type
    v ← ask (lc.get_int node)
    set v)

  unfoldable pub import_config_attrs : Setting → Ptr → M (Unit {0})
  import_config_attrs root p = do
    number root (c "bmAttributes") (set_config_bm_attrs p)
    number root (c "bMaxPower") (set_config_max_power p)

  -- An optional section, which has to be of this type.
  abbrev pub section : Setting → CString → Bool → (Setting → M (Unit {0})) → M (Unit {0})
  section root name list act = optional root name (λ node. do
    t ← ask (lc.type node)
    require (if list then is_list t else is_group t) invalid_type
    act node)
