-- ===== src/Create.antt =====
-- usbg.c, creation of gadgets, functions, configurations and bindings. Each makes the structure,
-- then the directory or link, then its attributes, and puts the structure into its list last; the
-- cleanup labels undo what was done. The caller's `*g`, `*f` or `*c` is the result.
pub mod Configs
use libusbgx.Base.{ℕ, not, ◌||◌, [], ◌∷◌, Option, none, some, leb, ◌==◌, if◌then◌else◌}
use libusbgx.Base.Int.{ℤ, pos, negsuc}
use libusbgx.Attrs.{GadgetAttrs, ConfigAttrs, set_gadget_attrs, set_config_attrs}
use libusbgx.CStr.{CString, c}
use libusbgx.Error.{invalid_param, path_too_long, exist}
use libusbgx.Files.{join, fits, rm_dir, read_string, write_hex}
use libusbgx.FunctionOps.{FunctionOps}
use libusbgx.Heap.{Ptr, null}
use libusbgx.Heap.Insert.{insert_by_name}
use libusbgx.Heap.Monad.{
  M, return, raise, require, on_error, ignored, io, load, store, state_at, gadget_at, config_at,
  function_at, binding_at, ◌>>=◌, ◌>>◌,
}
use libusbgx.Objects.{
  allocate_gadget, allocate_config, allocate_function, allocate_binding, free_gadget, free_config,
  free_function, free_binding,
}
use libusbgx.Os.{Os}
use libusbgx.Os.Io.{call, ignore}
use libusbgx.Query.{get_gadget, get_function, get_config, get_udc, get_binding, get_link_binding}
use libusbgx.Strings.{GadgetStrs, set_gadget_strs, set_config_string}
use libusbgx.Udc.{set_udc_gadget, set_gadget_udc}

abbrev pub lang_us_eng : ℕ
lang_us_eng = 0x409

abbrev pub default_config_label : CString
default_config_label = c "config"

abbrev given {ℓ} : {A : Type ℓ} → Option A → A → A
given none d = d
given (some a) d = a

-- `id <= 0 || id > 255` is refused.
abbrev valid_id : ℤ → Option ℕ
valid_id (pos n) = if n == 0 || not (leb n 255) then none else some n
valid_id (negsuc n) = none

module _ ⦃os : Os⦄ where
  -- The two pointers between a new gadget and the UDC that its UDC file names.
  unfoldable pub link_udc : Ptr → Ptr → M (Unit {0})
  unfolding set_gadget_udc set_udc_gadget
  link_udc g u = do set_gadget_udc g u; if u == null then return tt else set_udc_gadget u g

  unfoldable pub create_empty_gadget : Ptr → CString → M Ptr
  unfolding link_udc
  create_empty_gadget s name = do
    st ← load state_at s
    let gpath = join st.path name
    require (fits gpath) path_too_long
    g ← allocate_gadget st.path name s
    on_error (io (call (os.mkdir gpath))) (free_gadget g)
    buf ←
        on_error (io (read_string st.path name (c "UDC")))
          (io (ignore (os.rmdir gpath)) >> free_gadget g)
    u ← get_udc s buf
    link_udc g u
    return g

  -- The label `rm_gadget`.
  discard_gadget : Ptr → M (Unit {0})
  discard_gadget g = do
    gad ← load gadget_at g
    ignored (io (rm_dir gad.path gad.name))
    free_gadget g

  insert_gadget : Ptr → Ptr → M (Unit {0})
  insert_gadget s g = do
    st ← load state_at s
    gs ← insert_by_name gadget_at (λ gad. gad.name) g st.gadgets
    store state_at s (record st { gadgets = gs })

  -- A gadget that is not there yet, set up by `init`.
  create_with : Ptr → CString → (Ptr → M (Unit {0})) → M Ptr
  unfolding create_empty_gadget discard_gadget insert_gadget
  create_with s name init = if s == null then raise invalid_param else do
    old ← get_gadget s name
    require (old == null) exist
    g ← create_empty_gadget s name
    on_error (init g) (discard_gadget g)
    insert_gadget s g
    return g

  write_ids : Ptr → CString → ℕ → ℕ → M (Unit {0})
  write_ids s name vendor product = do
    st ← load state_at s
    io (write_hex 4 st.path name (c "idVendor") vendor)
    io (write_hex 4 st.path name (c "idProduct") product)

  unfoldable pub create_gadget_vid_pid : Ptr → CString → ℕ → ℕ → M Ptr
  unfolding create_with write_ids
  create_gadget_vid_pid s name vendor product =
      create_with s name (λ g. write_ids s name vendor product)

  set_attrs_if : {A : Type 0} → (A → M (Unit {0})) → Option A → M (Unit {0})
  set_attrs_if set none = return tt
  set_attrs_if set (some a) = set a

  unfoldable pub create_gadget : Ptr → CString → Option GadgetAttrs → Option GadgetStrs → M Ptr
  unfolding create_with set_attrs_if
  create_gadget s name attrs strs = create_with s name (λ g. do
    set_attrs_if (set_gadget_attrs g) attrs
    set_attrs_if (set_gadget_strs g lang_us_eng) strs)

  insert_config : Ptr → Ptr → M (Unit {0})
  insert_config g p = do
    gad ← load gadget_at g
    ps ← insert_by_name config_at (λ conf. conf.name) p gad.configs
    store gadget_at g (record gad { configs = ps })

  set_up_config : Ptr → Option ConfigAttrs → Option (Option CString) → M (Unit {0})
  unfolding set_attrs_if
  set_up_config p attrs strs = do
    set_attrs_if (set_config_attrs p) attrs
    set_attrs_if (set_config_string p lang_us_eng) strs

  -- From the path of the new directory on.
  unfoldable pub place_config :
      Ptr → Ptr → CString → Option ConfigAttrs → Option (Option CString) → M Ptr
  unfolding insert_config set_up_config
  place_config g p cpath attrs strs = do
    on_error (require (fits cpath) path_too_long) (free_config p)
    on_error (io (call (os.mkdir cpath))) (free_config p)
    on_error (set_up_config p attrs strs) (io (ignore (os.rmdir cpath)) >> free_config p)
    insert_config g p
    return p

  -- A configuration whose id no other one has.
  new_config : Ptr → ℕ → CString → Option ConfigAttrs → Option (Option CString) → M Ptr
  unfolding place_config
  new_config g id label attrs strs = do
    gad ← load gadget_at g
    let dir = join gad.path (join gad.name (c "configs"))
    require (fits dir) path_too_long
    p ← allocate_config dir label id g
    conf ← load config_at p
    place_config g p (join dir conf.name) attrs strs

  make_config : Ptr → ℕ → CString → Option ConfigAttrs → Option (Option CString) → M Ptr
  unfolding new_config
  make_config g id label attrs strs = do
    old ← get_config g id none
    require (old == null) exist
    new_config g id label attrs strs

  -- A NULL label is `none`, and so is a NULL `c_attrs` or `c_strs`.
  unfoldable pub create_config :
      Ptr → ℤ → Option CString → Option ConfigAttrs → Option (Option CString) → M Ptr
  unfolding make_config
  create_config g id label attrs strs =
      if g == null then raise invalid_param else elim (valid_id id) [
        | none ↦ raise invalid_param
        | some n ↦ make_config g n (given label default_config_label) attrs strs
      ]

  insert_binding : Ptr → Ptr → M (Unit {0})
  insert_binding p b = do
    conf ← load config_at p
    bs ← insert_by_name binding_at (λ x. x.name) b conf.bindings
    store config_at p (record conf { bindings = bs })

  make_binding : Ptr → CString → Ptr → M (Unit {0})
  unfolding insert_binding
  make_binding p name f = do
    same_name ← get_binding p name
    require (same_name == null) exist
    same_link ← get_link_binding p f
    require (same_link == null) exist
    func ← load function_at f
    conf ← load config_at p
    let fpath = join func.path func.name
    let dir = join conf.path conf.name
    let bpath = join dir name
    require (fits fpath) path_too_long
    require (fits dir) path_too_long
    b ← allocate_binding dir name p f
    on_error (require (fits bpath) path_too_long) (free_binding b)
    on_error (io (call (os.symlink fpath bpath))) (free_binding b)
    insert_binding p b

  -- A NULL name is `none`: the binding then has the function's name.
  unfoldable pub add_config_function : Ptr → Option CString → Ptr → M (Unit {0})
  unfolding make_binding
  add_config_function p name f =
      if p == null || f == null
      then raise invalid_param
      else do func ← load function_at f; make_binding p (given name func.name) f

  module _ (ops : FunctionOps os) where
    insert_function : Ptr → Ptr → M (Unit {0})
    insert_function g f = do
      gad ← load gadget_at g
      fs ← insert_by_name function_at (λ func. func.name) f gad.functions
      store gadget_at g (record gad { functions = fs })

    unfoldable pub set_function_attrs : Ptr → Option ops.Attrs → M (Unit {0})
    set_function_attrs f none = raise invalid_param
    set_function_attrs f (some a) =
        if f == null
        then raise invalid_param
        else do func ← load function_at f; ops.set_attrs func.type f a

    -- An `f_attrs` that is NULL is left out.
    unfoldable pub get_function_attrs : Ptr → M ops.Filled
    get_function_attrs f =
        if f == null
        then raise invalid_param
        else do func ← load function_at f; ops.get_attrs func.type f

    make_function : Ptr → ℕ → CString → Option ops.Attrs → M Ptr
    unfolding insert_function set_function_attrs set_attrs_if
    make_function g type instance attrs = do
      old ← get_function g type instance
      require (old == null) exist
      gad ← load gadget_at g
      let dir = join gad.path (join gad.name (c "functions"))
      require (fits dir) path_too_long
      f ← allocate_function dir type instance g
      func ← load function_at f
      let fpath = join dir func.name
      on_error (require (fits fpath) path_too_long) (free_function f)
      on_error (io (call (os.mkdir fpath))) (free_function f)
      on_error (set_attrs_if (λ a. set_function_attrs f (some a)) attrs)
          (ignored (io (rm_dir fpath [])) >> free_function f)
      insert_function g f
      return f

    -- A NULL instance is `none`; an empty one is refused as well.
    unfoldable pub create_function : Ptr → ℕ → Option CString → Option ops.Attrs → M Ptr
    unfolding make_function
    create_function g type none attrs = raise invalid_param
    create_function g type (some []) attrs = raise invalid_param
    create_function g type (some (x ∷ s)) attrs =
        if g == null then raise invalid_param else make_function g type (x ∷ s) attrs
