-- ===== src/Remove.antt =====
-- usbg.c, the usbg_rm_* functions. A pointer that the C code tests for NULL is tested here.
pub mod Dangling
pub mod Drain
pub mod Configs
use libusbgx.Base.{
  ℕ, zero, suc, ◌%◌, Bool, true, false, List, [], ◌∷◌, ◌++◌, Option, none, some, length, ◌==◌,
  if◌then◌else◌,
}
use libusbgx.CStr.{CString, c}
use libusbgx.Error.{UsbgError, invalid_param, path_too_long}
use libusbgx.Files.{join, fits, rm_file, rm_dir, rm_all_dirs}
use libusbgx.FunctionOps.{FunctionOps}
use libusbgx.Heap.{Ptr, null, State, Gadget, Config, Function, Binding, Mem}
use libusbgx.Heap.Monad.{
  M, Slot, fault, return, raise, require, io, load, store, remove, state_at, gadget_at, config_at,
  function_at, binding_at, ◌>>=◌, ◌>>◌,
}
use libusbgx.Num.{print_hex}
use libusbgx.Objects.{free_binding, free_config, free_function, free_gadget}
use libusbgx.Os.{Os}
use libusbgx.OsDesc.{set_os_desc_config}

-- USBG_RM_RECURSE is bit 0 of the options.
abbrev pub is_recursive : ℕ → Bool
is_recursive opts = opts % 2 == 1

-- "%s/%s/strings", and the directory "0x%x" of a language in it.
abbrev pub strings_dir : CString → CString → CString
strings_dir path name = join path (join name (c "strings"))

unfoldable pub lang_dir : CString → CString → ℕ → CString
lang_dir path name lang = join path (join name (join (c "strings") (c "0x" ++ print_hex 0 lang)))

module _ ⦃os : Os⦄ where
  unfoldable pub rm_binding : Ptr → M (Unit {0})
  rm_binding b = if b == null then raise invalid_param else do
    x ← load binding_at b
    io (rm_file x.path x.name)
    conf ← load config_at x.parent
    store config_at x.parent (record conf { bindings = remove b conf.bindings })
    free_binding b

  -- `while (!TAILQ_EMPTY(...))` on fuel: one round for each entry, and one for the last test.
  -- A loop that went on beyond its fuel is counted as a fault.
  unfoldable pub drain :
      {A : Type 0} → Slot A → (A → List Ptr) → (Ptr → M (Unit {0})) → Ptr → ℕ → M (Unit {0})
  drain slot entries rm p zero = λ m. fault
  drain slot entries rm p (suc k) = do
    a ← load slot p
    elim (entries a) [ [] ↦ return tt | q ∷ _ ↦ (do rm q; drain slot entries rm p k) ]

  unfoldable pub drain_all :
      {A : Type 0} → Slot A → (A → List Ptr) → (Ptr → M (Unit {0})) → Ptr → M (Unit {0})
  unfolding drain
  drain_all slot entries rm p = do
    a ← load slot p
    drain slot entries rm p (suc (length (entries a)))

  rm_strings : CString → CString → M (Unit {0})
  rm_strings path name = do
    let dir = strings_dir path name
    require (fits dir) path_too_long
    io (rm_all_dirs dir)

  unlink_os_desc : Ptr → Ptr → M (Unit {0})
  unlink_os_desc g p = do
    gad ← load gadget_at g
    if gad.os_desc_binding == p then set_os_desc_config g null else return tt

  empty_config : Ptr → M (Unit {0})
  unfolding drain_all rm_binding rm_strings unlink_os_desc
  empty_config p = do
    conf ← load config_at p
    unlink_os_desc conf.parent p
    drain_all config_at (λ conf. conf.bindings) rm_binding p
    rm_strings conf.path conf.name

  unfoldable pub rm_config : Ptr → ℕ → M (Unit {0})
  unfolding empty_config
  rm_config p opts = if p == null then raise invalid_param else do
    if is_recursive opts then empty_config p else return tt
    conf ← load config_at p
    io (rm_dir conf.path conf.name)
    gad ← load gadget_at conf.parent
    store gadget_at conf.parent (record gad { configs = remove p gad.configs })
    free_config p

  -- The inner loop reads the next entry before it removes one, so it runs over the list as it was.
  rm_links : Ptr → List Ptr → M (Unit {0})
  unfolding rm_binding
  rm_links f [] = return tt
  rm_links f (b ∷ bs) = do
    x ← load binding_at b
    if x.target == f then rm_binding b else return tt
    rm_links f bs

  rm_links_in : Ptr → List Ptr → M (Unit {0})
  unfolding rm_links
  rm_links_in f [] = return tt
  rm_links_in f (p ∷ ps) = do conf ← load config_at p; rm_links f conf.bindings; rm_links_in f ps

  unbind_function : Ptr → M (Unit {0})
  unfolding rm_links_in
  unbind_function p = do
    f ← load function_at p
    gad ← load gadget_at f.parent
    rm_links_in p gad.configs

  unfoldable pub rm_config_strs : Ptr → ℕ → M (Unit {0})
  unfolding lang_dir
  rm_config_strs p lang = if p == null then raise invalid_param else do
    conf ← load config_at p
    let dir = lang_dir conf.path conf.name lang
    require (fits dir) path_too_long
    io (rm_dir dir [])

  unfoldable pub rm_gadget_strs : Ptr → ℕ → M (Unit {0})
  unfolding lang_dir
  rm_gadget_strs g lang = if g == null then raise invalid_param else do
    gad ← load gadget_at g
    let dir = lang_dir gad.path gad.name lang
    require (fits dir) path_too_long
    io (rm_dir dir [])

  module _ (ops : FunctionOps os) where
    remove_attrs : ℕ → Ptr → ℕ → M (Unit {0})
    remove_attrs type p opts = elim (ops.remove type) [ none ↦ return tt | some rm ↦ rm p opts ]

    unfoldable pub rm_function : Ptr → ℕ → M (Unit {0})
    unfolding unbind_function remove_attrs
    rm_function p opts = if p == null then raise invalid_param else do
      if is_recursive opts then unbind_function p else return tt
      f ← load function_at p
      remove_attrs f.type p opts
      io (rm_dir f.path f.name)
      gad ← load gadget_at f.parent
      store gadget_at f.parent (record gad { functions = remove p gad.functions })
      free_function p

    empty_gadget : Ptr → ℕ → M (Unit {0})
    unfolding drain_all rm_config rm_function rm_strings
    empty_gadget g opts = do
      drain_all gadget_at (λ gad. gad.configs) (λ p. rm_config p opts) g
      drain_all gadget_at (λ gad. gad.functions) (λ p. rm_function p opts) g
      gad ← load gadget_at g
      rm_strings gad.path gad.name

    unfoldable pub rm_gadget : Ptr → ℕ → M (Unit {0})
    unfolding empty_gadget
    rm_gadget g opts = if g == null then raise invalid_param else do
      if is_recursive opts then empty_gadget g opts else return tt
      gad ← load gadget_at g
      io (rm_dir gad.path gad.name)
      st ← load state_at gad.parent
      store state_at gad.parent (record st { gadgets = remove g st.gadgets })
      free_gadget g
