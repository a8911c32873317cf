-- ===== src/Query.antt =====
-- usbg.c, lookups in the lists, and the accessors that return NULL or an error for NULL.
pub mod First
pub mod Walk
use libusbgx.Base.{
  take, length, ◌-◌, ℕ, Bool, true, false, ◌&&◌, ◌||◌, List, [], ◌∷◌, Option, none, some, ◌==◌,
  if◌then◌else◌, take, length, ◌-◌,
}
use libusbgx.CStr.{CString, str_eq}
use libusbgx.Error.{UsbgError, invalid_param}
use libusbgx.Heap.{Ptr, null, State, Gadget, Config, Function, Binding, Udc, Mem}
use libusbgx.Heap.Monad.{
  M, Slot, return, raise, load, state_at, gadget_at, config_at, function_at, binding_at, udc_at,
  ◌>>=◌,
}
use libusbgx.Os.{Os}

-- `f->type == type && !strcmp(f->instance, instance)`
abbrev pub is_function : ℕ → CString → Function → Bool
is_function type instance f = f.type == type && str_eq f.instance_name instance

-- `c->id == id && (!label || !strcmp(c->label, label))`
abbrev label_matches : Option CString → CString → Bool
label_matches none l = true
label_matches (some label) l = str_eq l label

abbrev pub is_config : ℕ → Option CString → Config → Bool
is_config id label conf = conf.id == id && label_matches label conf.label

module _ ⦃os : Os⦄ where
  -- TAILQ_FOREACH with a test: the first entry that passes, or NULL.
  unfoldable pub find_first : {A : Type 0} → Slot A → (Ptr → A → Bool) → List Ptr → M Ptr
  find_first slot test [] = return null
  find_first slot test (p ∷ ps) = do
    a ← load slot p
    if test p a then return p else find_first slot test ps

  unfoldable pub get_gadget : Ptr → CString → M Ptr
  unfolding find_first
  get_gadget s name = do
    st ← load state_at s
    find_first gadget_at (λ _ g. str_eq g.name name) st.gadgets

  unfoldable pub get_function : Ptr → ℕ → CString → M Ptr
  unfolding find_first
  get_function g type instance = do
    gad ← load gadget_at g
    find_first function_at (λ _ f. is_function type instance f) gad.functions

  unfoldable pub get_config : Ptr → ℕ → Option CString → M Ptr
  unfolding find_first
  get_config g id label = do
    gad ← load gadget_at g
    find_first config_at (λ _ conf. is_config id label conf) gad.configs

  unfoldable pub get_udc : Ptr → CString → M Ptr
  unfolding find_first
  get_udc s name = do st ← load state_at s; find_first udc_at (λ _ u. str_eq u.name name) st.udcs

  unfoldable pub get_binding : Ptr → CString → M Ptr
  unfolding find_first
  get_binding p name = do
    conf ← load config_at p
    find_first binding_at (λ _ b. str_eq b.name name) conf.bindings

  unfoldable pub get_link_binding : Ptr → Ptr → M Ptr
  unfolding find_first
  get_link_binding p f = do
    conf ← load config_at p
    find_first binding_at (λ _ b. b.target == f) conf.bindings

  -- `p ? p->field : NULL`, with `none` for NULL.
  abbrev accessor : {A B : Type 0} → Slot A → (A → B) → Ptr → M (Option B)
  accessor slot field p =
      if p == null then return none else do a ← load slot p; return (some (field a))

  unfoldable pub get_configfs_path : Ptr → M (Option CString)
  get_configfs_path = accessor state_at (λ s. s.configfs_path)

  unfoldable pub get_gadget_name : Ptr → M (Option CString)
  get_gadget_name = accessor gadget_at (λ g. g.name)

  unfoldable pub get_udc_name : Ptr → M (Option CString)
  get_udc_name = accessor udc_at (λ u. u.name)

  -- The text that a buffer of `len` bytes, at least one, then holds, and the length of the whole
  -- text.
  abbrev accessor_s : {A : Type 0} → Slot A → (A → CString) → Ptr → ℕ → M (CString × ℕ)
  accessor_s slot field p len =
      if p == null
      then raise invalid_param
      else do a ← load slot p; return (take (len - 1) (field a), length (field a))

  unfoldable pub get_configfs_path_s : Ptr → ℕ → M (CString × ℕ)
  get_configfs_path_s = accessor_s state_at (λ s. s.configfs_path)

  unfoldable pub get_gadget_name_s : Ptr → ℕ → M (CString × ℕ)
  get_gadget_name_s = accessor_s gadget_at (λ g. g.name)

  unfoldable pub get_udc_name_s : Ptr → ℕ → M (CString × ℕ)
  get_udc_name_s = accessor_s udc_at (λ u. u.name)

  unfoldable pub get_config_label_s : Ptr → ℕ → M (CString × ℕ)
  get_config_label_s = accessor_s config_at (λ conf. conf.label)

  unfoldable pub get_function_instance_s : Ptr → ℕ → M (CString × ℕ)
  get_function_instance_s = accessor_s function_at (λ f. f.instance_name)

  unfoldable pub get_binding_name_s : Ptr → ℕ → M (CString × ℕ)
  get_binding_name_s = accessor_s binding_at (λ b. b.name)

  unfoldable pub get_config_label : Ptr → M (Option CString)
  get_config_label = accessor config_at (λ conf. conf.label)

  unfoldable pub get_function_instance : Ptr → M (Option CString)
  get_function_instance = accessor function_at (λ f. f.instance_name)

  unfoldable pub get_binding_name : Ptr → M (Option CString)
  get_binding_name = accessor binding_at (λ b. b.name)

  -- NULL for NULL.
  unfoldable pub get_binding_target : Ptr → M Ptr
  get_binding_target b =
      if b == null then return null else do x ← load binding_at b; return x.target

  unfoldable pub get_os_desc_binding : Ptr → M Ptr
  get_os_desc_binding g = do gad ← load gadget_at g; return gad.os_desc_binding

  unfoldable pub get_config_id : Ptr → M ℕ
  get_config_id p =
      if p == null then raise invalid_param else do conf ← load config_at p; return conf.id

  unfoldable pub get_function_type : Ptr → M ℕ
  get_function_type p =
      if p == null then raise invalid_param else do f ← load function_at p; return f.type
