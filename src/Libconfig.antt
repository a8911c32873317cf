-- ===== src/Libconfig.antt =====
-- What the library takes from libconfig: trees of settings, which are part of the world. It is no
-- code of the repository, so it is a parameter.
use libusbgx.Base.{ℕ, Bool, true, false, Option}
use libusbgx.Base.Int.{ℤ}
use libusbgx.CStr.{CString}
use libusbgx.Heap.Monad.{M, returned}
use libusbgx.Os.{Os}

-- CONFIG_TYPE_INT and its like.
pub data SettingType : Type 0 where
  type_int type_int64 type_float type_string type_bool type_array type_list type_group : SettingType

pub record Libconfig (os : Os) : Type 1 where
  -- A `config_setting_t *` that is not NULL.
  pub Setting : Type 0
  pub get_member : Setting → CString → os.World → Option Setting
  pub get_elem : Setting → ℕ → os.World → Option Setting
  pub length : Setting → os.World → ℕ
  pub type : Setting → os.World → SettingType
  pub get_int : Setting → os.World → ℤ
  pub get_bool : Setting → os.World → Bool
  pub get_string : Setting → os.World → Option CString
  pub name : Setting → os.World → Option CString
  -- The new setting, or NULL. The name may be NULL.
  pub add : Setting → Option CString → SettingType → os.World → Option Setting × os.World
  -- Whether it is CONFIG_TRUE.
  pub set_int : Setting → ℤ → os.World → Bool × os.World
  pub set_bool : Setting → Bool → os.World → Bool × os.World
  pub set_string : Setting → Option CString → os.World → Bool × os.World
  pub set_format_hex : Setting → os.World → Bool × os.World
  -- `config_init` of new memory: the address of a `config_t`, which is not NULL.
  pub init : os.World → ℕ × os.World
  pub read : ℕ → os.File → os.World → Bool × os.World
  pub write : ℕ → os.File → os.World → Bool × os.World
  pub root_setting : ℕ → os.World → Setting
  pub error_text : ℕ → os.World → Option CString
  pub error_line : ℕ → os.World → ℤ
  pub destroy : ℕ → os.World → os.World

abbrev pub is_int : SettingType → Bool
is_int type_int = true
is_int _ = false

abbrev pub is_string : SettingType → Bool
is_string type_string = true
is_string _ = false

abbrev pub is_group : SettingType → Bool
is_group type_group = true
is_group _ = false

abbrev pub is_list : SettingType → Bool
is_list type_list = true
is_list _ = false

module _ ⦃os : Os⦄ where
  -- A question about the tree.
  abbrev pub ask : {A : Type 0} → (os.World → A) → M A
  ask f m = returned (f m.world) m

  -- A change of the tree.
  abbrev pub change : {A : Type 0} → (os.World → A × os.World) → M A
  change f m = returned (f m.world).0 (record m { world = (f m.world).1 })
