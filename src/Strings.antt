-- ===== src/Strings.antt =====
-- usbg.c, the texts of gadgets and configurations, in a directory for each language.
use libusbgx.Base.{ℕ, List, [], ◌∷◌, Option, none, some, ltb, ◌==◌, if◌then◌else◌}
use libusbgx.Base.Int.{pos, negsuc}
use libusbgx.CStr.{CString, c}
use libusbgx.Error.{invalid_param, path_too_long, no_mem, other_error}
use libusbgx.Files.{fits, file_select, scandir, check_dir, write_string, read_string_alloc}
use libusbgx.Heap.{Ptr, null}
use libusbgx.Heap.Monad.{M, return, raise, require, io, load, gadget_at, config_at, ◌>>=◌, ◌>>◌}
use libusbgx.Names.{get_gadget_str_name}
use libusbgx.Num.{Parsed, strtol}
use libusbgx.Os.{Os}
use libusbgx.Os.Io.{call, allocate}
use libusbgx.Remove.{strings_dir, lang_dir}

-- `struct usbg_gadget_strs`; `none` is a NULL text.
pub record GadgetStrs : Type 0 where
  pub manufacturer : Option CString
  pub product : Option CString
  pub serial : Option CString

module _ ⦃os : Os⦄ where
  -- The directory of the language, which must exist.
  unfoldable pub existing_lang_dir : CString → CString → ℕ → M CString
  existing_lang_dir path name lang = do
    let dir = lang_dir path name lang
    require (fits dir) path_too_long
    io (call (os.opendir dir))
    return dir

  -- The same, made if it is not there.
  unfoldable pub made_lang_dir : CString → CString → ℕ → M CString
  made_lang_dir path name lang = do
    let dir = lang_dir path name lang
    require (fits dir) path_too_long
    io (check_dir dir)
    return dir

  parse_gadget_strs : CString → CString → ℕ → M GadgetStrs
  unfolding existing_lang_dir
  parse_gadget_strs path name lang = do
    dir ← existing_lang_dir path name lang
    mnf ← io (read_string_alloc dir [] (c "manufacturer"))
    prd ← io (read_string_alloc dir [] (c "product"))
    serno ← io (read_string_alloc dir [] (c "serialnumber"))
    return (record { manufacturer = some mnf; product = some prd; serial = some serno })

  unfoldable pub get_gadget_strs : Ptr → ℕ → M GadgetStrs
  unfolding parse_gadget_strs
  get_gadget_strs g lang =
      if g == null
      then raise invalid_param
      else do gad ← load gadget_at g; parse_gadget_strs gad.path gad.name lang

  parse_config_strs : CString → CString → ℕ → M CString
  unfolding existing_lang_dir
  parse_config_strs path name lang = do
    dir ← existing_lang_dir path name lang
    io (read_string_alloc dir [] (c "configuration"))

  unfoldable pub get_config_strs : Ptr → ℕ → M CString
  unfolding parse_config_strs
  get_config_strs p lang =
      if p == null
      then raise invalid_param
      else do conf ← load config_at p; parse_config_strs conf.path conf.name lang

  -- `res < 65535` for the number that the whole name stands for in base 16.
  abbrev lang_of : Parsed → Option ℕ
  lang_of p = elim p.rest [
    | [] ↦ elim p.value [ pos n ↦ if ltb n 65535 then some n else none | negsuc n ↦ none ]
    | x ∷ s ↦ none
  ]

  langs_of : List CString → M (List ℕ)
  langs_of [] = return []
  langs_of (n ∷ ns) = elim (lang_of (strtol 16 n)) [
    | none ↦ raise other_error
    | some lang ↦ (do rest ← langs_of ns; return (lang ∷ rest))
  ]

  get_strs_langs_by_path : CString → CString → M (List ℕ)
  unfolding langs_of
  get_strs_langs_by_path path name = do
    let dir = strings_dir path name
    require (fits dir) path_too_long
    ns ← io (scandir file_select dir)
    io (allocate no_mem)
    langs_of ns

  unfoldable pub get_gadget_strs_langs : Ptr → M (List ℕ)
  unfolding get_strs_langs_by_path
  get_gadget_strs_langs g = do gad ← load gadget_at g; get_strs_langs_by_path gad.path gad.name

  unfoldable pub get_config_strs_langs : Ptr → M (List ℕ)
  unfolding get_strs_langs_by_path
  get_config_strs_langs p = do conf ← load config_at p; get_strs_langs_by_path conf.path conf.name

  unfoldable pub set_gadget_str : Ptr → ℕ → ℕ → Option CString → M (Unit {0})
  unfolding made_lang_dir
  set_gadget_str g str lang val =
      if g == null then raise invalid_param else elim (get_gadget_str_name str) [
        | none ↦ raise invalid_param
        | some file ↦ do
          gad ← load gadget_at g
          dir ← made_lang_dir gad.path gad.name lang
          io (write_string dir [] file val)
      ]

  -- SET_GADGET_STR: nothing for a NULL text.
  set_if_given : CString → CString → Option CString → M (Unit {0})
  set_if_given dir file none = return tt
  set_if_given dir file (some text) = io (write_string dir [] file (some text))

  unfoldable pub set_gadget_strs : Ptr → ℕ → GadgetStrs → M (Unit {0})
  unfolding made_lang_dir set_if_given
  set_gadget_strs g lang strs = if g == null then raise invalid_param else do
    gad ← load gadget_at g
    dir ← made_lang_dir gad.path gad.name lang
    set_if_given dir (c "manufacturer") strs.manufacturer
    set_if_given dir (c "product") strs.product
    set_if_given dir (c "serialnumber") strs.serial

  -- The setters of one text.
  set_text : CString → Ptr → ℕ → Option CString → M (Unit {0})
  unfolding made_lang_dir
  set_text file g lang none = raise invalid_param
  set_text file g lang (some text) = if g == null then raise invalid_param else do
    gad ← load gadget_at g
    dir ← made_lang_dir gad.path gad.name lang
    io (write_string dir [] file (some text))

  unfoldable pub set_gadget_serial_number : Ptr → ℕ → Option CString → M (Unit {0})
  unfolding set_text
  set_gadget_serial_number = set_text (c "serialnumber")

  unfoldable pub set_gadget_manufacturer : Ptr → ℕ → Option CString → M (Unit {0})
  unfolding set_text
  set_gadget_manufacturer = set_text (c "manufacturer")

  unfoldable pub set_gadget_product : Ptr → ℕ → Option CString → M (Unit {0})
  unfolding set_text
  set_gadget_product = set_text (c "product")

  unfoldable pub set_config_string : Ptr → ℕ → Option CString → M (Unit {0})
  unfolding made_lang_dir
  set_config_string p lang none = raise invalid_param
  set_config_string p lang (some text) = if p == null then raise invalid_param else do
    conf ← load config_at p
    dir ← made_lang_dir conf.path conf.name lang
    io (write_string dir [] (c "configuration") (some text))

  unfoldable pub set_config_strs : Ptr → ℕ → Option CString → M (Unit {0})
  unfolding set_config_string
  set_config_strs p lang configuration = set_config_string p lang configuration
