-- ===== src/Funcs/Uvc/Never.antt =====
-- The setters of all attributes of uvc.c, which leave their tables.
use libusbgx.Base.{ℕ, suc, ◌≡◌, refl, true, get_elem?, none, []}
use libusbgx.CStr.{CString}
use libusbgx.Error.{path_too_long}
use libusbgx.Files.{fits}
use libusbgx.Funcs.Attrs.{Union, set_field}
use libusbgx.Funcs.Uvc.{
  uvc_config_attr, config_path, format_path, set_config_attr_val, set_config_attrs, set_config_each,
}
use libusbgx.Funcs.Uvc.Formats.{FormatUnion, set_format_attrs, set_format_each, set_format_attr_val}
use libusbgx.Heap.{Ptr, Function, Mem}
use libusbgx.Heap.Monad.{fault, require, load, function_at, ◌>>◌}
use libusbgx.Heap.Post.{Live, load-returned}
use libusbgx.Heap.Returned.{IfReturned, if_fault, IfReturned-bind, IfReturned-never}
use libusbgx.Os.{Os}

module _ ⦃os : Os⦄ where
  -- Beyond the table.
  set_config_attr_val-beyond :
      (f : Ptr) (i : ℕ) (v : Union) (m : Mem os)
      → get_elem? uvc_config_attr i ≡ none
      → IfReturned (λ _. ⊥) (set_config_attr_val f i v m)
  unfolding set_config_attr_val set_field
  set_config_attr_val-beyond f i v m e =
      IfReturned-bind
        (λ func.
          require (fits (config_path func)) path_too_long
          >> set_field (config_path func) [] uvc_config_attr i v)
        (load function_at f m)
        (λ func m.
          IfReturned-bind (λ _. set_field (config_path func) [] uvc_config_attr i v)
            (require (fits (config_path func)) path_too_long m) (λ _ m. rw e if_fault))

  module _ (f : Ptr) (u : ℕ → Union) where
    Never : ℕ → ℕ → Type 0
    Never n i = (m : Mem os) → IfReturned (λ _. ⊥) (set_config_each f u n i m)

    step-Never : (n i : ℕ) → Never n (suc i) → Never (suc n) i
    unfolding set_config_each Never
    step-Never n i next m =
        IfReturned-bind (λ _. set_config_each f u n (suc i)) (set_config_attr_val f i (u i) m)
          (λ _ m. next m)

    beyond-Never : (n i : ℕ) → get_elem? uvc_config_attr i ≡ none → Never (suc n) i
    unfolding set_config_each Never
    beyond-Never n i e m =
        IfReturned-never (λ _. set_config_each f u n (suc i)) (λ _ absurdity. absurdity)
          (set_config_attr_val-beyond f i (u i) m e)

  -- Setting all attributes of the configuration of a video function does not succeed, whatever the
  -- attributes are. Setting all attributes of a format of a live function faults, where the path of
  -- the format fits its buffer.
  pub set_config_attrs-never :
      (m : Mem os) {f : Ptr} {func : Function} (iattrs : ℕ → Union) (format : CString)
      (fattrs : ℕ → FormatUnion)
      → Live function_at m.heap f func
      → fits (format_path func format) ≡ true
      → IfReturned (λ _. ⊥) (set_config_attrs f iattrs m)
        × (set_format_attrs f format fattrs m ≡ fault)
  unfolding set_config_attrs set_format_attrs set_format_each set_format_attr_val Never
  set_config_attrs-never m {f} iattrs format fattrs live fit = (
    step-Never f iattrs 8 0
        (step-Never f iattrs 7 1
          (step-Never f iattrs 6 2 (step-Never f iattrs 5 3 (beyond-Never f iattrs 4 4 refl))))
        m,
    rw (load-returned {m = m} live, fit),
  )
