-- ===== src/Split/RoundTrip.antt =====
-- The names of directories, put together and taken apart.
use libusbgx.Base.{
  ℕ, zero, suc, ◌/◌, ◌%◌, ◌^◌, ◌<◌, ◌≤◌, ◌≡◌, ◌≢◌, refl, Bool, true, false, not, ◌&&◌, List, [],
  ◌∷◌, ◌++◌, some, arith, get_elem?,
}
use mathlib.Core.List.{append-nil}
use libusbgx.Base.Int.{pos}
use libusbgx.CStr.{CString, isspace}
use libusbgx.CStr.Search.{lacks, strchr-append, strrchr-append, lacks-append}
use libusbgx.Names.{get_function_type_str, function_type_names}
use libusbgx.Names.Laws.{lookup_function_type_iff}
use libusbgx.Num.{digit, print_base, print_nat, strtol, to_int, long_max, eat_digits}
use libusbgx.Num.RoundTrip.{print_base-digit, strtol-print_nat}
use libusbgx.Os.{Os}
use libusbgx.Os.Io.{ok}
use libusbgx.Split.{
  function_dir_name, config_dir_name, is_empty, parse_id, split_function_instance_type,
  split_config_label_id,
}

no_dots : List CString → Bool
unfolding lacks
no_dots [] = true
no_dots (n ∷ names) = not (is_empty n) && lacks b'.' n && no_dots names

no_dots-get :
    (names : List CString) (k : ℕ) (n : CString)
    → no_dots names ≡ true
    → get_elem? names k ≡ some n
    → (is_empty n ≡ false) × (lacks b'.' n ≡ true)
unfolding no_dots
no_dots-get [] k n all h = cc
no_dots-get (x ∷ names) zero n all h = ground arith
no_dots-get (x ∷ names) (suc k) n all h = no_dots-get names k n (ground arith) h

lacks-print_base : (base k n : ℕ) → lacks b'.' (print_base base k n) ≡ true
unfolding print_base lacks digit
lacks-print_base base zero n = refl
lacks-print_base base (suc k) n = ground (
  arith,
  lacks-print_base base k (n / base),
  lacks-append b'.' (print_base base k (n / base)) (digit (n % base) ∷ []),
)

module _ ⦃os : Os⦄ (w : os.World) (memory : (os.malloc w).0 ≡ true) where
  filled-is_empty : (s : CString) → s ≢ [] → is_empty s ≡ false
  filled-is_empty [] h = absurd (h refl)
  filled-is_empty (x ∷ s) h = refl

  -- `usbg_split_function_instance_type` takes the directory name of a function, made of the name
  -- of a supported type and an instance that is not empty, apart into that type and instance,
  -- provided that the allocation succeeds.
  pub split_function_instance_type-function_dir_name :
      (k : ℕ) (n instance : CString)
      → get_function_type_str k ≡ some n
      → instance ≢ []
      → split_function_instance_type (function_dir_name n instance) w
        ≡ (ok (k, instance), (os.malloc w).1)
  unfolding split_function_instance_type function_dir_name get_function_type_str no_dots
  split_function_instance_type-function_dir_name k n instance e ne =
      let (filled, lack) = no_dots-get function_type_names k n refl e in
      let looked = (lookup_function_type_iff n k).1 e in
      ground (arith, strchr-append b'.' n instance lack, filled-is_empty instance ne)

  first_digit : (d : ℕ) → d < 10 → isspace (digit d) ≡ false
  unfolding digit
  first_digit d h = ground arith

  module _ (label : CString) (n : ℕ) (filled : label ≢ []) (small : n ≤ long_max) where
    parse_id-strtol :
        n % 2 ^ 32 ≤ 255
        → parse_id (record { value = pos n; range = false; rest = [] }) ≡ ok (n % 2 ^ 32)
    unfolding parse_id to_int
    parse_id-strtol h = ground arith

    split_at :
        (id_string : CString) (d : ℕ) (s : CString)
        → id_string ≡ digit d ∷ s
        → d < 10
        → lacks b'.' id_string ≡ true
        → strtol 10 id_string ≡ record { value = pos n; range = false; rest = [] }
        → n % 2 ^ 32 ≤ 255
        → split_config_label_id (label ++ b'.' ∷ id_string) w
          ≡ (ok (label, n % 2 ^ 32), (os.malloc w).1)
    unfolding split_config_label_id
    split_at id_string d s e p lack value h = ground (
      arith,
      strrchr-append b'.' label id_string lack,
      filled-is_empty label filled,
      first_digit d p,
      parse_id-strtol h,
    )

    -- `usbg_split_config_label_id` takes a directory name that is made of a label that is not empty
    -- and a number that fits a long, and is at most 255 modulo 2 ^ 32, apart into the label and the
    -- number modulo 2 ^ 32, provided that the allocation succeeds.
    pub split_config_label_id-config_dir_name :
        n % 2 ^ 32 ≤ 255
        → split_config_label_id (config_dir_name label n) w
          ≡ (ok (label, n % 2 ^ 32), (os.malloc w).1)
    unfolding config_dir_name print_nat eat_digits
    split_config_label_id-config_dir_name h =
        let (d, s, p, e) = print_base-digit 10 (suc n) n (omega arith) (omega arith) in
        let value = strtol-print_nat n [] small refl in
        split_at (print_nat n) d s e p (lacks-print_base 10 (suc n) n) (rw append-nil at value) h
