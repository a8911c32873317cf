-- ===== src/Schemes/Import/Labels.antt =====
-- The labels that an export gives to functions, taken apart by an import.
use libusbgx.Base.{
  ℕ, zero, suc, ◌+◌, ◌≡◌, refl, Bool, true, false, ◌&&◌, ◌||◌, List, [], ◌∷◌, ◌++◌, some, arith,
  ltb, length, ◌==◌, get_elem?, if◌then◌else◌, Bool-cases, inl, inr,
}
use libusbgx.CStr.{CString, c, strchr, strcmp}
use libusbgx.CStr.Search.{lacks, strchr-append}
use libusbgx.Heap.{Function}
use libusbgx.Names.{
  get_function_type_str, function_type_names, lookup_function_type, found, f_mass_storage,
}
use libusbgx.Names.Laws.{lookup_function_type_iff}
use libusbgx.Schemes.Export.{generate_function_label, max_name_length}
use libusbgx.Schemes.Import.{no_match, function_label, split_function_label, split_at}

filled : CString → Bool
filled [] = false
filled (x ∷ s) = true

-- The name, at the index `i`, is short, and only that of the mass storage function has an
-- underscore.
plain : ℕ → CString → Bool
unfolding lacks filled
plain i n = filled n && ltb (length n) max_name_length && (i == f_mass_storage || lacks b'_' n)

all_plain : ℕ → List CString → Bool
all_plain i [] = true
all_plain i (n ∷ names) = plain i n && all_plain (suc i) names

all_plain-get :
    (names : List CString) (i k : ℕ) (n : CString)
    → all_plain i names ≡ true
    → get_elem? names k ≡ some n
    → plain (i + k) n ≡ true
unfolding all_plain
all_plain-get [] i k n all h = cc
all_plain-get (x ∷ names) i zero n all h = ground arith
all_plain-get (x ∷ names) i (suc k) n all h =
    ground (arith, all_plain-get names (suc i) k n (ground arith) h)

mass_storage-no_match :
    (n instance : CString)
    → get_function_type_str f_mass_storage ≡ some n
    → split_function_label (n ++ b'_' ∷ instance) ≡ no_match
unfolding split_function_label get_function_type_str strchr lookup_function_type strcmp
mass_storage-no_match n instance h = let name : n ≡ c "mass_storage" = cc in rw name

split_at-plain :
    (n instance : CString) {k : ℕ}
    → lookup_function_type (some n) ≡ found k
    → filled n && ltb (length n) max_name_length ≡ true
    → split_at n instance ≡ function_label k instance
unfolding filled
split_at-plain [] instance e h = ground arith
split_at-plain (x ∷ s) instance e h =
    let short : ltb (suc (length s)) max_name_length ≡ true = ground (arith, h) in rw (short, e)

other-function_label :
    (k : ℕ) (n instance : CString)
    → get_function_type_str k ≡ some n
    → (k == f_mass_storage) ≡ false
    → split_function_label (n ++ b'_' ∷ instance) ≡ function_label k instance
unfolding split_function_label get_function_type_str all_plain plain filled
other-function_label k n instance e other =
    let short = all_plain-get function_type_names 0 k n refl e in
    let looked = (lookup_function_type_iff n k).1 e in
    let rest : split_at n instance ≡ function_label k instance =
      split_at-plain n instance looked (ground (arith, short, other)) in
    ground (arith, strchr-append b'_' n instance, short, other, rest)

labelled_mass_storage :
    (f : Function) (n : CString)
    → get_function_type_str f.type ≡ some n
    → (f.type == f_mass_storage) ≡ true
    → split_function_label (generate_function_label f)
      ≡ (if f.type == f_mass_storage then no_match else function_label f.type f.instance_name)
unfolding generate_function_label
labelled_mass_storage f n e h =
    let t : f.type ≡ f_mass_storage = ground (arith, h) in
    let named : get_function_type_str f_mass_storage ≡ some n = rw t at e in
    rw (e, h, mass_storage-no_match n f.instance_name named)

-- An import takes the label that an export made of a function of a supported type apart into that
-- type and the instance, unless the function is a mass storage function: then the label, whose
-- type has an underscore of its own, is taken for one that names no type.
pub split_function_label-generate_function_label :
    (f : Function) (n : CString)
    → get_function_type_str f.type ≡ some n
    → split_function_label (generate_function_label f)
      ≡ (if f.type == f_mass_storage then no_match else function_label f.type f.instance_name)
unfolding generate_function_label
split_function_label-generate_function_label f n e = elim (Bool-cases (f.type == f_mass_storage)) [
  | inl h ↦ labelled_mass_storage f n e h
  | inr h ↦ rw (e, h, other-function_label f.type n f.instance_name e h)
]
