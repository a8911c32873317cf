-- ===== src/Names/Laws.antt =====
-- The lookups of names and the tables that they search.
use libusbgx.Base.{
  ℕ, zero, suc, ◌+◌, ◌≡◌, refl, ◌↔◌, Bool, true, false, ◌&&◌, List, [], ◌∷◌, some, get_elem?, arith,
  Bool-cases, inl, inr, if◌then◌else◌,
}
use libusbgx.CStr.{CString, strcmp, str_eq}
use libusbgx.CStr.Order.{strcmp-eq, strcmp_refl}
use libusbgx.Names.{
  found, lookup_loop, lookup_function_type, lookup_gadget_attr, lookup_gadget_str,
  get_function_type_str, get_gadget_attr_str, get_gadget_str_name, function_type_names,
  gadget_attr_names, gadget_str_names,
}

absent : CString → List CString → Bool
absent n [] = true
absent n (m ∷ ms) = absent n ms && (if str_eq m n then false else true)

distinct : List CString → Bool
unfolding absent
distinct [] = true
distinct (n ∷ ns) = absent n ns && distinct ns

absent-get :
    (n m : CString) (names : List CString) (j : ℕ)
    → absent n names ≡ true
    → get_elem? names j ≡ some m
    → str_eq m n ≡ false
unfolding absent
absent-get n m [] j a h = cc
absent-get n m (x ∷ names) zero a h = ground arith
absent-get n m (x ∷ names) (suc j) a h = ground (arith, absent-get n m names j)

lookup_loop-get :
    (i : ℕ) (names : List CString) (n : CString) (j : ℕ)
    → distinct names ≡ true
    → get_elem? names j ≡ some n
    → lookup_loop i names n ≡ found (i + j)
unfolding distinct
lookup_loop-get i [] n j d h = cc
lookup_loop-get i (x ∷ names) n zero d h = ground (arith, strcmp_refl n)
lookup_loop-get i (x ∷ names) n (suc j) d h =
    ground (arith, absent-get x n names j, lookup_loop-get (suc i) names n j)

get-lookup_loop :
    (i : ℕ) (names : List CString) (n : CString) (k : ℕ)
    → lookup_loop i names n ≡ found k
    → (j : ℕ) × (k ≡ i + j) × (get_elem? names j ≡ some n)
get-lookup_loop i [] n k h = cc
get-lookup_loop i (x ∷ names) n k h = elim (Bool-cases (str_eq n x)) [
  | inl e ↦ (zero, ground arith, ground (arith, strcmp-eq n x))
  | inr e ↦
      let (j, p, q) = get-lookup_loop (suc i) names n k (ground arith) in (suc j, omega arith, q)
]

lookup_loop_iff :
    (names : List CString) (n : CString) (k : ℕ)
    → distinct names ≡ true
    → (lookup_loop 0 names n ≡ found k) ↔ (get_elem? names k ≡ some n)
lookup_loop_iff names n k d = (
  λ h. let (j, p, q) = get-lookup_loop 0 names n k h in ground arith,
  λ h. ground (arith, lookup_loop-get 0 names n k d h),
)

-- `usbg_lookup_function_type` finds the type `k` exactly by the name that
-- `usbg_get_function_type_str` has for it.
pub lookup_function_type_iff :
    (n : CString) (k : ℕ)
    → (lookup_function_type (some n) ≡ found k) ↔ (get_function_type_str k ≡ some n)
unfolding lookup_function_type get_function_type_str strcmp distinct
lookup_function_type_iff n k = lookup_loop_iff function_type_names n k refl

-- `usbg_lookup_gadget_attr` and `usbg_lookup_gadget_str` find `k` exactly by the name that
-- `usbg_get_gadget_attr_str` and `usbg_get_gadget_str_name` have for it.
lookup_gadget_iff :
    (n : CString) (k : ℕ)
    → ((lookup_gadget_attr (some n) ≡ found k) ↔ (get_gadget_attr_str k ≡ some n))
      × ((lookup_gadget_str (some n) ≡ found k) ↔ (get_gadget_str_name k ≡ some n))
unfolding lookup_gadget_attr get_gadget_attr_str lookup_gadget_str get_gadget_str_name strcmp
    distinct
lookup_gadget_iff n k =
    (lookup_loop_iff gadget_attr_names n k refl, lookup_loop_iff gadget_str_names n k refl)

-- `usbg_lookup_function_type`, `usbg_lookup_gadget_attr` and `usbg_lookup_gadget_str` find `k`
-- exactly by the name that `usbg_get_function_type_str`, `usbg_get_gadget_attr_str` and
-- `usbg_get_gadget_str_name` have for it.
pub lookup_iff :
    (n : CString) (k : ℕ)
    → ((lookup_function_type (some n) ≡ found k) ↔ (get_function_type_str k ≡ some n))
      × ((lookup_gadget_attr (some n) ≡ found k) ↔ (get_gadget_attr_str k ≡ some n))
      × ((lookup_gadget_str (some n) ≡ found k) ↔ (get_gadget_str_name k ≡ some n))
lookup_iff n k =
    let (attr, str) = lookup_gadget_iff n k in (lookup_function_type_iff n k, attr, str)
