-- ===== src/CStr/Order.antt =====
-- `strcmp` as an order.
use libusbgx.Base.{◌≡◌, refl, subst, ◌≢◌, ◌↔◌, true, [], ◌∷◌, arith, Ordering}
use libusbgx.CStr.{CString, strcmp, str_eq}

pub strcmp-eq : (a b : CString) → strcmp a b ≡ Ordering.eq → a ≡ b
unfolding strcmp
strcmp-eq [] [] h = refl
strcmp-eq [] (y ∷ b) h = cc
strcmp-eq (x ∷ a) [] h = cc
strcmp-eq (x ∷ a) (y ∷ b) h = ground (arith, strcmp-eq a b)

pub strcmp_refl : (a : CString) → strcmp a a ≡ Ordering.eq
unfolding strcmp
strcmp_refl [] = refl
strcmp_refl (x ∷ a) = ground (arith, strcmp_refl a)

pub str_eq_iff : (a b : CString) → (str_eq a b ≡ true) ↔ (a ≡ b)
str_eq_iff a b = (
  λ h. strcmp-eq a b (ground arith),
  λ e. subst (λ b. str_eq a b ≡ true) e (ground (arith, strcmp_refl a)),
)

-- `a` does not come after `b`.
infix 50 ◌≤S◌
abbrev pub ◌≤S◌ : CString → CString → Type 0
a ≤S b = strcmp a b ≢ Ordering.gt

pub strcmp-gt : (a b : CString) → strcmp a b ≡ Ordering.gt → b ≤S a
unfolding strcmp
strcmp-gt [] [] h = cc
strcmp-gt [] (y ∷ b) h = cc
strcmp-gt (x ∷ a) [] h = λ k. cc
strcmp-gt (x ∷ a) (y ∷ b) h = ground (arith, strcmp-gt a b)

pub strcmp-lt : (a b : CString) → strcmp a b ≡ Ordering.lt → a ≤S b
strcmp-lt a b h = λ k. cc

pub ≤S_trans : (a b d : CString) → a ≤S b → b ≤S d → a ≤S d
unfolding strcmp
≤S_trans [] b [] h k = λ e. cc
≤S_trans [] b (z ∷ d) h k = λ e. cc
≤S_trans (x ∷ a) [] d h k = absurd (h refl)
≤S_trans (x ∷ a) (y ∷ b) [] h k = absurd (k refl)
≤S_trans (x ∷ a) (y ∷ b) (z ∷ d) h k = ground (arith, ≤S_trans a b d)
