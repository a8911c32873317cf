-- ===== src/Tailq.antt =====
-- The macro INSERT_TAILQ_STRING_ORDER of usbg_internal.h. A TAILQ is the list of its entries from
-- TAILQ_FIRST to TAILQ_LAST.
pub mod Order
use libusbgx.Base.{List, [], ◌∷◌, ◌++◌, Bool, true, false, Ordering, if◌then◌else◌}
use libusbgx.CStr.{CString, strcmp}

abbrev pub is_lt : Ordering → Bool
is_lt Ordering.lt = true
is_lt _ = false

abbrev pub is_gt : Ordering → Bool
is_gt Ordering.gt = true
is_gt _ = false

module _ {ℓ} {A : Type ℓ} where
  -- TAILQ_LAST of a list that is not empty.
  last : A → List A → A
  last y [] = y
  last y (z ∷ zs) = last z zs

  module _ (name : A → CString) (x : A) where
    -- The TAILQ_FOREACH: it inserts before the first entry that does not come before the new one.
    -- A loop that reached the end would insert nothing.
    insert_before : List A → List A
    insert_before [] = []
    insert_before (y ∷ ys) =
        let rest = insert_before ys in
        if is_gt (strcmp (name x) (name y)) then y ∷ rest else x ∷ y ∷ ys

    unfoldable pub insert_string_order : List A → List A
    unfolding last insert_before
    insert_string_order [] = x ∷ []
    insert_string_order (y ∷ ys) =
        if is_lt (strcmp (name x) (name y))
        then x ∷ y ∷ ys
        else if is_gt (strcmp (name x) (name (last y ys)))
        then y ∷ ys ++ x ∷ []
        else insert_before (y ∷ ys)
