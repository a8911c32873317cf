-- ===== src/Tailq/Order.antt =====
-- Insertion by name into a list: its entries and their order.
use mathlib.Core.List.{Perm, perm_append_singleton}
use mathlib.Core.List.Perm
use libusbgx.Base.{◌≡◌, inl, inr, false, List, [], ◌∷◌, ◌++◌, arith, Bool-cases, All}
use libusbgx.CStr.{CString, strcmp}
use libusbgx.CStr.Order.{◌≤S◌, strcmp-gt, ≤S_trans}
use libusbgx.Tailq.{is_lt, is_gt, last, insert_before, insert_string_order}

module _ {ℓ} {A : Type ℓ} (name : A → CString) where
  abbrev pub IsSorted : List A → Type 0
  IsSorted [] = Unit
  IsSorted (x ∷ xs) = All (λ y. name x ≤S name y) xs × IsSorted xs

module _ {ℓ} {A : Type ℓ} (name : A → CString) (x : A) where
  insert_before-perm :
      (y : A) (ys : List A)
      → is_gt (strcmp (name x) (name (last y ys))) ≡ false
      → Perm (insert_before name x (y ∷ ys)) (x ∷ y ∷ ys)
  unfolding insert_before last
  insert_before-perm y [] h = rw h (Perm.refl _)
  insert_before-perm y (z ∷ zs) h = elim (Bool-cases (is_gt (strcmp (name x) (name y)))) [
    | inl e ↦ rw e (Perm.trans (Perm.cons y (insert_before-perm z zs h)) (Perm.swap x y _))
    | inr e ↦ rw e (Perm.refl _)
  ]

  -- INSERT_TAILQ_STRING_ORDER on any list, sorted or not, makes it a permutation of the new entry
  -- and the list.
  pub insert_string_order-perm : (xs : List A) → Perm (insert_string_order name x xs) (x ∷ xs)
  unfolding insert_string_order
  insert_string_order-perm [] = Perm.refl _
  insert_string_order-perm (y ∷ ys) = elim (Bool-cases (is_lt (strcmp (name x) (name y)))) [
    | inl e ↦ rw e (Perm.refl _)
    | inr e ↦ rw e (elim (Bool-cases (is_gt (strcmp (name x) (name (last y ys))))) [
      | inl f ↦ rw f (perm_append_singleton x (y ∷ ys))
      | inr f ↦ rw f (insert_before-perm y ys f)
    ])
  ]

module _ {ℓ} {A : Type ℓ} (name : A → CString) where
  All-le_trans :
      (a b : CString) (xs : List A) → a ≤S b → All (λ y. b ≤S name y) xs → All (λ y. a ≤S name y) xs
  All-le_trans a b [] h all = tt
  All-le_trans a b (x ∷ xs) h (p, all) = (≤S_trans a b (name x) h p, All-le_trans a b xs h all)

  All-insert_before :
      (P : A → Type 0) (x : A) (xs : List A) → P x → All P xs → All P (insert_before name x xs)
  unfolding insert_before
  All-insert_before P x [] px all = tt
  All-insert_before P x (y ∷ ys) px (py, all) =
      elim (Bool-cases (is_gt (strcmp (name x) (name y)))) [
        | inl e ↦ rw e (py, All-insert_before P x ys px all)
        | inr e ↦ rw e (px, (py, all))
      ]

  insert_before-IsSorted :
      (x : A) (xs : List A) → IsSorted name xs → IsSorted name (insert_before name x xs)
  unfolding insert_before
  insert_before-IsSorted x [] s = tt
  insert_before-IsSorted x (y ∷ ys) (below, s) =
      elim (Bool-cases (is_gt (strcmp (name x) (name y)))) [
        | inl e ↦ rw e (
          All-insert_before _ x ys (strcmp-gt (name x) (name y) (ground arith)) below,
          insert_before-IsSorted x ys s,
        )
        | inr e ↦
            let first : name x ≤S name y = ground arith in
            rw e ((first, All-le_trans (name x) (name y) ys first below), (below, s))
      ]

  All-last : (P : A → Type 0) (y : A) (ys : List A) → All P (y ∷ ys) → P (last y ys)
  unfolding last
  All-last P y [] (p, all) = p
  All-last P y (z ∷ zs) (p, all) = All-last P z zs all

  All-snoc : (P : A → Type 0) (x : A) (xs : List A) → P x → All P xs → All P (xs ++ x ∷ [])
  All-snoc P x [] px all = (px, tt)
  All-snoc P x (y ∷ ys) px (py, all) = (py, All-snoc P x ys px all)

  -- What comes after the last entry of a sorted list comes after all of them.
  append-IsSorted :
      (x y : A) (ys : List A)
      → IsSorted name (y ∷ ys)
      → name (last y ys) ≤S name x
      → IsSorted name (y ∷ ys ++ x ∷ [])
  unfolding last
  append-IsSorted x y [] s h = ((h, tt), (tt, tt))
  append-IsSorted x y (z ∷ zs) (below, s) h =
      let end : name y ≤S name x =
        ≤S_trans (name y) (name (last z zs)) (name x) (All-last _ z zs below) h in
      (All-snoc _ x (z ∷ zs) end below, append-IsSorted x z zs s h)

  -- INSERT_TAILQ_STRING_ORDER keeps a list sorted that is sorted by `strcmp` of the names.
  pub insert_string_order-IsSorted :
      (x : A) (xs : List A) → IsSorted name xs → IsSorted name (insert_string_order name x xs)
  unfolding insert_string_order
  insert_string_order-IsSorted x [] s = (tt, tt)
  insert_string_order-IsSorted x (y ∷ ys) s = elim (Bool-cases (is_lt (strcmp (name x) (name y)))) [
    | inl e ↦
        let first : name x ≤S name y = ground arith in
        rw e ((first, All-le_trans (name x) (name y) ys first s.0), s)
    | inr e ↦ rw e (elim (Bool-cases (is_gt (strcmp (name x) (name (last y ys))))) [
      | inl f ↦ rw f (append-IsSorted x y ys s (strcmp-gt _ _ (ground arith)))
      | inr f ↦ rw f (insert_before-IsSorted x (y ∷ ys) s)
    ])
  ]

  pub insert_string_order-All :
      (P : A → Type 0) (x : A) (xs : List A)
      → P x
      → All P xs
      → All P (insert_string_order name x xs)
  unfolding insert_string_order
  insert_string_order-All P x [] px all = (px, tt)
  insert_string_order-All P x (y ∷ ys) px all =
      elim (Bool-cases (is_lt (strcmp (name x) (name y)))) [
        | inl e ↦ rw e (px, all)
        | inr e ↦ rw e (elim (Bool-cases (is_gt (strcmp (name x) (name (last y ys))))) [
          | inl f ↦ rw f (All-snoc P x (y ∷ ys) px all)
          | inr f ↦ rw f (All-insert_before P x (y ∷ ys) px all)
        ])
      ]
