-- ===== src/Query/Walk.antt =====
-- The first and the next entry of a list (usbg_get_first_* and usbg_get_next_*), and the loops
-- usbg_for_each_* of usbg.h.
pub mod Order
use libusbgx.Base.{ℕ, zero, suc, ◌≡◌, List, [], ◌∷◌, Option, none, some, ◌==◌, if◌then◌else◌}
use libusbgx.Heap.{Ptr, null}
use libusbgx.Heap.Monad.{
  Slot, M, fault, return, load, state_at, gadget_at, config_at, function_at, binding_at, udc_at,
  ◌>>=◌,
}
use libusbgx.Os.{Os}

abbrev first : List Ptr → Ptr
first [] = null
first (p ∷ ps) = p

-- The entry behind `p`.
unfoldable pub next_in : Ptr → List Ptr → Ptr
next_in p [] = null
next_in p (q ∷ qs) = let rest = next_in p qs in if p == q then first qs else rest

abbrev seen : Ptr → Option (List Ptr) → Option (List Ptr)
seen p none = none
seen p (some ps) = some (p ∷ ps)

module _ ⦃os : Os⦄ where
  -- TAILQ_FIRST, or NULL for NULL.
  abbrev pub first_of_list : {A : Type 0} → Slot A → (A → List Ptr) → Ptr → M Ptr
  first_of_list slot list p =
      if p == null then return null else do a ← load slot p; return (first (list a))

  unfoldable pub get_first_gadget : Ptr → M Ptr
  get_first_gadget = first_of_list state_at (λ s. s.gadgets)

  unfoldable pub get_first_udc : Ptr → M Ptr
  get_first_udc = first_of_list state_at (λ s. s.udcs)

  unfoldable pub get_first_function : Ptr → M Ptr
  get_first_function = first_of_list gadget_at (λ g. g.functions)

  unfoldable pub get_first_config : Ptr → M Ptr
  get_first_config = first_of_list gadget_at (λ g. g.configs)

  unfoldable pub get_first_binding : Ptr → M Ptr
  get_first_binding = first_of_list config_at (λ conf. conf.bindings)

  -- TAILQ_NEXT of an entry, found in the list of its parent, or NULL for NULL.
  abbrev pub next_of_list :
      {A B : Type 0} → Slot A → (A → Ptr) → Slot B → (B → List Ptr) → Ptr → M Ptr
  next_of_list slot parent owners list p =
      if p == null
      then return null
      else do a ← load slot p; owner ← load owners (parent a); return (next_in p (list owner))

  unfoldable pub get_next_gadget : Ptr → M Ptr
  unfolding next_in
  get_next_gadget = next_of_list gadget_at (λ g. g.parent) state_at (λ s. s.gadgets)

  unfoldable pub get_next_function : Ptr → M Ptr
  unfolding next_in
  get_next_function = next_of_list function_at (λ f. f.parent) gadget_at (λ g. g.functions)

  unfoldable pub get_next_config : Ptr → M Ptr
  unfolding next_in
  get_next_config = next_of_list config_at (λ conf. conf.parent) gadget_at (λ g. g.configs)

  unfoldable pub get_next_binding : Ptr → M Ptr
  unfolding next_in
  get_next_binding = next_of_list binding_at (λ b. b.parent) config_at (λ conf. conf.bindings)

  unfoldable pub get_next_udc : Ptr → M Ptr
  unfolding next_in
  get_next_udc = next_of_list udc_at (λ u. u.parent) state_at (λ s. s.udcs)

  -- The loop, from the entry `p` on: the entries that its body sees, which changes no list. Each
  -- round takes one of the fuel, and `none` means that there was too little.
  unfoldable pub walk : (Ptr → M Ptr) → ℕ → Ptr → M (Option (List Ptr))
  walk next zero p = return none
  walk next (suc fuel) p =
      if p == null
      then return (some [])
      else do q ← next p; ps ← walk next fuel q; return (seen p ps)

  unfoldable pub for_each_gadget : ℕ → Ptr → M (Option (List Ptr))
  unfolding walk get_first_gadget get_next_gadget
  for_each_gadget fuel s = do g ← get_first_gadget s; walk get_next_gadget fuel g

  unfoldable pub for_each_function : ℕ → Ptr → M (Option (List Ptr))
  unfolding walk get_first_function get_next_function
  for_each_function fuel g = do f ← get_first_function g; walk get_next_function fuel f

  unfoldable pub for_each_config : ℕ → Ptr → M (Option (List Ptr))
  unfolding walk get_first_config get_next_config
  for_each_config fuel g = do p ← get_first_config g; walk get_next_config fuel p

  unfoldable pub for_each_binding : ℕ → Ptr → M (Option (List Ptr))
  unfolding walk get_first_binding get_next_binding
  for_each_binding fuel p = do b ← get_first_binding p; walk get_next_binding fuel b

  unfoldable pub for_each_udc : ℕ → Ptr → M (Option (List Ptr))
  unfolding walk get_first_udc get_next_udc
  for_each_udc fuel s = do u ← get_first_udc s; walk get_next_udc fuel u
