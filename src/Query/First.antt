-- ===== src/Query/First.antt =====
-- The first entry of a list in memory that passes a test.
use libusbgx.Base.{
  ◌≡◌, refl, ◌⊎◌, inl, inr, ℕ, Bool, true, false, List, [], ◌∷◌, ◌++◌, some, Option, arith, ap, All,
  Bool-cases,
}
use libusbgx.CStr.{CString}
use libusbgx.Heap.{Ptr, null, Gadget, Heap, Mem}
use libusbgx.Heap.Monad.{Slot, returned, gadget_at, function_at, config_at}
use libusbgx.Heap.Post.{Live, load-returned}
use libusbgx.Os.{Os}
use libusbgx.Query.{find_first, get_function, is_function, get_config, is_config}

module _ {A : Type 0} (slot : Slot A) (h : Heap) where
  -- Every entry of the list is live.
  abbrev pub AllLive : List Ptr → Type 0
  AllLive ps = All (λ p. (a : A) × Live slot h p a) ps

module _ ⦃os : Os⦄ {A : Type 0} (slot : Slot A) (test : Ptr → A → Bool) (m : Mem os) where
  abbrev pub Fails : Ptr → Type 0
  Fails p = (a : A) → slot.table m.heap p ≡ some a → test p a ≡ false

  pub record Hit (ps : List Ptr) (p : Ptr) : Type 0 where
    pub before : List Ptr
    pub after : List Ptr
    pub split : ps ≡ before ++ p ∷ after
    pub earlier : All Fails before
    pub value : A
    pub live : Live slot m.heap p value
    pub fits : test p value ≡ true

  -- The first entry that passes, or NULL if none does.
  abbrev pub IsFirst : List Ptr → Ptr → Type 0
  IsFirst ps p = Hit ps p ⊎ ((p ≡ null) × All Fails ps)

  IsFirst-cons : (q : Ptr) (ps : List Ptr) (p : Ptr) → Fails q → IsFirst ps p → IsFirst (q ∷ ps) p
  IsFirst-cons q ps p h (inl hit) = inl (record {
    before = q ∷ hit.before;
    after = hit.after;
    split = ap (λ r. q ∷ r) hit.split;
    earlier = (h, hit.earlier);
    value = hit.value;
    live = hit.live;
    fits = hit.fits;
  })
  IsFirst-cons q ps p h (inr (e, all)) = inr (e, (h, all))

  pub find_first-IsFirst :
      (ps : List Ptr)
      → AllLive slot m.heap ps
      → (p : Ptr) × (find_first slot test ps m ≡ returned p m) × IsFirst ps p
  unfolding find_first
  find_first-IsFirst [] _ = (null, refl, inr (refl, tt))
  find_first-IsFirst (q ∷ ps) ((a, live), rest) = elim (Bool-cases (test q a)) [
    | inl pass ↦ (
      q,
      rw (load-returned {m = m} live, pass),
      inl (record {
        before = [];
        after = ps;
        split = refl;
        earlier = tt;
        value = a;
        live = live;
        fits = pass;
      }),
    )
    | inr miss ↦
        let (p, e, first) = find_first-IsFirst ps rest in
        (p, rw (load-returned {m = m} live, miss) e, IsFirst-cons q ps p (ground arith) first)
  ]

-- `usbg_get_function` for a live gadget whose functions are live returns the first function of
-- this type and instance, or NULL if the gadget has none, and changes nothing.
pub get_function-IsFirst :
    ⦃os : Os⦄ (m : Mem os) {g : Ptr} {gad : Gadget} (type : ℕ) (instance : CString)
    → Live gadget_at m.heap g gad
    → AllLive function_at m.heap gad.functions
    → (p : Ptr) × (get_function g type instance m ≡ returned p m)
      × IsFirst function_at (λ _ f. is_function type instance f) m gad.functions p
unfolding get_function
get_function-IsFirst m type instance live all =
    rw (load-returned {m = m} live)
      (find_first-IsFirst function_at (λ _ f. is_function type instance f) _ _ all)

-- The same of `usbg_get_config` with an id and no label, or with both.
pub get_config-IsFirst :
    ⦃os : Os⦄ (m : Mem os) {g : Ptr} {gad : Gadget} (id : ℕ) (label : Option CString)
    → Live gadget_at m.heap g gad
    → AllLive config_at m.heap gad.configs
    → (p : Ptr) × (get_config g id label m ≡ returned p m)
      × IsFirst config_at (λ _ conf. is_config id label conf) m gad.configs p
unfolding get_config
get_config-IsFirst m id label live all =
    rw (load-returned {m = m} live)
      (find_first-IsFirst config_at (λ _ conf. is_config id label conf) _ _ all)
