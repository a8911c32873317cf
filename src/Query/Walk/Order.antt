-- ===== src/Query/Walk/Order.antt =====
-- What the loops usbg_for_each_* visit.
use mathlib.Core.List.{append_assoc}
use libusbgx.Base.{
  ℕ, zero, suc, ◌<◌, ◌≡◌, ◌≢◌, refl, sym, ◌∙◌, false, List, [], ◌∷◌, ◌++◌, some, All, arith, length,
  ◌==◌, ==_refl,
}
use libusbgx.Heap.{Ptr, null, Mem}
use libusbgx.Heap.Monad.{Slot, M, returned, ◌>>=◌}
use libusbgx.Heap.Post.{Live, load-returned}
use libusbgx.Os.{Os}
use libusbgx.Query.Walk.{first, next_in, first_of_list, next_of_list, walk}
use libusbgx.Remove.Drain.{AllDistinct}

next_in-append :
    (before : List Ptr) (p : Ptr) (after : List Ptr)
    → All (λ q. q ≢ p) before
    → next_in p (before ++ p ∷ after) ≡ first after
unfolding next_in
next_in-append [] p after _ = rw ==_refl
next_in-append (q ∷ before) p after (ne, rest) =
    let other : (p == q) ≡ false = ground (arith, ne) in
    rw (other, next_in-append before p after rest)

All-middle :
    (P : Ptr → Type 0) (before : List Ptr) (p : Ptr) (after : List Ptr)
    → All P (before ++ p ∷ after)
    → P p
All-middle P [] p after (h, _) = h
All-middle P (q ∷ before) p after (_, h) = All-middle P before p after h

AllDistinct-middle :
    (before : List Ptr) (p : Ptr) (after : List Ptr)
    → AllDistinct (before ++ p ∷ after)
    → All (λ q. q ≢ p) before
AllDistinct-middle [] p after h = tt
AllDistinct-middle (q ∷ before) p after (here, rest) =
    (All-middle _ before p after here, AllDistinct-middle before p after rest)

-- A round of the loop.
walk-cons :
    ⦃os : Os⦄ (next : Ptr → M Ptr) (fuel : ℕ) (p : Ptr) (ps : List Ptr) (m : Mem os)
    → (p == null) ≡ false
    → next p m ≡ returned (first ps) m
    → walk next fuel (first ps) m ≡ returned (some ps) m
    → walk next (suc fuel) p m ≡ returned (some (p ∷ ps)) m
unfolding walk
walk-cons next fuel p ps m missing e rest = rw (missing, e, rest)

module _ ⦃os : Os⦄ {A B : Type 0} (slot : Slot A) (parent : A → Ptr) (owners : Slot B)
    (list : B → List Ptr) (m : Mem os) {o : Ptr} {owner : B} (live : Live owners m.heap o owner)
    (distinct : AllDistinct (list owner)) where
  -- A live entry of the list of `o`.
  abbrev pub IsEntry : Ptr → Type 0
  IsEntry p = (a : A) × Live slot m.heap p a × (parent a ≡ o)

  next_of_list-returned :
      (before : List Ptr) (p : Ptr) (after : List Ptr)
      → list owner ≡ before ++ p ∷ after
      → IsEntry p
      → next_of_list slot parent owners list p m ≡ returned (first after) m
  next_of_list-returned before p after e (a, here, up) =
      let missing : (p == null) ≡ false = ground (arith, here.ne_null) in
      rw (missing, load-returned {m = m} here, up, load-returned {m = m} live, e)
        (rw (next_in-append before p after (AllDistinct-middle before p after (rw e at distinct)))
          refl)

  walk-visits :
      (fuel : ℕ) (before ps : List Ptr)
      → list owner ≡ before ++ ps
      → All IsEntry ps
      → length ps < fuel
      → walk (next_of_list slot parent owners list) fuel (first ps) m ≡ returned (some ps) m
  unfolding walk
  walk-visits zero before ps e all h = elim h [ ]
  walk-visits (suc fuel) before [] e all h = refl
  walk-visits (suc fuel) before (p ∷ ps) e ((a, here, up), all) h =
      let missing : (p == null) ≡ false = ground (arith, here.ne_null) in
      walk-cons (next_of_list slot parent owners list) fuel p ps m missing
        (next_of_list-returned before p ps e (a, here, up))
        (walk-visits fuel (before ++ p ∷ []) ps (e ∙ sym (append_assoc before (p ∷ []) ps)) all
          (omega arith))

  -- `usbg_for_each_gadget` and its like, for a live owner whose list has live entries that know
  -- their owner and are distinct, with a body that changes no list, ends after one round for each
  -- entry, has visited every entry once, in the order of the list, and changes nothing.
  pub walk-first_of_list :
      (fuel : ℕ)
      → All IsEntry (list owner)
      → length (list owner) < fuel
      → (first_of_list owners list o >>= walk (next_of_list slot parent owners list) fuel) m
        ≡ returned (some (list owner)) m
  walk-first_of_list fuel all h =
      let there : (o == null) ≡ false = ground (arith, live.ne_null) in
      rw (there, load-returned {m = m} live) (walk-visits fuel [] (list owner) refl all h)
