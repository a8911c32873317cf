-- ===== src/Heap/Insert/Linked.antt =====
-- Lists of live entries, and what an insertion by name does to one.
use mathlib.Core.List.{Perm, Permᴰ}
use mathlib.Core.List.Permᴰ.{nil, cons, swap, trans}
use mathlib.Core.Logic.{∥∥₁_map}
use mathlib.Core.List.Perm
use libusbgx.Base.{◌≡◌, refl, ap, subst, List, [], ◌∷◌, map, All}
use libusbgx.CStr.{CString}
use libusbgx.Heap.{Ptr, Heap, Mem}
use libusbgx.Heap.Insert.{entry_ptr, insert_by_name}
use libusbgx.Heap.Monad.{Slot, returned, load_all}
use libusbgx.Heap.Post.{Live, load-returned}
use libusbgx.Os.{Os}
use libusbgx.Tailq.{insert_string_order}
use libusbgx.Tailq.Order.{insert_string_order-perm, insert_string_order-All}

step_map : {A B : Type 0} (f : A → B) {xs ys : List A} → Permᴰ xs ys → Permᴰ (map f xs) (map f ys)
step_map f nil = nil
step_map f (cons e p) = cons (ap f e) (step_map f p)
step_map f (swap d e) = swap (ap f d) (ap f e)
step_map f (trans p q) = trans (step_map f p) (step_map f q)

map-perm : {A B : Type 0} (f : A → B) {xs ys : List A} → Perm xs ys → Perm (map f xs) (map f ys)
map-perm f p = ∥∥₁_map p (step_map f)

-- The entries of a list with the objects that they point to, all live.
pub record Linked {A : Type 0} (slot : Slot A) (h : Heap) (ps : List Ptr) : Type 0 where
  pub entries : List (Ptr × A)
  pub pointers : map entry_ptr entries ≡ ps
  pub live : All (λ e. Live slot h e.0 e.1) entries

-- The entries after the insertion of `p`, which points to `a`.
abbrev pub inserted : {A : Type 0} → (A → CString) → List (Ptr × A) → Ptr → A → List (Ptr × A)
inserted name es p a = insert_string_order (λ e. name e.1) (p, a) es

load_all-entries :
    ⦃os : Os⦄ {A : Type 0} (slot : Slot A) (m : Mem os) (es : List (Ptr × A))
    → All (λ e. Live slot m.heap e.0 e.1) es
    → load_all slot (map entry_ptr es) m ≡ returned es m
unfolding load_all
load_all-entries slot m [] _ = refl
load_all-entries slot m ((p, a) ∷ es) (live, rest) =
    rw (load-returned {m = m} live, load_all-entries slot m es rest)

module _ {A : Type 0} (slot : Slot A) (name : A → CString) {h : Heap} {ps : List Ptr}
    (linked : Linked slot h ps) (p : Ptr) (a : A) where
  pub insert_by_name-inserted :
      ⦃os : Os⦄ (w : os.World)
      → Live slot h p a
      → insert_by_name slot name p ps (record { world = w; heap = h })
        ≡ returned
            (map entry_ptr (inserted name linked.entries p a))
            (record { world = w; heap = h })
  unfolding insert_by_name
  insert_by_name-inserted ⦃os⦄ w live =
      let m : Mem os = record { world = w; heap = h } in
      rw (
        load-returned {m = m} live,
        ← linked.pointers,
        load_all-entries slot m linked.entries linked.live,
      )

  pub inserted-Live :
      Live slot h p a → All (λ e. Live slot h e.0 e.1) (inserted name linked.entries p a)
  inserted-Live live = insert_string_order-All _ _ (p, a) linked.entries live linked.live

  pub inserted-perm : Perm (map entry_ptr (inserted name linked.entries p a)) (p ∷ ps)
  inserted-perm =
      Perm.trans
        (map-perm entry_ptr (insert_string_order-perm (λ e. name e.1) (p, a) linked.entries))
        (subst (λ qs. Perm (p ∷ map entry_ptr linked.entries) (p ∷ qs)) linked.pointers
          (Perm.refl _))
