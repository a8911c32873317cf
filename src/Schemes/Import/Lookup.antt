-- ===== src/Schemes/Import/Lookup.antt =====
-- The function that a label of a binding stands for.
use libusbgx.Base.{
  ◌≡◌, refl, inl, inr, ℕ, zero, suc, true, false, List, [], ◌∷◌, some, none, arith, All, get_elem?,
  ◌==◌, subst,
}
use libusbgx.CStr.{CString}
use libusbgx.CStr.Order.{strcmp_refl}
use libusbgx.Heap.{Ptr, null, Gadget, Function, Mem}
use libusbgx.Heap.Monad.{returned, gadget_at, function_at}
use libusbgx.Heap.Post.{Live, load-returned}
use libusbgx.Libconfig.{Libconfig}
use libusbgx.Names.{get_function_type_str, f_mass_storage}
use libusbgx.Os.{Os}
use libusbgx.Query.{find_first, get_function, is_function}
use libusbgx.Query.First.{AllLive, Fails, Hit, get_function-IsFirst}
use libusbgx.Schemes.Export.{generate_function_label}
use libusbgx.Schemes.Import.{lookup_function, has_label, split_function_label, function_label}
use libusbgx.Schemes.Import.Labels.{split_function_label-generate_function_label}

All-get :
    (P : Ptr → Type 0) (ps : List Ptr) (i : ℕ) (p : Ptr) → All P ps → get_elem? ps i ≡ some p → P p
All-get P [] i p all e = absurd (ground (arith, e))
All-get P (q ∷ ps) zero p (h, _) e = let same : q ≡ p = cc in subst P same h
All-get P (q ∷ ps) (suc i) p (_, all) e = All-get P ps i p all e

module _ ⦃os : Os⦄ ⦃lc : Libconfig os⦄ (m : Mem os) where
  -- No function of the list was given a label by an import.
  abbrev pub AllUnlabelled : List Ptr → Type 0
  AllUnlabelled ps = All (λ p. (f : Function) → Live function_at m.heap p f → f.label ≡ none) ps

  find_first-null :
      (label : CString) (ps : List Ptr)
      → AllLive function_at m.heap ps
      → AllUnlabelled ps
      → find_first function_at (λ _ f. has_label label f) ps m ≡ returned null m
  unfolding find_first has_label
  find_first-null label [] _ _ = refl
  find_first-null label (p ∷ ps) ((f, live), rest) (none_here, none_later) =
      rw (load-returned {m = m} live, none_here f live) (find_first-null label ps rest none_later)

  is_function_refl : (f : Function) → is_function f.type f.instance_name f ≡ true
  is_function_refl f = ground (arith, strcmp_refl f.instance_name)

  module _ {g : Ptr} {gad : Gadget} (live : Live gadget_at m.heap g gad)
      (all : AllLive function_at m.heap gad.functions)
      (unlabelled : AllUnlabelled gad.functions) where
    lookup_function-get_function :
        (label instance : CString) (type : ℕ)
        → split_function_label label ≡ function_label type instance
        → lookup_function g label m ≡ get_function g type instance m
    unfolding lookup_function
    lookup_function-get_function label instance type e =
        rw (load-returned {m = m} live, find_first-null label gad.functions all unlabelled, e) refl

    -- In a live gadget whose functions are live and were given no label, the label that the export
    -- writes for the `i`th function is found by the import: the result is the first function of
    -- this type and instance, if the type is supported and no mass storage.
    pub lookup_function-IsFirst :
        (i : ℕ) {p : Ptr} (f : Function) (n : CString)
        → get_elem? gad.functions i ≡ some p
        → Live function_at m.heap p f
        → get_function_type_str f.type ≡ some n
        → (f.type == f_mass_storage) ≡ false
        → (q : Ptr) × (lookup_function g (generate_function_label f) m ≡ returned q m)
          × Hit function_at (λ _ f'. is_function f.type f.instance_name f') m gad.functions q
    lookup_function-IsFirst i f n at_i live_f e other =
        let (q, got, first) = get_function-IsFirst m f.type f.instance_name live all in
        let same =
          lookup_function-get_function (generate_function_label f) f.instance_name f.type
            (rw other at (split_function_label-generate_function_label f n e)) in
        elim first [
          | inl hit ↦ (q, rw same got, hit)
          | inr (_, fails) ↦
              let misses =
                All-get (Fails function_at (λ _ f'. is_function f.type f.instance_name f') m)
                  gad.functions i _ fails at_i f live_f.holds in
              absurd (ground (arith, misses, is_function_refl f))
        ]
