-- ===== src/Remove/Drain.antt =====
-- What the removal of bindings leaves of a configuration.
pub mod Loop
use libusbgx.Base.{
  ◌≡◌, refl, ap, ◌∙◌, sym, subst, ◌≢◌, ◌++◌, ℕ, suc, Bool, true, false, List, [], ◌∷◌, Option, none,
  some, ◌==◌, arith, All, length, if◌then◌else◌,
}
use libusbgx.Error.{UsbgError}
use libusbgx.Files.{rm_file}
use libusbgx.Heap.{Ptr, null, Heap, Config, Binding, Mem}
use libusbgx.Heap.Keeps.{mem_at}
use libusbgx.Heap.Monad.{
  M, Run, returned, raised, binding_at, config_at, written, freed, remove, update, io, load, store,
  ◌>>=◌, ◌>>◌,
}
use libusbgx.Heap.Post.{Live, Post, returns, raises, Post-io, Post-bind, Post-mono, load-returned}
use libusbgx.Objects.{free_binding}
use libusbgx.Os.{Os}
use libusbgx.Remove.{rm_binding, drain, drain_all}

-- The heap after the removal of the binding `b` of `p`, which leaves the bindings `bs`.
abbrev pub without : Heap → Ptr → Config → Ptr → List Ptr → Heap
without h p conf b bs = freed binding_at b (written config_at p (record conf { bindings = bs }) h)

-- A binding of the configuration `p`.
pub record IsBindingOf (h : Heap) (p : Ptr) (b : Ptr) : Type 0 where
  pub value : Binding
  pub live : Live binding_at h b value
  pub owner : value.parent ≡ p

-- No pointer occurs twice.
abbrev pub AllDistinct : List Ptr → Type 0
AllDistinct [] = Unit
AllDistinct (b ∷ bs) = All (λ q. b ≢ q) bs × AllDistinct bs

-- What follows the removal of the link.
abbrev unlist : ⦃os : Os⦄ → Ptr → Ptr → M (Unit {0})
unlist p b = do
  conf ← load config_at p
  store config_at p (record conf { bindings = remove b conf.bindings })
  free_binding b

module _ ⦃os : Os⦄ (h : Heap) {p b : Ptr} {conf : Config} (config : Live config_at h p conf)
    (binding : IsBindingOf h p b) where
  unlist-without :
      (w : os.World)
      → unlist p b (mem_at h w)
        ≡ returned tt (mem_at (without h p conf b (remove b conf.bindings)) w)
  unfolding free_binding
  unlist-without w = let live : Live binding_at h b binding.value = binding.live in ground arith

  pub rm_binding-Post :
      (w : os.World)
      → Post
          (λ _ n. n.heap ≡ without h p conf b (remove b conf.bindings))
          (λ _ n. n.heap ≡ h)
          (rm_binding b (mem_at h w))
  unfolding rm_binding
  rm_binding-Post w =
      let x = binding.value in
      let ne : (b == null) ≡ false = ground (arith, binding.live.ne_null) in
      let run : rm_binding b (mem_at h w)
          ≡ (io (rm_file x.path x.name) >> unlist p b) (mem_at h w) =
        rw (ne, load-returned {m = mem_at h w} binding.live, binding.owner) refl in
      rw run (
        Post-io (rm_file x.path x.name) (λ _. unlist p b) (mem_at h w)
          (λ _ v. rw (unlist-without v) (returns refl)) (λ _ _. refl))

-- The bindings `done` of the configuration `p` are freed, `left` are in its list, and all else is
-- as it was.
pub record IsDrained (h : Heap) (p : Ptr) (conf : Config) (done left : List Ptr) (n : Heap)
    : Type 0 where
  pub config : n.configs p ≡ some (record conf { bindings = left })
  pub freed : All (λ b. n.bindings b ≡ none) done
  pub kept : (q : Ptr) → All (λ b. q ≢ b) done → n.bindings q ≡ h.bindings q
  pub configs : (q : Ptr) → q ≢ p → n.configs q ≡ h.configs q
  pub gadgets : n.gadgets ≡ h.gadgets
  pub states : n.states ≡ h.states
  pub functions : n.functions ≡ h.functions
  pub udcs : n.udcs ≡ h.udcs

-- Some of the bindings were removed from the front of the list, and the others were not.
pub record IsPartly (h : Heap) (p : Ptr) (conf : Config) (n : Heap) : Type 0 where
  pub done : List Ptr
  pub left : List Ptr
  pub split : conf.bindings ≡ done ++ left
  pub drained : IsDrained h p conf done left n

All-prefix : (P : Ptr → Type 0) (done left : List Ptr) → All P (done ++ left) → All P done
All-prefix P [] left _ = tt
All-prefix P (q ∷ done) left (x, xs) = (x, All-prefix P done left xs)

module _ (h : Heap) (p b : Ptr) (conf : Config) (bs : List Ptr) where
  IsBindingOf-without :
      (q : Ptr) → b ≢ q → IsBindingOf h p q → IsBindingOf (without h p conf b bs) p q
  IsBindingOf-without q ne x = record {
    value = x.value;
    live = record { ne_null = x.live.ne_null; holds = ground (arith, x.live.holds) };
    owner = x.owner;
  }

  pub All-without :
      (qs : List Ptr)
      → All (λ q. b ≢ q) qs
      → All (IsBindingOf h p) qs
      → All (IsBindingOf (without h p conf b bs) p) qs
  All-without [] _ _ = tt
  All-without (q ∷ qs) (ne, nes) (x, xs) = (IsBindingOf-without q ne x, All-without qs nes xs)

  pub IsDrained-cons :
      {done left : List Ptr} {n : Heap}
      → All (λ q. b ≢ q) done
      → IsDrained (without h p conf b bs) p (record conf { bindings = bs }) done left n
      → IsDrained h p conf (b ∷ done) left n
  IsDrained-cons nes d = record {
    config = d.config;
    freed = (ground (arith, d.kept b nes), d.freed);
    kept = λ q (ne, rest). ground (arith, d.kept q rest);
    configs = λ q ne. ground (arith, d.configs q ne);
    gadgets = d.gadgets;
    states = d.states;
    functions = d.functions;
    udcs = d.udcs;
  }

  pub IsPartly-cons :
      {n : Heap}
      → conf.bindings ≡ b ∷ bs
      → All (λ q. b ≢ q) bs
      → IsPartly (without h p conf b bs) p (record conf { bindings = bs }) n
      → IsPartly h p conf n
  IsPartly-cons e nes part = record {
    done = b ∷ part.done;
    left = part.left;
    split = e ∙ ap (λ qs. b ∷ qs) part.split;
    drained =
        IsDrained-cons
          (All-prefix (λ q. b ≢ q) part.done part.left (subst (All (λ q. b ≢ q)) part.split nes))
          part.drained;
  }

pub IsDrained-nil :
    {h : Heap} {p : Ptr} {conf : Config}
    → Live config_at h p conf
    → IsDrained h p conf [] conf.bindings h
IsDrained-nil config = record {
  config = config.holds;
  freed = tt;
  kept = λ _ _. refl;
  configs = λ _ _. refl;
  gadgets = refl;
  states = refl;
  functions = refl;
  udcs = refl;
}

pub IsPartly-nil :
    {h : Heap} {p : Ptr} {conf : Config} → Live config_at h p conf → IsPartly h p conf h
IsPartly-nil {conf = conf} config = record {
  done = [];
  left = conf.bindings;
  split = refl;
  drained = IsDrained-nil config;
}

pub remove_head : (b : Ptr) (bs : List Ptr) → remove b (b ∷ bs) ≡ bs
unfolding remove
remove_head b bs = ground arith
