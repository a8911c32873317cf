-- ===== src/Remove/Drain/Loop.antt =====
-- The loop of `usbg_rm_config` that removes the bindings of a configuration.
use libusbgx.Base.{◌≡◌, refl, sym, subst, ℕ, suc, List, [], ◌∷◌, arith, All, length}
use libusbgx.Heap.{Ptr, Heap, Config}
use libusbgx.Heap.Keeps.{mem_at}
use libusbgx.Heap.Monad.{M, returned, config_at, remove, ◌>>◌}
use libusbgx.Heap.Post.{Live, Post, returns, Post-bind, Post-mono, load-returned}
use libusbgx.Os.{Os}
use libusbgx.Remove.{rm_binding, drain, drain_all}
use libusbgx.Remove.Drain.{
  without, IsBindingOf, AllDistinct, IsDrained, IsPartly, IsDrained-cons, IsPartly-cons,
  All-without, rm_binding-Post, IsDrained-nil, IsPartly-nil, remove_head,
}

-- The removal of the bindings of `p`, on fuel.
abbrev pub loop : ⦃os : Os⦄ → Ptr → ℕ → M (Unit {0})
loop p k = drain config_at (λ conf. conf.bindings) rm_binding p k

module _ ⦃os : Os⦄ (h : Heap) {p : Ptr} {conf : Config} (config : Live config_at h p conf) (k : ℕ)
    (w : os.World) where
  loop-nil : conf.bindings ≡ [] → loop p (suc k) (mem_at h w) ≡ returned tt (mem_at h w)
  unfolding drain
  loop-nil e = rw (load-returned {m = mem_at h w} config, e) refl

  loop-cons :
      (b : Ptr) (bs : List Ptr)
      → conf.bindings ≡ b ∷ bs
      → loop p (suc k) (mem_at h w) ≡ (rm_binding b >> loop p k) (mem_at h w)
  unfolding drain
  loop-cons b bs e = rw (load-returned {m = mem_at h w} config, e) refl

drain-Post :
    ⦃os : Os⦄ {p : Ptr} (bs : List Ptr) (h : Heap) (conf : Config)
    → Live config_at h p conf
    → conf.bindings ≡ bs
    → All (IsBindingOf h p) bs
    → AllDistinct bs
    → (w : os.World)
    → Post
        (λ _ n. IsDrained h p conf bs [] n.heap)
        (λ _ n. IsPartly h p conf n.heap)
        (loop p (suc (length bs)) (mem_at h w))
drain-Post {p = p} [] h conf config e owned distinct w =
    rw (loop-nil h config 0 w e)
      (returns (subst (λ bs. IsDrained h p conf [] bs h) e (IsDrained-nil config)))
drain-Post {p = p} (b ∷ bs) h conf config e (x, owned) (nes, distinct) w =
    let next = without h p conf b bs in
    let rest =
      drain-Post bs next (record conf { bindings = bs })
        (record { ne_null = config.ne_null; holds = ground arith }) refl
        (All-without h p b conf bs bs nes owned) distinct in
    let after : remove b conf.bindings ≡ bs = rw e (remove_head b bs) in
    rw (loop-cons h config (suc (length bs)) w b bs e) (
      Post-bind {f = λ _. loop p (suc (length bs))}
        (Post-mono (rm_binding-Post h config x w)
          (λ _ n heap. subst (λ r. n.heap ≡ without h p conf b r) after heap)
          (λ _ n heap. subst (IsPartly h p conf) (sym heap) (IsPartly-nil config)))
        (λ _ n heap.
          subst
            (λ r.
              Post (λ _ n. IsDrained h p conf (b ∷ bs) [] n.heap) (λ _ n. IsPartly h p conf n.heap)
                (loop p (suc (length bs)) (mem_at r n.world)))
            (sym heap)
            (Post-mono (rest n.world) (λ _ o d. IsDrained-cons h p b conf bs nes d)
              (λ _ o part. IsPartly-cons h p b conf bs e nes part))))

-- The loop that takes the first binding of a live configuration and removes it, until none is left,
-- does not fault and ends within its fuel, if the bindings are live, belong to the configuration
-- and are distinct. If it succeeds, all bindings are freed, the configuration's list is empty, and
-- all else is as it was. If it fails, this holds of some bindings in front, and the others are
-- still in the list.
pub drain_all-IsDrained :
    ⦃os : Os⦄ (h : Heap) {p : Ptr} {conf : Config} (w : os.World)
    → Live config_at h p conf
    → All (IsBindingOf h p) conf.bindings
    → AllDistinct conf.bindings
    → Post
        (λ _ n. IsDrained h p conf conf.bindings [] n.heap)
        (λ _ n. IsPartly h p conf n.heap)
        (drain_all config_at (λ conf. conf.bindings) rm_binding p (mem_at h w))
unfolding drain_all
drain_all-IsDrained h {conf = conf} w config owned distinct =
    rw (load-returned {m = mem_at h w} config)
      (drain-Post conf.bindings h conf config refl owned distinct w)
