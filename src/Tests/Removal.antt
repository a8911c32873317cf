-- ===== src/Tests/Removal.antt =====
-- The removal of the bindings of a configuration.
use libusbgx.Remove.Drain.{IsBindingOf}
use libusbgx.Base.{All}
use libusbgx.Heap.Post.{Live}
use libusbgx.Remove.Drain.{AllDistinct}
use libusbgx.Base.{refl, arith, [], ◌∷◌, none, some, true}
use libusbgx.CStr.{c}
use libusbgx.Heap.{Config, Binding, Heap}
use libusbgx.Heap.Monad.{config_at, written, update}
use libusbgx.Heap.Post.{Post}
use libusbgx.Remove.{drain_all, rm_binding, rm_config}
use libusbgx.Remove.Configs.{IsGone, rm_config-IsGone}
use libusbgx.Remove.Drain.{IsDrained, IsPartly}
use libusbgx.Remove.Drain.Loop.{drain_all-IsDrained}
use libusbgx.Tests.Configfs.{configfs, Disk, link}
use libusbgx.Tests.Structures.{heap, gadget}

abbrev config : Config
config = record {
  bindings = 10 ∷ 11 ∷ [];
  parent = 2;
  name = c "c.1";
  path = c "/u/g/configs";
  label = c "c";
  id = 1;
}

abbrev acm_link : Binding
acm_link = record { parent = 5; target = 6; name = c "acm.0"; path = c "/u/g/configs/c.1" }

abbrev ecm_link : Binding
ecm_link = record { parent = 5; target = 7; name = c "ecm.0"; path = c "/u/g/configs/c.1" }

abbrev bound_heap : Heap
bound_heap = record (written config_at 5 config heap) {
  bindings = update (update (λ _. none) 10 (some acm_link)) 11 (some ecm_link);
}

-- Only the first of the links is there.
abbrev links : Disk
links = record {
  nodes = (c "/u/g/configs/c.1/acm.0", link (c "/u/g/functions/acm.0")) ∷ [];
  memory = true;
}

config-Live : Live config_at bound_heap 5 config
config-Live = record { ne_null = ground arith; holds = refl }

links-IsBindingOf : All (IsBindingOf bound_heap 5) (10 ∷ 11 ∷ [])
links-IsBindingOf = (
  record { value = acm_link; live = record { ne_null = ground arith; holds = refl }; owner = refl },
  (
    record {
      value = ecm_link;
      live = record { ne_null = ground arith; holds = refl };
      owner = refl;
    },
    tt,
  ),
)

links-AllDistinct : AllDistinct (10 ∷ 11 ∷ [])
links-AllDistinct = ((ground arith, tt), (tt, tt))

drain_all-IsDrained_example :
    Post
      (λ _ n. IsDrained bound_heap 5 config (10 ∷ 11 ∷ []) [] n.heap)
      (λ _ n. IsPartly bound_heap 5 config n.heap)
      (drain_all config_at
        (λ conf. conf.bindings)
        rm_binding
        5
        (record { world = links; heap = bound_heap }))
drain_all-IsDrained_example =
    drain_all-IsDrained bound_heap links config-Live links-IsBindingOf links-AllDistinct

rm_config-IsGone_example :
    Post
      (λ _ n. IsGone bound_heap 5 config gadget n.heap)
      (λ _ n. IsPartly bound_heap 5 config n.heap)
      (rm_config 5 1 (record { world = links; heap = bound_heap }))
rm_config-IsGone_example =
    rm_config-IsGone bound_heap config-Live (record { ne_null = ground arith; holds = refl }) 1
      links refl links-IsBindingOf links-AllDistinct
