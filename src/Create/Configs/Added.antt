-- ===== src/Create/Configs/Added.antt =====
-- What `usbg_create_config` adds to the structures, and the heaps that it goes through.
use mathlib.Core.List.{Perm}
use libusbgx.Base.{◌≡◌, refl, ◌≢◌, ℕ, List, [], ◌∷◌, map, none, some, arith, All}
use libusbgx.CStr.{CString, c}
use libusbgx.Create.Configs.{listed}
use libusbgx.Files.{join}
use libusbgx.Heap.{Ptr, null, Heap, Gadget, Config}
use libusbgx.Heap.Insert.{entry_ptr}
use libusbgx.Heap.Insert.Linked.{Linked, inserted, inserted-perm, inserted-Live}
use libusbgx.Heap.Monad.{gadget_at, config_at, written, freed, added, update}
use libusbgx.Heap.Post.{Live}
use libusbgx.Split.{config_dir_name}
use libusbgx.Tailq.Order.{IsSorted, insert_string_order-IsSorted}

abbrev config_name : Config → CString
config_name conf = conf.name

-- The structure of the new configuration.
abbrev pub new_structure : Ptr → Gadget → ℕ → CString → Config
new_structure g gad id label = record {
  bindings = [];
  parent = g;
  name = config_dir_name label id;
  path = join gad.path (join gad.name (c "configs"));
  label = label;
  id = id;
}

-- `p` is a new configuration of the gadget `g`, with an id that none of its others has, in its
-- list, which stays sorted by name; all else is as it was.
pub record IsAdded (h : Heap) (g : Ptr) (gad : Gadget) (linked : Linked config_at h gad.configs)
    (id : ℕ) (label : CString) (p : Ptr) (n : Heap) : Type 0 where
  pub fresh : h.configs p ≡ none
  pub config : n.configs p ≡ some (new_structure g gad id label)
  pub list : List Ptr
  pub gadget : n.gadgets g ≡ some (record gad { configs = list })
  pub perm : Perm list (p ∷ gad.configs)
  pub sorted :
      IsSorted (λ e. config_name e.1) linked.entries
      → (now : Linked config_at n list) × IsSorted (λ e. config_name e.1) now.entries
  pub unused : All (λ e. e.1.id ≢ id) linked.entries
  pub configs : (q : Ptr) → q ≢ p → n.configs q ≡ h.configs q
  pub gadgets : (q : Ptr) → q ≢ g → n.gadgets q ≡ h.gadgets q
  pub states : n.states ≡ h.states
  pub functions : n.functions ≡ h.functions
  pub bindings : n.bindings ≡ h.bindings
  pub udcs : n.udcs ≡ h.udcs

-- Every structure is as it was.
pub record IsUnchanged (h : Heap) (n : Heap) : Type 0 where
  pub configs : (q : Ptr) → n.configs q ≡ h.configs q
  pub gadgets : n.gadgets ≡ h.gadgets
  pub states : n.states ≡ h.states
  pub functions : n.functions ≡ h.functions
  pub bindings : n.bindings ≡ h.bindings
  pub udcs : n.udcs ≡ h.udcs

pub same : (h : Heap) → IsUnchanged h h
same h = record {
  configs = λ _. refl;
  gadgets = refl;
  states = refl;
  functions = refl;
  bindings = refl;
  udcs = refl;
}

-- What was live before the configuration `conf` was added is live in `n`.
module _ (h : Heap) (free : h.configs h.next ≡ none) (conf : Config) (n : Heap)
    (table : n.configs ≡ update h.configs h.next (some conf)) where
  Live-added : (q : Ptr) (a : Config) → Live config_at h q a → Live config_at n q a
  Live-added q a live = record {
    ne_null = live.ne_null;
    holds = rw table (ground (arith, live.holds));
  }

  pub entries-added :
      (es : List (Ptr × Config))
      → All (λ e. Live config_at h e.0 e.1) es
      → All (λ e. Live config_at n e.0 e.1) es
  entries-added [] _ = tt
  entries-added ((q, a) ∷ es) (live, rest) = (Live-added q a live, entries-added es rest)

  abbrev pub linked_after : {ps : List Ptr} → Linked config_at h ps → Linked config_at n ps
  linked_after linked = record {
    entries = linked.entries;
    pointers = linked.pointers;
    live = entries-added linked.entries linked.live;
  }

-- The heap after the allocation.
abbrev pub grown : Heap → Ptr → Gadget → ℕ → CString → Heap
grown h g gad id label = added config_at (new_structure g gad id label) h

module _ {h : Heap} {g : Ptr} {gad : Gadget} (gadget : Live gadget_at h g gad)
    (linked : Linked config_at h gad.configs) (next : h.next ≢ null)
    (free : h.configs h.next ≡ none) (id : ℕ) (label : CString)
    (unused : All (λ e. e.1.id ≢ id) linked.entries) where
  abbrev after : Heap
  after =
      written gadget_at g (listed gad linked.entries h.next (new_structure g gad id label))
        (grown h g gad id label)

  pub grown-Live : Live config_at (grown h g gad id label) h.next (new_structure g gad id label)
  grown-Live = record { ne_null = next; holds = ground arith }

  after-Live : Live config_at after h.next (new_structure g gad id label)
  after-Live = record { ne_null = next; holds = ground arith }

  pub after-IsAdded : IsAdded h g gad linked id label h.next after
  after-IsAdded = record {
    fresh = free;
    config = ground arith;
    list =
        map entry_ptr (inserted config_name linked.entries h.next (new_structure g gad id label));
    gadget = ground arith;
    perm = inserted-perm config_at config_name linked h.next (new_structure g gad id label);
    sorted = λ s. (
      record {
        entries = inserted config_name linked.entries h.next (new_structure g gad id label);
        pointers = refl;
        live =
            inserted-Live config_at config_name
              (linked_after h free (new_structure g gad id label) after refl linked) h.next
              (new_structure g gad id label) after-Live;
      },
      insert_string_order-IsSorted (λ e. config_name e.1) (h.next, (new_structure g gad id label))
          linked.entries s,
    );
    unused = unused;
    configs = ground arith;
    gadgets = ground arith;
    states = refl;
    functions = refl;
    bindings = refl;
    udcs = refl;
  }

  pub freed-IsUnchanged : IsUnchanged h (freed config_at h.next (grown h g gad id label))
  freed-IsUnchanged = record {
    configs = λ q. ground arith;
    gadgets = refl;
    states = refl;
    functions = refl;
    bindings = refl;
    udcs = refl;
  }
