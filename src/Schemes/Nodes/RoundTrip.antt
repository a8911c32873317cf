-- ===== src/Schemes/Nodes/RoundTrip.antt =====
-- A value of an attribute that was exported to a tree and is imported again.
use libusbgx.Base.{ℕ, ◌<◌, ◌≡◌, Bool, true, List, Option, some, All, length}
use libusbgx.Base.Int.{ℤ}
use libusbgx.CStr.{CString}
use libusbgx.Funcs.Ether.{ether_ntoa_r}
use libusbgx.Funcs.Ether.RoundTrip.{ether_aton_r-ether_ntoa_r}
use libusbgx.Funcs.Values.{Kind, Val}
use libusbgx.Heap.{Heap}
use libusbgx.Heap.Keeps.{mem_at}
use libusbgx.Heap.Monad.{returned}
use libusbgx.Libconfig.{Libconfig, SettingType, type_int, type_string}
use libusbgx.Os.{Os}
use libusbgx.Schemes.Nodes.{
  Setting, parsed_addr, import_value, export_value, get_config_node_int, get_config_node_string,
  get_config_node_ether_addr, set_config_node_int, set_config_node_string,
  set_config_node_ether_addr,
}

module _ ⦃os : Os⦄ ⦃lc : Libconfig os⦄ (root : Setting) (name : CString) where
  -- A member of the type `t` is added to a tree, a value is set in it, and then it is found, with
  -- its type.
  pub record Member (t : SettingType) (set : Setting → os.World → Bool × os.World) (w w' : os.World)
      : Type 0 where
    pub node : Setting
    pub added : os.World
    pub add_lem : lc.add root (some name) t w ≡ (some node, added)
    pub set_lem : set node added ≡ (true, w')
    pub found_lem : lc.get_member root name w' ≡ some node
    pub type_lem : lc.type node w' ≡ t

  -- libconfig keeps the value in the tree of the world `w'`.
  pub data Kept (w w' : os.World) : (k : Kind) → Val k → Type 0 where
    kept_dec :
        {v : ℤ} (n : Member type_int (λ node. lc.set_int node v) w w')
        → lc.get_int n.node w' ≡ v
        → Kept w w' Kind.dec v
    kept_text :
        {v : Option CString} (n : Member type_string (λ node. lc.set_string node v) w w')
        → lc.get_string n.node w' ≡ v
        → Kept w w' Kind.text v
    kept_ether :
        {a : List ℕ}
        (n : Member type_string (λ node. lc.set_string node (some (ether_ntoa_r a))) w w')
        → lc.get_string n.node w' ≡ some (ether_ntoa_r a)
        → length a ≡ 6
        → All (λ n. n < 256) a
        → Kept w w' Kind.ether a

  module _ (h : Heap) {w w' : os.World} where
    string_back :
        (v : Option CString) (n : Member type_string (λ node. lc.set_string node v) w w')
        → lc.get_string n.node w' ≡ v
        → (set_config_node_string root (some name) v (mem_at h w) ≡ returned tt (mem_at h w'))
          × (get_config_node_string root name (mem_at h w') ≡ returned (some v) (mem_at h w'))
    unfolding set_config_node_string get_config_node_string
    string_back v n e = (rw (n.add_lem, n.set_lem), rw (n.found_lem, n.type_lem, e))

    -- A number, a text or an address of six bytes that was exported is imported again as it was,
    -- if libconfig keeps the node and its value, and neither changes a structure.
    pub export_value-import_value :
        (k : Kind) (v : Val k)
        → Kept w w' k v
        → (export_value k root name v (mem_at h w) ≡ returned tt (mem_at h w'))
          × (import_value k root name (mem_at h w') ≡ returned (some v) (mem_at h w'))
    unfolding export_value import_value get_config_node_int set_config_node_int
        get_config_node_ether_addr set_config_node_ether_addr
    export_value-import_value _ v (kept_dec n e) =
        (rw (n.add_lem, n.set_lem), rw (n.found_lem, n.type_lem, e))
    export_value-import_value _ v (kept_text n e) = string_back v n e
    export_value-import_value _ a (kept_ether n e six bytes) =
        let (out, back) = string_back (some (ether_ntoa_r a)) n e in
        (out, rw (back, parsed_addr, ether_aton_r-ether_ntoa_r a six bytes))
