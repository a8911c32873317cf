-- ===== src/Schemes/Attrs/Booleans.antt =====
-- The import of attributes that are true or false.
use libusbgx.Base.{
  ◌≡◌, refl, ◌⊎◌, inl, inr, Bool, true, false, Bool-cases, List, [], ◌∷◌, Option, none, some,
  Option-cases,
}
use libusbgx.CStr.{CString}
use libusbgx.Error.{invalid_type}
use libusbgx.Funcs.Attrs.{Attr}
use libusbgx.Funcs.Values.{Kind, Val}
use libusbgx.Heap.{Mem}
use libusbgx.Heap.Monad.{M, Run, returned, raised, fault, then_run, ◌>>=◌}
use libusbgx.Libconfig.{
  Libconfig, SettingType, type_int, type_int64, type_float, type_string, type_bool, type_array,
  type_list, type_group,
}
use libusbgx.Os.{Os}
use libusbgx.Schemes.Attrs.{Setter, import_fields, set_if_found}
use libusbgx.Schemes.Nodes.{Setting, get_config_node_bool, import_value}

abbrev pub is_boolean : Kind → Bool
is_boolean Kind.boolean = true
is_boolean _ = false

module _ ⦃os : Os⦄ ⦃lc : Libconfig os⦄ where
  module _ (root : Setting) (name : CString) (m : Mem os) where
    type_or_none :
        (node : Setting) (t : SettingType)
        → lc.get_member root name m.world ≡ some node
        → lc.type node m.world ≡ t
        → (import_value Kind.boolean root name m ≡ returned none m)
          ⊎ (import_value Kind.boolean root name m ≡ raised invalid_type m)
    unfolding import_value get_config_node_bool
    type_or_none node type_int e h = inl (rw (e, h))
    type_or_none node type_bool e h = inl (rw (e, h))
    type_or_none node type_int64 e h = inr (rw (e, h))
    type_or_none node type_float e h = inr (rw (e, h))
    type_or_none node type_string e h = inr (rw (e, h))
    type_or_none node type_array e h = inr (rw (e, h))
    type_or_none node type_list e h = inr (rw (e, h))
    type_or_none node type_group e h = inr (rw (e, h))

    import_value-boolean :
        (import_value Kind.boolean root name m ≡ returned none m)
        ⊎ (import_value Kind.boolean root name m ≡ raised invalid_type m)
    unfolding import_value get_config_node_bool
    import_value-boolean = elim (Option-cases (lc.get_member root name m.world)) [
      | inl e ↦ inl (rw e)
      | inr (node, e) ↦ type_or_none node (lc.type node m.world) e refl
    ]

  -- The two setters do the same, except for attributes that are true or false.
  abbrev pub AgreeElsewhere : Setter → Setter → Type 0
  AgreeElsewhere set set' =
      (k : Kind) (file : CString) (v : Val k) (m : Mem os)
      → is_boolean k ≡ false
      → set k file v m ≡ set' k file v m

  then-same :
      {A B : Type 0} (r : Run (Mem os) A) (f g : A → M B)
      → ((a : A) (m : Mem os) → f a m ≡ g a m)
      → then_run f r ≡ then_run g r
  then-same (returned a m) f g same = same a m
  then-same (raised e m) f g same = refl
  then-same fault f g same = refl

  module _ (root : Setting) (set set' : Setter) (agree : AgreeElsewhere set set') where
    import_one : Setter → Kind → CString → M (Unit {0})
    import_one s k name = import_value k root name >>= set_if_found (s k name)

    import_other :
        (k : Kind) (name : CString) (m : Mem os)
        → is_boolean k ≡ false
        → import_one set k name m ≡ import_one set' k name m
    unfolding import_one
    import_other k name m other =
        then-same (import_value k root name m) (set_if_found (set k name))
          (set_if_found (set' k name)) found-same
      where
        found-same :
            (a : Option (Val k)) (m' : Mem os)
            → set_if_found (set k name) a m' ≡ set_if_found (set' k name) a m'
        found-same none m' = refl
        found-same (some v) m' = agree k name v m' other

    import_one-same :
        (k : Kind) (name : CString) (m : Mem os)
        → import_one set k name m ≡ import_one set' k name m
    unfolding import_one
    import_one-same Kind.boolean name m = elim (import_value-boolean root name m) [
      | inl e ↦ rw e refl
      | inr e ↦ rw e refl
    ]
    import_one-same Kind.dec name m = import_other Kind.dec name m refl
    import_one-same Kind.text name m = import_other Kind.text name m refl
    import_one-same Kind.ether name m = import_other Kind.ether name m refl
    import_one-same Kind.dev name m = import_other Kind.dev name m refl
    import_one-same Kind.report name m = import_other Kind.report name m refl

    -- For any two setters that do the same except for attributes that are true or false, the import
    -- of the attributes of any table does the same with the one as with the other, whatever the
    -- tree holds: no value of such an attribute comes to its setter.
    pub import_fields-booleans :
        (table : List Attr) (m : Mem os)
        → import_fields set root table m ≡ import_fields set' root table m
    unfolding import_fields import_one
    import_fields-booleans [] m = refl
    import_fields-booleans (e ∷ es) m = elim (Bool-cases e.ro) [
      | inl ro ↦ rw ro (import_fields-booleans es m)
      | inr writable ↦
          rw (writable, import_one-same e.kind e.name m)
            (then-same (import_one set' e.kind e.name m) (λ _. import_fields set root es)
              (λ _. import_fields set' root es) (λ _ n. import_fields-booleans es n))
    ]
