-- ===== src/Xdp/State.antt =====
-- The connection table of src/bpf/xdp.bpf.c, over any map that keeps the documented behaviour of
-- a BPF hash map.
use o_rss_nic.Prelude.{
  Option-cases, ap, arith, false, if◌then◌else◌, inl, inr, none, some, ◌||◌, ◌∙◌, ◌≡◌, ◌⊎◌,
}
use o_rss_nic.FiveTuple.{FiveTuple, five_tuple_equals, five_tuple_equals_refl}
use o_rss_nic.Xdp.{BpfMap, ConnectionState, merge, update_connection_state}

-- Documented behaviour of the map. A write to an element that is there reaches it alone. A new
-- element is put in, or refused and nothing changes.
pub record IsHashMap (maps : BpfMap) : Type 0 where
  pub assign_there :
      (c : maps.Map) (k q : FiveTuple) (old s : ConnectionState)
      → maps.lookup_elem c k ≡ some old
      → maps.lookup_elem (maps.assign c k s) q
        ≡ (if five_tuple_equals k q then some s else maps.lookup_elem c q)
  pub update_there :
      (c : maps.Map) (k q : FiveTuple) (old s : ConnectionState)
      → maps.lookup_elem c k ≡ some old
      → maps.lookup_elem (maps.update_elem c k s) q
        ≡ (if five_tuple_equals k q then some s else maps.lookup_elem c q)
  pub update_new :
      (c : maps.Map) (k : FiveTuple) (s : ConnectionState)
      → maps.lookup_elem c k ≡ none
      → ((q : FiveTuple)
          → maps.lookup_elem (maps.update_elem c k s) q
            ≡ (if five_tuple_equals k q then some s else maps.lookup_elem c q))
        ⊎ ((q : FiveTuple) → maps.lookup_elem (maps.update_elem c k s) q ≡ maps.lookup_elem c q)

-- An entry with the flags of another beside its own.
abbrev pub joined : ConnectionState → ConnectionState → ConnectionState
joined s old = record {
  seen_syn = old.seen_syn || s.seen_syn;
  seen_synack = old.seen_synack || s.seen_synack;
  seen_ack = old.seen_ack || s.seen_ack;
  seen_fin = old.seen_fin || s.seen_fin;
  handled = old.handled;
}

merge-joined : (s old : ConnectionState) → merge s old ≡ joined s old
unfolding merge
merge-joined s old = ground arith

module _ (maps : BpfMap) (laws : IsHashMap maps) where
  open maps use {Map, lookup_elem, assign, update_elem}

  found :
      (k : FiveTuple) (s old : ConnectionState) (c : Map)
      → lookup_elem c k ≡ some old
      → update_connection_state maps k s c ≡ update_elem (assign c k (merge s old)) k (merge s old)
  unfolding update_connection_state
  found k s old c e = rw (update_connection_state, e)

  not_found :
      (k : FiveTuple) (s : ConnectionState) (c : Map)
      → lookup_elem c k ≡ none
      → update_connection_state maps k s c ≡ update_elem c k s
  unfolding update_connection_state
  not_found k s c e = rw (update_connection_state, e)

  -- `update_connection_state` at a key that is there merges the new flags into its state, and
  -- leaves every other key alone.
  pub update_connection_state-there :
      (k q : FiveTuple) (s old : ConnectionState) (c : Map)
      → lookup_elem c k ≡ some old
      → lookup_elem (update_connection_state maps k s c) q
        ≡ (if five_tuple_equals k q then some (merge s old) else lookup_elem c q)
  update_connection_state-there k q s old c e =
      let new = merge s old in
      let written = assign c k new in
      let here : lookup_elem written k ≡ some new =
        laws.assign_there c k k old new e ∙ rw (five_tuple_equals_refl k) in
      ap (λ m. lookup_elem m q) (found k s old c e)
      ∙ ground
          (arith, laws.update_there written k q new new here, laws.assign_there c k q old new e)

  untouched :
      (k q : FiveTuple) (s : ConnectionState) (c : Map)
      → five_tuple_equals k q ≡ false
      → lookup_elem (update_connection_state maps k s c) q ≡ lookup_elem c q
  untouched k q s c other = elim (Option-cases (lookup_elem c k)) [
    | inl absent ↦ elim (laws.update_new c k s absent) [
      | inl put ↦ ap (λ m. lookup_elem m q) (not_found k s c absent) ∙ put q ∙ rw other
      | inr refused ↦ ap (λ m. lookup_elem m q) (not_found k s c absent) ∙ refused q
    ]
    | inr (old, e) ↦ update_connection_state-there k q s old c e ∙ rw other
  ]

  -- What the program does to the key `k`: its flags go into the entry, if there is one.
  pub record Sees (k : FiveTuple) (s : ConnectionState) (c c' : Map) : Type 0 where
    pub merges :
        (old : ConnectionState)
        → lookup_elem c k ≡ some old
        → lookup_elem c' k ≡ some (joined s old)
    pub others :
        (q : FiveTuple) → five_tuple_equals k q ≡ false → lookup_elem c' q ≡ lookup_elem c q
    pub fresh : lookup_elem c k ≡ none → (lookup_elem c' k ≡ some s) ⊎ (lookup_elem c' k ≡ none)

  pub update_connection_state-Sees :
      (k : FiveTuple) (s : ConnectionState) (c : Map)
      → Sees k s c (update_connection_state maps k s c)
  update_connection_state-Sees k s c = record {
    merges = λ old e.
        update_connection_state-there k k s old c e
        ∙ rw (five_tuple_equals_refl k) (ap some (merge-joined s old));
    others = λ q other. untouched k q s c other;
    fresh = λ e. elim (laws.update_new c k s e) [
      | inl put ↦
          inl
            (ap (λ m. lookup_elem m k) (not_found k s c e) ∙ put k ∙ rw (five_tuple_equals_refl k))
      | inr refused ↦ inr (ap (λ m. lookup_elem m k) (not_found k s c e) ∙ refused k ∙ e)
    ];
  }
