-- ===== src/Monitor/Orders.antt =====
-- The orders that `main` of src/main.c sends to the switch, one for each migration.
use o_rss_nic.Prelude.{
  All, All-append, Bool, Bool-cases, List, Returns, [], ap, arith, false, if◌then◌else◌, inl, inr,
  length, length-append, read-ok, refl, some, subst, suc, sym, true, zero, ℕ, ℕ_discrete, ◌%◌, ◌&&◌,
  ◌++◌, ◌+◌, ◌<◌, ◌==◌, ◌^◌, ◌∙◌, ◌∷◌, ◌≡◌, ◌≤◌, ◌⊎◌,
}
use mathlib.Core.List.{append_assoc}
use o_rss_nic.FiveTuple.{FiveTuple, five_tuple_equals, five_tuple_equals_iff}
use o_rss_nic.HashMap.{HashMap}
use o_rss_nic.HashMap.Lookup.{view}
use o_rss_nic.Balancer.{Migration, Migrations, max_rebalance_iterations}
use o_rss_nic.Balancer.Steps.{MayUse}
use o_rss_nic.Words.{ByteOrder, IsByteOrder}
use o_rss_nic.Openflow.Convert.{ntoh_openflow_match, ntoh_openflow_action_vlan_vid}
use o_rss_nic.Openflow.FlowMod.{Constants, FlowMod, IsFiveTuple, openflow_mod_vlan}
use o_rss_nic.Openflow.Selects.{Frame, arrives, selects, openflow_mod_vlan-orders}
use o_rss_nic.Monitor.Replay.{moved}
use o_rss_nic.Monitor.{nb_cores, apply_migration}
use o_rss_nic.Monitor.Main.{apply_loop}

-- The fields of every key in the table have their widths.
unfoldable pub HasKeys : HashMap → Type 0
HasKeys m = (q : FiveTuple) (p : ℕ) → view m q ≡ some p → IsFiveTuple q

any_or_none :
    (n : ℕ) (f : ℕ → Bool) → ((j : ℕ) × (j < n) × (f j ≡ true)) ⊎ ((j : ℕ) → j < n → f j ≡ false)
any_or_none zero f = inr (λ j hj. absurd (omega arith))
any_or_none (suc n) f = elim (Bool-cases (f n)) [
  | inl here ↦ inl (n, omega arith, here)
  | inr not_here ↦ elim (any_or_none n f) [
    | inl (j, hj, e) ↦ inl (j, omega arith, e)
    | inr none_before ↦ inr (λ j hj. elim (ℕ_discrete j n) [
      | yes same ↦ ap f same ∙ not_here
      | no other ↦ none_before j (omega arith)
    ])
  ]
]

-- A table with more keys, all of which have their widths.
pub more-HasKeys :
    (m m' : HashMap) (n : ℕ) (key : ℕ → FiveTuple)
    → ((j : ℕ) → j < n → IsFiveTuple (key j))
    → ((q : FiveTuple)
        → ((j : ℕ) → j < n → five_tuple_equals (key j) q ≡ false)
        → view m' q ≡ view m q)
    → HasKeys m
    → HasKeys m'
unfolding HasKeys
more-HasKeys m m' n key wide same old q p e =
    elim (any_or_none n (λ j. five_tuple_equals (key j) q)) [
      | inl (j, hj, equal) ↦
          subst IsFiveTuple ((five_tuple_equals_iff (key j) q).0 equal) (wide j hj)
      | inr new ↦ old q p (sym (same q new) ∙ e)
    ]

-- An order that the switch reads as one for the frames of exactly one flow of the table, to give
-- them the VLAN of a core that exists.
pub record IsOrder (order : ByteOrder) (m : HashMap) (o : FlowMod) : Type 0 where
  pub key : FiveTuple
  pub core : ℕ
  pub known : (p : ℕ) × (view m key ≡ some p)
  pub exists : core < nb_cores
  pub names :
      (f : Frame)
      → selects (ntoh_openflow_match order o.match_) f ≡ (arrives f && five_tuple_equals key f.flow)
  pub moves :
      ntoh_openflow_action_vlan_vid order o.vlan_vid ≡ record { type = 1; len = 8; vlan_vid = core }

-- The VLAN that the switch gives to a frame, once it has read the orders, of which the newest comes
-- first: that of the newest order whose match, with its wildcards, takes the frame in and whose
-- action sets a VLAN, and 0, the VLAN of the flows that the controller installs, where there is
-- none.
unfoldable pub vlan_after : ByteOrder → List FlowMod → Frame → ℕ
vlan_after order [] f = 0
vlan_after order (o ∷ earlier) f =
    let before = vlan_after order earlier f in
    let action = ntoh_openflow_action_vlan_vid order o.vlan_vid in
    if selects (ntoh_openflow_match order o.match_) f && action.type == 1
    then action.vlan_vid
    else before

-- One round more of the orders, of which the next was written.
module _ (order : ByteOrder) where
  vlan_after-next :
      (f : Frame) (key : FiveTuple) (core : ℕ) (o : FlowMod) (orders : List FlowMod)
      → arrives f ≡ true
      → selects (ntoh_openflow_match order o.match_) f ≡ (arrives f && five_tuple_equals key f.flow)
      → ntoh_openflow_action_vlan_vid order o.vlan_vid
        ≡ record { type = 1; len = 8; vlan_vid = core }
      → vlan_after order (o ∷ orders) f
        ≡ (if five_tuple_equals key f.flow then core else vlan_after order orders f)
  unfolding vlan_after
  vlan_after-next f key core o orders comes names moves =
      rw (vlan_after, names, moves, comes)
        (elim (Bool-cases (five_tuple_equals key f.flow)) [
          | inl yes_key ↦ rw yes_key refl
          | inr no_key ↦ rw no_key refl
        ])

  -- What the next migration does to the orders.
  record Applied (constants : Constants) (written : Bool) (id : ℕ) (migration : Migration)
      (m : HashMap) (orders : List FlowMod) : Type 0 where
    new : List FlowMod
    all : (apply_migration order constants written id migration orders).0 ≡ new ++ orders
    few : length new ≤ 1
    good : All (IsOrder order m) new
    vlans :
        (f : Frame)
        → arrives f ≡ true
        → vlan_after order (apply_migration order constants written id migration orders).0 f ≡ (
            if written && five_tuple_equals migration.key f.flow
            then migration.destination_core
            else vlan_after order orders f)

  apply_migration-Applied :
      (constants : Constants) (written : Bool) (id : ℕ) (migration : Migration) (m : HashMap)
      (orders : List FlowMod)
      → IsByteOrder order
      → MayUse nb_cores m migration
      → HasKeys m
      → Applied constants written id migration m orders
  unfolding apply_migration HasKeys
  apply_migration-Applied constants written id migration m orders laws (exists, (p, known)) keys =
      let vlan : migration.destination_core % 2 ^ 16 ≡ migration.destination_core = omega arith in
      let (made, not_given, _) =
        openflow_mod_vlan-orders order constants id (migration.destination_core % 2 ^ 16)
          migration.key orders laws (keys migration.key p known) (omega arith) in
      let (o, given, names, moves, _, _, _, _) = made in
      let moves' = moves ∙ ap (λ (c : ℕ). record { type = 1; len = 8; vlan_vid = c }) vlan in
      elim (Bool-cases written) [
        | inl yes_written ↦ rw yes_written (record {
          new = o ∷ [];
          all = given;
          few = omega arith;
          good = (
            record {
              key = migration.key;
              core = migration.destination_core;
              known = (p, known);
              exists = exists;
              names = names;
              moves = moves';
            },
            tt,
          );
          vlans = λ f comes.
              ap (λ x. vlan_after order x f) given
              ∙ vlan_after-next f migration.key migration.destination_core o orders comes (names f)
                  moves';
        })
        | inr no_written ↦ rw no_written (record {
          new = [];
          all = not_given;
          few = omega arith;
          good = tt;
          vlans = λ f comes. ap (λ x. vlan_after order x f) not_given;
        })
      ]

  -- The loop over the migrations, of which the order of number `i` is written if `written i` says
  -- so.
  pub apply_loop-orders :
      (constants : Constants) (written : ℕ → Bool) (left i : ℕ) (migs : Migrations) (id : ℕ)
      (orders : List FlowMod) {m : HashMap}
      → IsByteOrder order
      → i + left ≤ max_rebalance_iterations
      → ((k : ℕ) → i ≤ k → k < i + left → MayUse nb_cores m (migs.migrations k))
      → HasKeys m
      → id < 2 ^ 32
      → Returns (apply_loop order constants written left i migs id orders) λ r.
        (new : List FlowMod) × (r.1 ≡ new ++ orders)
        × (length new ≤ left)
        × All (IsOrder order m) new
        × (r.0 ≡ (id + left) % 2 ^ 32)
        × ((f : Frame)
            → arrives f ≡ true
            → vlan_after order r.1 f
              ≡ moved written left i migs.migrations f.flow (vlan_after order orders f))
  unfolding apply_loop apply_migration openflow_mod_vlan moved
  apply_loop-orders constants written zero i migs id orders laws fits sensible keys small =
      ((id, orders), refl, ([], refl, omega arith, tt, omega arith, λ f comes. refl))
  apply_loop-orders constants written (suc left) i migs id orders {m} laws fits sensible keys
        small =
      let migration = migs.migrations i in
      let next = apply_migration order constants (written i) id migration orders in
      let this =
        apply_migration-Applied constants (written i) id migration m orders laws
          (sensible i (omega arith) (omega arith)) keys in
      let (r, run, (new, all, number, good, counted, vlans)) =
        apply_loop-orders constants written left (i + 1) migs next.1 next.0 laws (omega arith)
          (λ k lo hi. sensible k (omega arith) (omega arith)) keys (omega arith) in
      let few = this.few in
      (
        r,
        rw (read-ok max_rebalance_iterations migs.migrations i (omega arith)) run,
        (
          new ++ this.new,
          all ∙ ap (λ x. new ++ x) this.all ∙ sym (append_assoc new this.new orders),
          omega (arith, length-append new this.new),
          All-append (IsOrder order m) new this.new good this.good,
          omega arith,
          λ f comes.
              vlans f comes
              ∙ ap (moved written left (i + 1) migs.migrations f.flow) (this.vlans f comes),
        ),
      )
