-- ===== src/HashMap/Cleanup.antt =====
-- `hashmap_cleanup_inactive_flows` of src/hashmap.c.
use o_rss_nic.Prelude.{
  Bool-cases, Option, Option-cases, Returns, ap, arith, false, if◌then◌else◌, inl, inr, none, refl,
  some, suc, sym, true, zero, ℕ, ℕ_discrete, ◌+◌, ◌<◌, ◌∙◌, ◌≡◌, ◌≤◌,
}
use o_rss_nic.FiveTuple.{FiveTuple, five_tuple_equals_iff}
use o_rss_nic.RingBuffer.{RingBuffer}
use o_rss_nic.Heap.{Heap, load}
use o_rss_nic.HashMap.{HashMap, hashmap_size, cleanup_loop, cleanup_inactive_flows}
use o_rss_nic.HashMap.Lookup.{IsValid, view, slot_of-some, view-some, view-eq}
use o_rss_nic.HashMap.Ownership.{
  IsOwned, cleared, freed, cleared-IsValid, view-cleared, clear-cleared, freed-IsOwned,
}
use o_rss_nic.HashMap.ByKey.{IsOwned-OwnsByKey}

-- A block that is there and active.
abbrev pub keep : Option RingBuffer → Option RingBuffer
keep none = none
keep (some rb) = if rb.is_active then some rb else none

-- The value of a key, if its block is kept.
abbrev pub kept : Heap → Option ℕ → Option ℕ
kept h none = none
kept h (some p) = elim (keep (h.cell p)) [ none ↦ none | some rb ↦ some p ]

-- What the cleanup leaves: the keys of the active flows with their blocks, and no others.
pub record Cleans (m : HashMap) (h : Heap) (r : HashMap × Heap) : Type 0 where
  pub valid : IsValid r.0
  pub owned : IsOwned r.0 r.1
  pub reads : (q : FiveTuple) → view r.0 q ≡ kept h (view m q)
  pub cells : (p : ℕ) → r.1.cell p ≡ keep (h.cell p)
  pub shrinks : r.0.size ≤ m.size

-- Every slot before `i` that is in use has an active block.
abbrev Done : HashMap → Heap → ℕ → Type 0
Done m h i =
    (j : ℕ)
    → j < i
    → (m.map j).valid ≡ true
    → (rb : RingBuffer) → h.cell (m.map j).value ≡ some rb
    → rb.is_active ≡ true

Done-Cleans :
    {m : HashMap} {h : Heap} → IsValid m → IsOwned m h → Done m h hashmap_size → Cleans m h (m, h)
Done-Cleans {m} {h} v own all = record {
  valid = v;
  owned = own;
  reads = λ q. elim (Option-cases (view m q)) [
    | inl e ↦ rw e
    | inr (p, e) ↦
        let (i, slot, same) = view-some m q e in
        let (hi, used, _) = slot_of-some m q slot in
        let (rb, here) = own.live i hi used in
        let active = all i hi used rb here in
        let at_p : h.cell p ≡ some rb = ap h.cell (sym same) ∙ here in
        ground (arith, e, at_p, active)
  ];
  cells = λ p. elim (Option-cases (h.cell p)) [
    | inl e ↦ rw e
    | inr (rb, e) ↦
        let (i, hi, used, same) = own.held p rb e in rw (e, all i hi used rb (rw same e))
  ];
  shrinks = omega arith;
}

-- One round at a slot whose block is not active.
clear-Cleans :
    {m : HashMap} {h : Heap} (i : ℕ) {rb : RingBuffer} {r : HashMap × Heap}
    → IsValid m
    → IsOwned m h
    → i < hashmap_size
    → (m.map i).valid ≡ true
    → h.cell (m.map i).value ≡ some rb
    → rb.is_active ≡ false
    → Cleans (cleared m i) (freed m i h) r
    → Cleans m h r
clear-Cleans {m} {h} i {rb} v own hi used here idle c = record {
  valid = c.valid;
  owned = c.owned;
  reads = λ q. ground (
    arith,
    c.reads q,
    view-cleared v i hi used q,
    view-eq (m.map i).key i v hi used refl,
    five_tuple_equals_iff (m.map i).key q,
    ap (view m) {x = (m.map i).key} {y = q},
    (IsOwned-OwnsByKey v own).apart (m.map i).key q (m.map i).value,
    here,
  );
  cells = λ p. ground (arith, c.cells p, here);
  shrinks = omega (arith, c.shrinks);
}

Done-suc :
    (m : HashMap) (h : Heap) (i : ℕ)
    → Done m h i
    → ((m.map i).valid ≡ true
        → (rb : RingBuffer) → h.cell (m.map i).value ≡ some rb
        → rb.is_active ≡ true)
    → Done m h (i + 1)
Done-suc m h i before here j hj u rb e = elim (ℕ_discrete i j) [
  | yes same ↦ here (rw same u) rb (rw same e)
  | no other ↦ before j (omega arith) u rb e
]

Done-cleared :
    (m : HashMap) (h : Heap) (i : ℕ) → Done m h i → Done (cleared m i) (freed m i h) (i + 1)
Done-cleared m h i before j hj u rb e = elim (ℕ_discrete i j) [
  | yes same ↦ absurd (ground arith)
  | no other ↦ before j (omega arith) (ground arith) rb (ground arith)
]

cleanup_loop-Cleans :
    (left i : ℕ) {m : HashMap} {h : Heap}
    → i + left ≡ hashmap_size
    → IsValid m
    → IsOwned m h
    → Done m h i
    → Returns (cleanup_loop left i m h) (Cleans m h)
unfolding cleanup_loop load
cleanup_loop-Cleans zero i {m} {h} e v own before =
    ((m, h), refl, Done-Cleans v own (λ j hj. before j (omega arith)))
cleanup_loop-Cleans (suc left) i {m} {h} e v own before = elim (Bool-cases (m.map i).valid) [
  | inr free ↦ rw free (
      cleanup_loop-Cleans left (i + 1) (omega arith) v own
        (Done-suc m h i before (λ u rb here. absurd (cc))))
  | inl used ↦
      let (rb, here) = own.live i (omega arith) used in
      elim (Bool-cases rb.is_active) [
        | inl active ↦
            rw (used, load, here, active)
              (cleanup_loop-Cleans left (i + 1) (omega arith) v own
                (Done-suc m h i before (λ u rb' here'. ground (arith, here, here'))))
        | inr idle ↦
            let (r, run, c) =
              cleanup_loop-Cleans left (i + 1) (omega arith)
                (cleared-IsValid v i (omega arith) used) (freed-IsOwned own i (omega arith) used)
                (Done-cleared m h i before) in
            (
              r,
              ground (arith, here, clear-cleared own i (omega arith) used, run),
              clear-Cleans i v own (omega arith) used here idle c,
            )
      ]
]

-- `hashmap_cleanup_inactive_flows`, on a valid table that owns its blocks, ends normally, in a
-- valid table that owns its blocks. What is left are exactly the keys whose flow is active, each
-- with its block, exactly the blocks of the other flows are freed, and the size has not grown.
pub cleanup_inactive_flows-Cleans :
    {m : HashMap} {h : Heap}
    → IsValid m
    → IsOwned m h
    → Returns (cleanup_inactive_flows m h) (Cleans m h)
unfolding cleanup_inactive_flows
cleanup_inactive_flows-Cleans v own =
    cleanup_loop-Cleans hashmap_size 0 (omega arith) v own (λ j hj. absurd (omega arith))
