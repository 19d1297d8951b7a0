-- ===== src/Monitor/Recorded.antt =====
-- The counts that `get_migrations` of src/main.c adds to the ring buffers, by the keys of the
-- flows.
use o_rss_nic.Prelude.{
  Array, Bool-cases, List, Option, Option-cases, [], ap, arith, false, if◌then◌else◌, inl, inr,
  none, refl, some, suc, sym, zero, ℕ, ◌+◌, ◌∙◌, ◌∷◌, ◌≡◌, ◌≢◌,
}
use mathlib.Core.List.{map}
use o_rss_nic.Openflow.Flows.{Flows}
use o_rss_nic.Openflow.Entries.{Report, reports_from}
use o_rss_nic.FiveTuple.{FiveTuple, five_tuple_equals, five_tuple_equals_iff}
use o_rss_nic.RingBuffer.{RingBuffer, init}
use o_rss_nic.RingBuffer.Bounds.{added}
use o_rss_nic.Heap.{Heap}
use o_rss_nic.HashMap.{HashMap}
use o_rss_nic.HashMap.Lookup.{view}
use o_rss_nic.HashMap.ByKey.{IsOwned-OwnsByKey}
use o_rss_nic.HashMap.Contents.{contents}
use o_rss_nic.HashMap.Changes.{contents-none, contents-some}
use o_rss_nic.Balancer.Outcome.{Recores}
use o_rss_nic.Openflow.Convert.{FlowStats}
use o_rss_nic.Monitor.Belongs.{core_of, core_of-ring}
use o_rss_nic.Monitor.Record.{Records, key_of, packets}

-- A count more for a flow, in a fresh ring buffer where it has none.
abbrev pub counted_once : (count : ℕ) → Option RingBuffer → Option RingBuffer
counted_once count old = some (added (elim old [ none ↦ init | some rb ↦ rb ]) count)

-- The ring buffer of a key, once the flows from number `i` on are counted in their order: each flow
-- that has the key adds its packets.
unfoldable pub recorded :
    (left i : ℕ) → Array FlowStats → FiveTuple → Option RingBuffer → Option RingBuffer
recorded zero i flow_stats q old = old
recorded (suc left) i flow_stats q old = recorded left (i + 1) flow_stats q (
    if five_tuple_equals (key_of (flow_stats i)) q
    then counted_once (packets (flow_stats i)) old
    else old)

-- The same, for a list of flows.
unfoldable pub added_up : List FlowStats → FiveTuple → Option RingBuffer → Option RingBuffer
added_up [] q old = old
added_up (stats ∷ later) q old =
    added_up later q
      (if five_tuple_equals (key_of stats) q then counted_once (packets stats) old else old)

pub recorded-eq-added_up :
    (left i : ℕ) (flows : Flows) (q : FiveTuple) (old : Option RingBuffer)
    → recorded left i flows.flow_stats q old
      ≡ added_up (map (λ (p : Report). p.stats) (reports_from left i flows)) q old
unfolding recorded added_up
recorded-eq-added_up zero i flows q old = refl
recorded-eq-added_up (suc left) i flows q old = recorded-eq-added_up left (i + 1) flows q _

-- The same ring buffer, on another core.
abbrev pub on_core : ℕ → Option RingBuffer → Option RingBuffer
on_core core none = none
on_core core (some rb) = some (record rb { assigned_core = core })

pub record-contents :
    {n : ℕ} {m : HashMap} {h : Heap} {stats : FlowStats} {r : HashMap × Heap} (q : FiveTuple)
    → Records n m h stats r
    → contents r.0 r.1 q ≡ (
        if five_tuple_equals (key_of stats) q
        then counted_once (packets stats) (contents m h q)
        else contents m h q)
record-contents {n} {m} {h} {stats} {r} q made =
    elim (Bool-cases (five_tuple_equals (key_of stats) q)) [
      | inl equal ↦
          let same = (five_tuple_equals_iff (key_of stats) q).0 equal in
          rw equal (
            ap (contents r.0 r.1) (sym same)
            ∙ contents-some r.0 r.1 (key_of stats) made.place made.found
            ∙ made.now
            ∙ ap some made.is_added
            ∙ ap (λ rb. some (added rb (packets stats))) at_key
            ∙ ap (λ x. counted_once (packets stats) (contents m h x)) same)
      | inr ne ↦ rw ne (other ne)
    ]
  where
    at_key : made.before ≡ elim (contents m h (key_of stats)) [ none ↦ init | some rb ↦ rb ]
    at_key = elim (Option-cases (view m (key_of stats))) [
      | inl e ↦
          let new : some init ≡ some made.before = rw e at made.was in
          rw (contents-none m h (key_of stats) e) (ground arith)
      | inr (p, e) ↦
          let here : h.cell p ≡ some made.before = rw e at made.was in
          rw (contents-some m h (key_of stats) p e, here) refl
    ]

    other : five_tuple_equals (key_of stats) q ≡ false → contents r.0 r.1 q ≡ contents m h q
    other ne = elim (Option-cases (view r.0 q)) [
      | inl e ↦ contents-none r.0 r.1 q e ∙ sym (contents-none m h q (sym (made.others q ne) ∙ e))
      | inr (p, e) ↦
          let own = IsOwned-OwnsByKey made.ready.valid made.ready.owned in
          let apart : p ≢ made.place = λ at.
            let one = own.apart (key_of stats) q made.place made.found (e ∙ ap some at) in
            let yes_equal = (five_tuple_equals_iff (key_of stats) q).1 one in cc in
          contents-some r.0 r.1 q p e
          ∙ made.cells p apart
          ∙ sym (contents-some m h q p (sym (made.others q ne) ∙ e))
    ]

-- Migrations change the cores, and nothing else of a ring buffer.
pub Recores-contents :
    (m : HashMap) (h h' : Heap) (q : FiveTuple)
    → Recores h h'
    → contents m h' q ≡ on_core (core_of m h' q) (contents m h q)
Recores-contents m h h' q changed = elim (Option-cases (view m q)) [
  | inl e ↦ rw (contents-none m h' q e, contents-none m h q e) refl
  | inr (p, e) ↦ elim (Option-cases (h.cell p)) [
    | inl gone ↦ rw (contents-some m h' q p e, contents-some m h q p e, gone) (changed.gone p gone)
    | inr (rb, here) ↦
        let (c, here') = changed.there p rb here in
        rw
          (
            contents-some m h' q p e,
            contents-some m h q p e,
            here,
            core_of-ring m h' q {rb = record rb { assigned_core = c }} e here',
          )
          here'
  ]
]
